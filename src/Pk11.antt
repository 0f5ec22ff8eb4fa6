-- ===== src/Pk11.antt =====
-- src/pk11: the Go wrapper of a PKCS#11 library. The library itself (github.com/miekg/pkcs11 and the
-- HSM behind it) is the parameter `Ctx`: operations on a state `H` of the device. Handles are
-- numbers. `sess.tok.m.ctx`, which the source reaches through pointers, is that parameter.
pub mod Connect
pub mod Find
pub mod Octets
pub mod Secret
pub mod Ecdsa
pub mod Rsa
pub mod Aes
pub mod Keys
pub mod SoftToken
mod Tests
mod KeyTests
use opentitan_provisioning.Base.{ℕ, Bool, String, List, Option}
use opentitan_provisioning.Base.Exec.{Exec}
use opentitan_provisioning.Proto.{Bytes}

-- The value of an attribute as the source writes it, before pkcs11.NewAttribute encodes it.
pub data Value : Type 0 where
  flag : Bool → Value
  number : ℕ → Value
  text : String → Value
  octets : Bytes → Value

-- The attribute types of PKCS#11 that the package uses.
pub data AttributeType : Type 0 where
  cka_class cka_id cka_label cka_key_type cka_value cka_value_len : AttributeType
  cka_sensitive cka_extractable cka_token cka_wrap cka_unwrap : AttributeType
  cka_encrypt cka_decrypt cka_sign cka_verify cka_derive : AttributeType
  cka_ec_params cka_ec_point cka_modulus cka_public_exponent : AttributeType
  cka_modulus_bits cka_private_exponent cka_prime_1 cka_prime_2 : AttributeType
  cka_exponent_1 cka_exponent_2 cka_coefficient : AttributeType

pub record Attribute : Type 0 where
  pub typ : AttributeType
  pub value : Value

abbrev pub new_attribute : AttributeType → Value → Attribute
new_attribute typ value = record { typ = typ; value = value }

-- CKO_PUBLIC_KEY, CKO_PRIVATE_KEY, CKO_SECRET_KEY
abbrev pub cko_public_key : ℕ
cko_public_key = 2

abbrev pub cko_private_key : ℕ
cko_private_key = 3

abbrev pub cko_secret_key : ℕ
cko_secret_key = 4

-- CKK_RSA, CKK_EC, CKK_GENERIC_SECRET, CKK_AES
abbrev pub ckk_rsa : ℕ
ckk_rsa = 0

abbrev pub ckk_ec : ℕ
ckk_ec = 3

abbrev pub ckk_generic_secret : ℕ
ckk_generic_secret = 16

abbrev pub ckk_aes : ℕ
ckk_aes = 31

-- CKR_USER_ALREADY_LOGGED_IN
abbrev pub ckr_user_already_logged_in : ℕ
ckr_user_already_logged_in = 0x100

-- The mechanisms that the package names; the OAEP one is with SHA-256 and MGF1-SHA-256. PSS has its
-- hash, its MGF and the length of its salt, GCM its IV, additional data and bits of tag.
pub data Mechanism : Type 0 where
  ckm_generic_secret_key_gen ckm_sha256_hmac ckm_rsa_pkcs ckm_rsa_pkcs_oaep ckm_ecdsa : Mechanism
  ckm_ec_key_pair_gen ckm_rsa_pkcs_key_pair_gen ckm_aes_key_gen ckm_aes_key_wrap_pad : Mechanism
  ckm_rsa_pkcs_pss : ℕ → ℕ → ℕ → Mechanism
  ckm_aes_gcm : Bytes → Bytes → ℕ → Mechanism

-- type Session and type object
pub record Session : Type 0 where
  pub slot : ℕ
  pub raw : ℕ

pub record Object : Type 0 where
  pub sess : Session
  pub raw : ℕ

pub record KeyOptions : Type 0 where
  pub extractable : Bool
  pub sensitive : Bool
  pub token : Bool
  pub encryption : Bool
  pub wrapping : Bool

-- CKR_CRYPTOKI_ALREADY_INITIALIZED
abbrev pub ckr_cryptoki_already_initialized : ℕ
ckr_cryptoki_already_initialized = 0x191

-- What the package calls of the PKCS#11 library, on the state `H` of the device. `major` is the
-- version that `get_info` has reported. An attribute's value is nil where the device has none.
-- `params_iv` is the IV in the GCM parameters made with an IV, after an operation used them.
pub record Ctx (H : Type 0) : Type 0 where
  pub new_ctx : String → Bool
  pub initialize : Exec H (Unit {0})
  pub get_info : Exec H ℕ
  pub major : ℕ
  pub next_id : H → ℕ × H
  pub get_slot_list : Exec H (List ℕ)
  pub open_session : ℕ → Exec H ℕ
  pub login : ℕ → ℕ → String → Exec H (Unit {0})
  pub find_objects_init : ℕ → List Attribute → Exec H (Unit {0})
  pub find_objects : ℕ → ℕ → Exec H (List ℕ)
  pub find_objects_final : ℕ → Exec H (Unit {0})
  pub get_attribute_value : ℕ → ℕ → List AttributeType → Exec H (List (Option Bytes))
  pub set_attribute_value : ℕ → ℕ → List Attribute → Exec H (Unit {0})
  pub destroy_object : ℕ → ℕ → Exec H (Unit {0})
  pub generate_key : ℕ → Mechanism → List Attribute → Exec H ℕ
  pub generate_key_pair : ℕ → Mechanism → List Attribute → List Attribute → Exec H (ℕ × ℕ)
  pub create_object : ℕ → List Attribute → Exec H ℕ
  pub sign_init : ℕ → Mechanism → ℕ → Exec H (Unit {0})
  pub sign : ℕ → Bytes → Exec H Bytes
  pub wrap_key : ℕ → Mechanism → ℕ → ℕ → Exec H Bytes
  pub unwrap_key : ℕ → Mechanism → ℕ → Bytes → List Attribute → Exec H ℕ
  pub encrypt_init : ℕ → Mechanism → ℕ → Exec H (Unit {0})
  pub encrypt : ℕ → Bytes → Exec H Bytes
  pub decrypt_init : ℕ → Mechanism → ℕ → Exec H (Unit {0})
  pub decrypt : ℕ → Bytes → Exec H Bytes
  pub params_iv : Bytes → H → Bytes
  pub generate_random : ℕ → ℕ → Exec H Bytes
  pub logout : ℕ → Exec H (Unit {0})
