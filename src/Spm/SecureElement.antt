-- ===== src/Spm/SecureElement.antt =====
-- src/spm/services/se.go: the types of the secure element's interface.
use opentitan_provisioning.Base.{ℕ, String}
use opentitan_provisioning.Proto.{Bytes}

pub data WrappingMechanism : Type 0 where
  wrapping_none wrapping_rsa_pcks wrapping_rsa_oaep wrapping_aes_kwp wrapping_aes_gcm :
      WrappingMechanism

-- x509.SignatureAlgorithm, for the algorithms that the program names.
pub data SignatureAlgorithm : Type 0 where
  ecdsa_with_sha256 ecdsa_with_sha384 ecdsa_with_sha512 : SignatureAlgorithm
  unknown_signature_algorithm : SignatureAlgorithm

pub record EndorseCertParams : Type 0 where
  pub key_label : String
  pub signature_algorithm : SignatureAlgorithm

pub data TokenOp : Type 0 where
  token_op_raw token_op_hashed_ot_lc_token : TokenOp

-- The last case is any other number.
pub data TokenType : Type 0 where
  token_type_security_hi token_type_security_lo token_type_key_gen other_token_type : TokenType

pub record TokenParams : Type 0 where
  pub diversifier : String
  pub op : TokenOp
  pub typ : TokenType
  pub seed_label : String
  pub size_in_bits : ℕ
  pub sku : String
  pub wrap : WrappingMechanism
  pub wrap_key_label : String

pub record TokenResult : Type 0 where
  pub token : Bytes
  pub wrapped_key : Bytes
  pub diversifier : String
