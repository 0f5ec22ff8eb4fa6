-- ===== src/Spm/SkuConfig.antt =====
-- src/spm/services/skucfg.go: what the configuration files of a SKU say. The slot and the number of
-- sessions are natural numbers here.
use opentitan_provisioning.Base.{ℕ, List, String, String_eq, none, some, Result, ok, err, errorf}
use opentitan_provisioning.Base.Dict.{Dict, lookup}

-- SymmetricKey, PublicKey, PrivateKey and Certificate
pub record SymmetricKey : Type 0 where
  pub name : String

pub record PublicKey : Type 0 where
  pub name : String

pub record PrivateKey : Type 0 where
  pub name : String
  pub endorsing_cert : String

pub record Certificate : Type 0 where
  pub name : String
  pub path : String

pub record Config : Type 0 where
  pub sku : String
  pub slot_id : ℕ
  pub num_sessions : ℕ
  pub symmetric_keys : List SymmetricKey
  pub private_keys : List PrivateKey
  pub public_keys : List PublicKey
  pub certs : List Certificate
  pub attributes : Dict String String

pub record SkuAuth : Type 0 where
  pub sku_auth : String
  pub methods : List String

pub record Auth : Type 0 where
  pub sku_auth_cfg_list : Dict String SkuAuth

-- type AttrName
abbrev pub attr_name_seed_sec_hi : String
attr_name_seed_sec_hi = "SeedSecHi"

abbrev pub attr_name_seed_sec_lo : String
attr_name_seed_sec_lo = "SeedSecLo"

abbrev pub attr_name_wrapping_key_label : String
attr_name_wrapping_key_label = "WrappingKeyLabel"

abbrev pub attr_name_wrapping_mechanism : String
attr_name_wrapping_mechanism = "WrappingMechanism"

-- type WrappingMechanism, for the two values that the server reads.
abbrev pub wrapping_mechanism_rsa_oaep : String
wrapping_mechanism_rsa_oaep = "RsaOaep"

abbrev pub wrapping_mechanism_rsa_pkcs1 : String
wrapping_mechanism_rsa_pkcs1 = "RsaPkcs"

-- GetUnsafeAttribute and GetAttribute have one body.
unfoldable pub get_unsafe_attribute : Config → String → Result String
get_unsafe_attribute c name = elim (lookup name c.attributes) [
  | none ↦ err (errorf "attribute %s not found")
  | some attr ↦ ok attr
]

unfoldable pub get_attribute : Config → String → Result String
get_attribute c name = elim (lookup name c.attributes) [
  | none ↦ err (errorf "attribute %s not found")
  | some attr ↦ ok attr
]
