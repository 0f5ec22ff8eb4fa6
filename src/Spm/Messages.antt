-- ===== src/Spm/Messages.antt =====
-- The messages of src/pa/proto/pa.proto, src/spm/proto/spm.proto and src/proto/crypto/cert.proto that
-- the SPM and the PA exchange. Values of a protobuf enum are numbers. A message field that is
-- missing is a nil pointer in Go.
use opentitan_provisioning.Base.{ℕ, String, Bool, List, Option}
use opentitan_provisioning.Proto.{Bytes, DeviceData}

-- enum TokenSeed
abbrev pub token_seed_low_security : ℕ
token_seed_low_security = 1

abbrev pub token_seed_high_security : ℕ
token_seed_high_security = 2

abbrev pub token_seed_keygen : ℕ
token_seed_keygen = 3

-- enum TokenType
abbrev pub token_type_raw : ℕ
token_type_raw = 1

abbrev pub token_type_hashed_ot_lc_token : ℕ
token_type_hashed_ot_lc_token = 2

-- enum TokenSize
abbrev pub token_size_128_bits : ℕ
token_size_128_bits = 1

abbrev pub token_size_256_bits : ℕ
token_size_256_bits = 2

pub record TokenParams : Type 0 where
  pub seed : ℕ
  pub typ : ℕ
  pub size : ℕ
  pub diversifier : String
  pub wrap_seed : Bool

pub record DeriveTokensRequest : Type 0 where
  pub sku : String
  pub params : List TokenParams

pub record Token : Type 0 where
  pub token : Bytes
  pub wrapped_seed : Bytes

pub record DeriveTokensResponse : Type 0 where
  pub tokens : List Token

pub record InitSessionRequest : Type 0 where
  pub sku : String
  pub sku_auth : String

pub record InitSessionResponse : Type 0 where
  pub sku_session_token : String
  pub pa_endpoint : String
  pub auth_methods : List String

-- enum HashType
abbrev pub hash_type_sha384 : ℕ
hash_type_sha384 = 2

abbrev pub hash_type_sha256 : ℕ
hash_type_sha256 = 3

abbrev pub hash_type_sha512 : ℕ
hash_type_sha512 = 4

-- The `key` of SigningKeyParams, a oneof with one case, and the hash type in it.
pub data SigningKey : Type 0 where
  no_key : SigningKey
  ecdsa_params : ℕ → SigningKey

pub record SigningKeyParams : Type 0 where
  pub key_label : String
  pub key : SigningKey

pub record EndorseCertBundle : Type 0 where
  pub key_params : Option SigningKeyParams
  pub tbs : Bytes

pub record EndorseCertsRequest : Type 0 where
  pub sku : String
  pub bundles : List EndorseCertBundle

-- The certificates' blobs.
pub record EndorseCertsResponse : Type 0 where
  pub certs : List Bytes

pub record EndorseDataRequest : Type 0 where
  pub sku : String
  pub key_params : Option SigningKeyParams
  pub payload : Bytes

pub record EndorseDataResponse : Type 0 where
  pub pubkey : Bytes
  pub signature : Bytes

pub record GetStoredTokensRequest : Type 0 where
  pub sku : String
  pub tokens : List String

pub record GetStoredTokensResponse : Type 0 where
  pub tokens : List Bytes

pub record RegistrationRequest : Type 0 where
  pub device_data : Option DeviceData
