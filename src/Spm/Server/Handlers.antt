-- ===== src/Spm/Server/Handlers.antt =====
-- DeriveTokens, EndorseCerts, EndorseData and GetStoredTokens of src/spm/services/spm.go.
pub mod Tokens
pub mod Certs
use opentitan_provisioning.Base.{
  ℕ, String, List, [], ◌∷◌, map, Option, none, some, nat_eq, Result, ok, err, status, internal,
  unimplemented, panic, if◌then◌else◌,
}
use opentitan_provisioning.Base.Exec.{Exec, ◌>>=◌, ◌>>◌, pure, raise, or_raise, lift}
use opentitan_provisioning.Proto.{Bytes}
use opentitan_provisioning.Spm.SkuConfig.{
  Config, get_attribute, get_unsafe_attribute, attr_name_seed_sec_hi, attr_name_seed_sec_lo,
}
use opentitan_provisioning.Spm.SecureElement.{
  TokenResult, EndorseCertParams, SignatureAlgorithm, ecdsa_with_sha256, ecdsa_with_sha384,
  ecdsa_with_sha512, unknown_signature_algorithm,
}
use opentitan_provisioning.Spm.SessionQueue.{SessionQueue}
use opentitan_provisioning.Spm.Hsm.{Hsm}
use opentitan_provisioning.Spm.Hsm.Tokens.{generate_tokens}
use opentitan_provisioning.Spm.Hsm.Endorse.{endorse_cert, endorse_data}
use opentitan_provisioning.Spm.Messages.{
  Token, DeriveTokensRequest, DeriveTokensResponse, EndorseCertBundle, EndorseCertsRequest,
  EndorseCertsResponse, EndorseDataRequest, EndorseDataResponse, GetStoredTokensRequest,
  GetStoredTokensResponse, SigningKey, SigningKeyParams, no_key, ecdsa_params, hash_type_sha256,
  hash_type_sha384, hash_type_sha512,
}
use opentitan_provisioning.Spm.Server.{World, Deps, SkuState, with_sku}
use opentitan_provisioning.Spm.Server.Params.{keygen_params}

unfoldable pub ecdsa_signature_algorithm_from_hash_type : ℕ → SignatureAlgorithm
ecdsa_signature_algorithm_from_hash_type h =
    if nat_eq h hash_type_sha256
    then ecdsa_with_sha256
    else if nat_eq h hash_type_sha384
    then ecdsa_with_sha384
    else if nat_eq h hash_type_sha512
    then ecdsa_with_sha512
    else unknown_signature_algorithm

abbrev pub token_of : TokenResult → Token
token_of r = record { token = r.token; wrapped_seed = r.wrapped_key }

-- bundle.KeyParams.KeyLabel is read through the pointer.
pub dereferenced : Option SigningKeyParams → Result SigningKeyParams
dereferenced none = err (panic "nil pointer dereference")
dereferenced (some p) = ok p

-- The parameters of an endorsement, from `switch key := ....Key.(type)`.
pub endorse_params : String → SigningKey → Result EndorseCertParams
unfolding ecdsa_signature_algorithm_from_hash_type
endorse_params key_label no_key = err (status unimplemented "unsupported key format")
endorse_params key_label (ecdsa_params hash_type) = ok (record {
  key_label = key_label;
  signature_algorithm = ecdsa_signature_algorithm_from_hash_type hash_type;
})

module _ {H : Type 0} (deps : Deps H) where
  unfoldable pub derive_with :
      DeriveTokensRequest → SkuState → Exec (H × SessionQueue) DeriveTokensResponse
  unfolding get_attribute
  derive_with request sku = do
    s_label_hi ←
        or_raise (lift (get_attribute sku.config attr_name_seed_sec_hi))
          (status internal "could not fetch seed label %q: %v")
    s_label_lo ←
        or_raise (lift (get_attribute sku.config attr_name_seed_sec_lo))
          (status internal "could not fetch seed label %q: %v")
    params ← lift (keygen_params sku.config s_label_hi s_label_lo request.sku request.params)
    res ←
        or_raise (generate_tokens deps.ctx deps.fuel deps.cshake sku.se_handle params)
          (status internal "could not generate symmetric key: %s")
    pure (record { tokens = map token_of res })

  unfoldable pub derive_tokens : DeriveTokensRequest → Exec (World H) DeriveTokensResponse
  derive_tokens request = with_sku request.sku (derive_with request)

  -- Where the key is missing, its label is looked up before.
  unfoldable pub request_params : SkuState → Option SigningKeyParams → Result EndorseCertParams
  unfolding dereferenced endorse_params get_unsafe_attribute
  request_params sku key_params = elim (dereferenced key_params) [
    | err e ↦ err e
    | ok k ↦ elim (get_unsafe_attribute sku.config k.key_label) [
      | err _ ↦ err (status internal "unable to find key label %q in SKU configuration: %v")
      | ok key_label ↦ endorse_params key_label k.key
    ]
  ]

  unfoldable pub endorse_bundle : SkuState → EndorseCertBundle → Exec (H × SessionQueue) Bytes
  endorse_bundle sku bundle = do
    params ← lift (request_params sku bundle.key_params)
    or_raise (endorse_cert deps.ctx deps.fuel deps.crypto deps.asn1 bundle.tbs params)
        (status internal "could not endorse cert: %v")

  unfoldable pub endorse_bundles :
      SkuState → List EndorseCertBundle → Exec (H × SessionQueue) (List Bytes)
  endorse_bundles sku [] = pure []
  endorse_bundles sku (bundle ∷ bundles) = endorse_bundle sku bundle >>= λ cert.
      endorse_bundles sku bundles >>= λ certs. pure (cert ∷ certs)

  unfoldable pub endorse_certs_with :
      EndorseCertsRequest → SkuState → Exec (H × SessionQueue) EndorseCertsResponse
  endorse_certs_with request sku = do
    certs ← endorse_bundles sku request.bundles
    pure (record { certs = certs })

  unfoldable pub endorse_certs : EndorseCertsRequest → Exec (World H) EndorseCertsResponse
  endorse_certs request = with_sku request.sku (endorse_certs_with request)

  unfoldable pub endorse_data_for :
      EndorseDataRequest → SkuState → Exec (H × SessionQueue) EndorseDataResponse
  endorse_data_for request sku = do
    params ← lift (request_params sku request.key_params)
    result ←
        or_raise (endorse_data deps.ctx deps.fuel deps.crypto deps.asn1 request.payload params)
          (status internal "could not endorse data payload: %v")
    pure (record { pubkey = result.0; signature = result.1 })

  unfoldable pub endorse_payload : EndorseDataRequest → Exec (World H) EndorseDataResponse
  endorse_payload request = with_sku request.sku (endorse_data_for request)

  unfoldable pub get_stored_tokens : GetStoredTokensRequest → Exec (World H) GetStoredTokensResponse
  get_stored_tokens request = raise (status internal "SPM.GetStoredTokens - unimplemented")
