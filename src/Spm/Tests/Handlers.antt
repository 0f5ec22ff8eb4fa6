-- ===== src/Spm/Tests/Handlers.antt =====
-- Concrete runs of the handlers of src/spm/services/spm.go.
use opentitan_provisioning.Base.{
  ◌≡◌, ◌≢◌, refl, String_eq, true, false, [], ◌∷◌, none, some, ok, err, hangs, Pointwise,
}
use opentitan_provisioning.Base.Dict.{lookup, insert}
use opentitan_provisioning.Base.Text.{bytes_of}
use opentitan_provisioning.Pk11.SoftToken.{mac}
use opentitan_provisioning.Pk11.Connect.{append_attr_key_id, make_hash}
use opentitan_provisioning.Pk11.Find.{
  find, find_loop, find_unique, find_unique_by_label, find_key_by_label, find_private_key,
  find_public_key, find_secret_key, uid, attrs,
}
use opentitan_provisioning.Pk11.Secret.{generate, sign_hmac256, wrap}
use opentitan_provisioning.Pk11.Ecdsa.{halves, sign_ecdsa, sign_ecdsa_pre_hashed}
use opentitan_provisioning.Spm.SkuConfig.{get_attribute, get_unsafe_attribute}
use opentitan_provisioning.Spm.SessionQueue.{get_handle, release, execute_cmd}
use opentitan_provisioning.Spm.Hsm.{or_error, get_key_id_by_label}
use opentitan_provisioning.Spm.Hsm.Tokens.{
  unsupported, truncated, hashed, wrap_choice, seed_of, wrapped_seed, raw_data, supported_token,
  token, all_tokens, generate_tokens,
}
use opentitan_provisioning.Spm.Hsm.Endorse.{
  hash_from_signature_algorithm, oid_from_signature_algorithm, encoded_signature, endorse_cert_with,
  endorse_cert,
}
use opentitan_provisioning.Spm.Messages
use opentitan_provisioning.Spm.Messages.{
  DeriveTokensRequest, DeriveTokensResponse, EndorseCertsRequest, EndorseCertsResponse,
  EndorseDataRequest, ecdsa_params,
}
use opentitan_provisioning.Spm.Server.{SkuState, with_sku}
use opentitan_provisioning.Spm.Server.Params.{token_params, keygen_params}
use opentitan_provisioning.Spm.Server.Handlers.{
  ecdsa_signature_algorithm_from_hash_type, request_params, derive_with, derive_tokens,
  endorse_bundle, endorse_bundles, endorse_certs_with, endorse_certs, endorse_payload,
}
use opentitan_provisioning.Spm.Server.Handlers.Tokens.{Answers, derive_tokens-Answers}
use opentitan_provisioning.Spm.Server.Handlers.Certs.{
  IsCertificateFor, endorse_certs-IsCertificateFor,
}
use opentitan_provisioning.Spm.Server.Frame.{SameSkus, handlers-SameSkus}
use opentitan_provisioning.Spm.Tests.World.{
  deps, running, running-WellFormed, soft_token-IsHmac, cshake-IsSized, soft_token-IsSigner, Halves,
}

abbrev wafer_token : Messages.TokenParams
wafer_token = record { seed = 2; typ = 2; size = 1; diversifier = "was"; wrap_seed = false }

abbrev rma_token : Messages.TokenParams
rma_token = record { seed = 3; typ = 1; size = 2; diversifier = "rma"; wrap_seed = true }

abbrev tokens_request : DeriveTokensRequest
tokens_request = record { sku = "sival"; params = wafer_token ∷ rma_token ∷ [] }

abbrev tokens_response : DeriveTokensResponse
tokens_response = record {
  tokens =
      record {
        token = 8 ∷ 8 ∷ 8 ∷ 8 ∷ 8 ∷ 8 ∷ 8 ∷ 8 ∷ 8 ∷ 8 ∷ 8 ∷ 8 ∷ 8 ∷ 8 ∷ 8 ∷ 8 ∷ [];
        wrapped_seed = [];
      }
      ∷ record { token = mac; wrapped_seed = 6 ∷ 6 ∷ [] }
      ∷ [];
}

tokens_run : (derive_tokens deps tokens_request running).0 ≡ ok tokens_response
unfolding derive_tokens with_sku derive_with get_attribute keygen_params token_params
    generate_tokens execute_cmd get_handle release all_tokens token unsupported supported_token
    seed_of or_error find_secret_key find_public_key find_unique find find_loop generate
    append_attr_key_id sign_hmac256 wrap raw_data bytes_of truncated hashed wrap_choice wrapped_seed
    lookup insert opentitan_provisioning.Base.Dict.delete
tokens_run = refl

derive_tokens-Answers_example :
    Pointwise Answers (wafer_token ∷ rma_token ∷ []) tokens_response.tokens
derive_tokens-Answers_example =
    derive_tokens-Answers deps soft_token-IsHmac cshake-IsSized tokens_request running
      tokens_response running-WellFormed tokens_run

abbrev bundle : Messages.EndorseCertBundle
bundle = record {
  key_params = some (record { key_label = "SigningKey/Identity/v0"; key = ecdsa_params 3 });
  tbs = 3 ∷ [];
}

abbrev certs_request : EndorseCertsRequest
certs_request = record { sku = "sival"; bundles = bundle ∷ [] }

abbrev certs_response : EndorseCertsResponse
certs_response = record { certs = (2 ∷ []) ∷ [] }

certs_run : (endorse_certs deps certs_request running).0 ≡ ok certs_response
unfolding endorse_certs with_sku endorse_certs_with endorse_bundles endorse_bundle request_params
    get_unsafe_attribute ecdsa_signature_algorithm_from_hash_type endorse_cert execute_cmd
    get_handle release endorse_cert_with get_key_id_by_label find_key_by_label find_unique_by_label
    find find_loop uid attrs or_error find_private_key find_unique hash_from_signature_algorithm
    encoded_signature sign_ecdsa make_hash sign_ecdsa_pre_hashed halves oid_from_signature_algorithm
    lookup insert opentitan_provisioning.Base.Dict.delete
certs_run = refl

endorse_certs-IsCertificateFor_example :
    (sku : SkuState) × (lookup "sival" running.server.skus ≡ some sku)
    × Pointwise (IsCertificateFor deps Halves sku) (bundle ∷ []) ((2 ∷ []) ∷ [])
endorse_certs-IsCertificateFor_example =
    endorse_certs-IsCertificateFor deps Halves soft_token-IsSigner certs_request running
      certs_response running-WellFormed certs_run

handlers-SameSkus_example :
    ((request : DeriveTokensRequest)
      → (derive_tokens deps request running).0 ≢ err hangs
      → SameSkus running (derive_tokens deps request running).1)
    × ((request : EndorseCertsRequest)
        → (endorse_certs deps request running).0 ≢ err hangs
        → SameSkus running (endorse_certs deps request running).1)
    × ((request : EndorseDataRequest)
        → (endorse_payload deps request running).0 ≢ err hangs
        → SameSkus running (endorse_payload deps request running).1)
handlers-SameSkus_example = handlers-SameSkus deps running running-WellFormed

missing : lookup "other" running.server.skus ≡ none
unfolding lookup
missing = refl
