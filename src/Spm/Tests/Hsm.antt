-- ===== src/Spm/Tests/Hsm.antt =====
-- Concrete runs of the queue of sessions and of the HSM, src/spm/services/se_pk11.go.
use mathlib.Core.List.{Perm}
use opentitan_provisioning.Base.{
  ℕ, ◌<◌, ◌≡◌, ◌≢◌, refl, arith, String_eq, List, [], ◌∷◌, ◌++◌, ok, err, hangs, errorf, Pointwise,
  inl,
}
use opentitan_provisioning.Base.Exec.{Exec}
use opentitan_provisioning.Base.Dict.{lookup, insert}
use opentitan_provisioning.Base.Text.{bytes_of}
use opentitan_provisioning.Pk11.{Session}
use opentitan_provisioning.Pk11.SoftToken.{
  Token, soft_token, soft_crypto, idle, mac, first_session, second_session,
}
use opentitan_provisioning.Pk11.Connect.{
  load, tokens, open_session, login, append_attr_key_id, make_hash,
}
use opentitan_provisioning.Pk11.Find.{
  find, find_loop, find_unique, find_unique_by_label, find_key_by_label, find_private_key,
  find_public_key, find_secret_key, uid, attr, attrs, int,
}
use opentitan_provisioning.Pk11.Octets.{bytes2uint}
use opentitan_provisioning.Pk11.Secret.{generate, sign_hmac256, wrap}
use opentitan_provisioning.Pk11.Ecdsa.Curves.{oid2_curve}
use opentitan_provisioning.Pk11.Ecdsa.{
  halves, sign_ecdsa, sign_ecdsa_pre_hashed, find_public_key_of, export_key, export_ecdsa_public,
}
use opentitan_provisioning.Spm.SecureElement.{
  TokenParams, TokenResult, EndorseCertParams, token_op_raw, token_op_hashed_ot_lc_token,
  token_type_security_hi, token_type_key_gen, wrapping_none, wrapping_rsa_oaep, ecdsa_with_sha256,
}
use opentitan_provisioning.Spm.SessionQueue.{
  SessionQueue, new_session_queue, get_handle, release, execute_cmd,
}
use opentitan_provisioning.Spm.SessionQueue
use opentitan_provisioning.Spm.SessionQueue.Interleaving.{
  Shared, Reachable, Step, Reachable-sessions,
}
use opentitan_provisioning.Spm.Hsm.{
  HsmConfig, or_error, open_loop, open_sessions, with_queue, get_key_id_by_label, key_ids,
  find_keys, new_hsm,
}
use opentitan_provisioning.Spm.Hsm.Opened.{AllBound, new_hsm-ready}
use opentitan_provisioning.Spm.Hsm.Tokens.{
  unsupported, truncated, hashed, wrap_choice, seed_of, wrapped_seed, raw_data, supported_token,
  token, all_tokens, generate_tokens,
}
use opentitan_provisioning.Spm.Hsm.Tokens.Shape.{TokenFor, generate_tokens-TokenFor}
use opentitan_provisioning.Spm.Hsm.Tokens.Reproducible.{
  IsStored, stored_token, uid_for, generate_tokens-reproducible,
}
use opentitan_provisioning.Spm.Hsm.Endorse.{
  hash_from_signature_algorithm, oid_from_signature_algorithm, encoded_signature, endorse_cert_with,
  endorse_cert, encoded_public_key, endorse_data_with, endorse_data,
}
use opentitan_provisioning.Spm.Hsm.Endorse.Signed.{
  IsEndorsed, IsEndorsedData, endorse_cert-IsEndorsed, endorse_data-IsEndorsedData,
}
use opentitan_provisioning.Spm.Tests.World.{
  hsm, queue, turned, cshake, cshake-IsSized, asn1, soft_token-IsHmac, soft_token-IsSigner, Halves,
  soft_store,
}

-- One caller takes the first session, and another one the second.
abbrev one_taken : Shared
one_taken = record {
  queue = record { num_sessions = 2; s = second_session ∷ [] };
  held = first_session ∷ [];
}

abbrev both_taken : Shared
both_taken = record {
  queue = record { num_sessions = 2; s = [] };
  held = second_session ∷ first_session ∷ [];
}

both-Reachable : Reachable queue both_taken
unfolding get_handle
both-Reachable =
    Reachable.then_ one_taken both_taken
      (Reachable.then_ (record { queue = queue; held = [] }) one_taken
        (Reachable.start (record { queue = queue; held = [] }) refl refl)
        (Step.takes first_session refl refl))
      (Step.takes second_session refl refl)

Reachable-sessions_example :
    Perm (second_session ∷ first_session ∷ []) (first_session ∷ second_session ∷ [])
    × ((before after : List Session) (s : Session)
        → second_session ∷ first_session ∷ [] ≡ before ++ s ∷ after
        → (SessionQueue.insert s both_taken.queue).0 ≡ ok tt)
    × (2 < 2 → (s : Session) × ((get_handle both_taken.queue).0 ≡ ok s))
Reachable-sessions_example = Reachable-sessions queue both_taken (omega arith) both-Reachable

-- A command that fails.
abbrev fails : Session → Exec Token (Unit {0})
fails session h = (err (errorf "no such key"), h)

fails_run : (execute_cmd fails (idle, queue)).0 ≢ err hangs
unfolding execute_cmd get_handle release SessionQueue.insert
fails_run e = cc e

abbrev hsm_config : HsmConfig
hsm_config = record {
  so_path = "pkcs11.so";
  slot_id = 0;
  hsm_password = "pin";
  num_sessions = 2;
  symmetric_keys = "hi" ∷ "lo" ∷ [];
  private_keys = "KCAPriv" ∷ [];
  public_keys = "wk" ∷ [];
}

abbrev same_session_twice : SessionQueue
same_session_twice = record { num_sessions = 2; s = first_session ∷ first_session ∷ [] }

new_hsm_run : new_hsm soft_token 2 hsm_config idle ≡ (ok (hsm, same_session_twice), idle)
unfolding new_hsm open_sessions load tokens open_loop open_session login new_session_queue
    with_queue execute_cmd get_handle release find_keys key_ids get_key_id_by_label
    find_key_by_label find_unique_by_label find find_loop uid attrs or_error insert lookup
    opentitan_provisioning.Base.Dict.delete
new_hsm_run = refl

new_hsm-ready_example :
    (0 < 2)
    × (◌≡◌ {A = ℕ} 2 2)
    × (◌≡◌ {A = ℕ} 2 2)
    × AllBound hsm.symmetric_keys ("hi" ∷ "lo" ∷ [])
    × AllBound hsm.private_keys ("KCAPriv" ∷ [])
    × AllBound hsm.public_keys ("wk" ∷ [])
new_hsm-ready_example =
    new_hsm-ready soft_token 2 hsm_config hsm same_session_twice idle idle new_hsm_run

abbrev stored_request : TokenParams
stored_request = record {
  diversifier = "was";
  op = token_op_hashed_ot_lc_token;
  typ = token_type_security_hi;
  seed_label = "hi";
  size_in_bits = 128;
  sku = "sival";
  wrap = wrapping_none;
  wrap_key_label = "";
}

abbrev fresh_request : TokenParams
fresh_request = record {
  diversifier = "rma";
  op = token_op_raw;
  typ = token_type_key_gen;
  seed_label = "";
  size_in_bits = 256;
  sku = "sival";
  wrap = wrapping_rsa_oaep;
  wrap_key_label = "wk";
}

abbrev stored_result : TokenResult
stored_result = record {
  token = 8 ∷ 8 ∷ 8 ∷ 8 ∷ 8 ∷ 8 ∷ 8 ∷ 8 ∷ 8 ∷ 8 ∷ 8 ∷ 8 ∷ 8 ∷ 8 ∷ 8 ∷ 8 ∷ [];
  wrapped_key = [];
  diversifier = "was";
}

abbrev fresh_result : TokenResult
fresh_result = record { token = mac; wrapped_key = 6 ∷ 6 ∷ []; diversifier = "rma" }

tokens_run :
    generate_tokens soft_token 2 cshake hsm (stored_request ∷ fresh_request ∷ []) (idle, queue)
    ≡ (ok (stored_result ∷ fresh_result ∷ []), (idle, turned))
unfolding generate_tokens execute_cmd get_handle release all_tokens token unsupported
    supported_token seed_of or_error find_secret_key find_public_key find_unique find find_loop
    generate append_attr_key_id sign_hmac256 wrap raw_data bytes_of truncated hashed wrap_choice
    wrapped_seed lookup insert opentitan_provisioning.Base.Dict.delete
tokens_run = refl

generate_tokens-TokenFor_example :
    Pointwise
      (TokenFor hsm)
      (stored_request ∷ fresh_request ∷ [])
      (stored_result ∷ fresh_result ∷ [])
generate_tokens-TokenFor_example =
    generate_tokens-TokenFor soft_token 2 cshake hsm soft_token-IsHmac cshake-IsSized
      (stored_request ∷ fresh_request ∷ []) (stored_result ∷ fresh_result ∷ []) idle idle queue
      turned (omega arith) tokens_run

stored_request-IsStored : IsStored soft_store hsm stored_request
unfolding lookup
stored_request-IsStored = record {
  uid = 1 ∷ [];
  typ = inl refl;
  wrap = refl;
  label = refl;
  known = tt;
}

generate_tokens-reproducible_example :
    (generate_tokens soft_token 2 cshake hsm (stored_request ∷ []) (idle, queue)).0
    ≡ ok (stored_token cshake (λ _ _. mac) (uid_for hsm stored_request) stored_request ∷ [])
unfolding lookup
generate_tokens-reproducible_example =
    generate_tokens-reproducible soft_token soft_store 2 (omega arith) cshake hsm
      (stored_request ∷ []) idle 2 first_session (second_session ∷ []) (omega arith)
      (stored_request-IsStored, tt) (record { usable = tt; no_search = refl; no_signature = refl })

abbrev endorse_params : EndorseCertParams
endorse_params = record { key_label = "sign"; signature_algorithm = ecdsa_with_sha256 }

cert_run :
    endorse_cert soft_token 2 soft_crypto asn1 (3 ∷ []) endorse_params (idle, queue)
    ≡ (ok (2 ∷ []), (idle, turned))
unfolding endorse_cert execute_cmd get_handle release endorse_cert_with get_key_id_by_label
    find_key_by_label find_unique_by_label find find_loop uid attrs or_error find_private_key
    find_unique hash_from_signature_algorithm encoded_signature sign_ecdsa make_hash
    sign_ecdsa_pre_hashed halves oid_from_signature_algorithm lookup insert
    opentitan_provisioning.Base.Dict.delete
cert_run = refl

endorse_cert-IsEndorsed_example :
    IsEndorsed soft_token 2 soft_crypto asn1 Halves (3 ∷ []) endorse_params (2 ∷ [])
endorse_cert-IsEndorsed_example =
    endorse_cert-IsEndorsed soft_token 2 soft_crypto asn1 Halves soft_token-IsSigner (3 ∷ [])
      endorse_params (2 ∷ []) idle idle queue turned (omega arith) cert_run

data_run :
    endorse_data soft_token 2 soft_crypto asn1 (3 ∷ []) endorse_params (idle, queue)
    ≡ (ok ((1 ∷ []), (1 ∷ [])), (idle, turned))
unfolding endorse_data execute_cmd get_handle release endorse_data_with get_key_id_by_label
    find_key_by_label find_unique_by_label find find_loop uid attrs or_error find_private_key
    find_unique hash_from_signature_algorithm encoded_signature sign_ecdsa make_hash
    sign_ecdsa_pre_hashed halves encoded_public_key find_public_key_of find_public_key export_key
    int attr bytes2uint export_ecdsa_public oid2_curve lookup insert
    opentitan_provisioning.Base.Dict.delete
data_run = refl

endorse_data-IsEndorsedData_example :
    IsEndorsedData soft_token 2 soft_crypto asn1 Halves idle
      (3 ∷ [])
      endorse_params
      ((1 ∷ []), (1 ∷ []))
endorse_data-IsEndorsedData_example =
    endorse_data-IsEndorsedData soft_token 2 soft_crypto asn1 Halves soft_token-IsSigner (3 ∷ [])
      endorse_params ((1 ∷ []), (1 ∷ [])) idle idle queue turned (omega arith) data_run
