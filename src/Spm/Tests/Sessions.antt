-- ===== src/Spm/Tests/Sessions.antt =====
-- Concrete runs of the sessions of src/spm/services/spm.go.
use opentitan_provisioning.Base.{
  ◌≡◌, ◌⊎◌, inl, inr, refl, arith, String, String_eq, str_eq, eq_iff, List, [], ◌∷◌, Option, none,
  some, ok, err, Error, status, internal, Bool-cases,
}
use opentitan_provisioning.Base.Dict.{lookup, insert}
use opentitan_provisioning.Base.Text.{bytes_of, concat, has_prefix}
use opentitan_provisioning.Pk11.SoftToken.{first_session}
use opentitan_provisioning.Pk11.Connect.{load, tokens, open_session, login}
use opentitan_provisioning.Pk11.Find.{
  find, find_loop, find_unique_by_label, find_key_by_label, uid, attrs,
}
use opentitan_provisioning.Utils.{
  read_file, read_file_from_dir, load_config, compare_hash_and_password,
}
use opentitan_provisioning.Spm.SkuConfig.{Auth, SkuAuth}
use opentitan_provisioning.Spm.SessionQueue.{new_session_queue, get_handle, release, execute_cmd}
use opentitan_provisioning.Spm.Hsm.{
  or_error, open_loop, open_sessions, with_queue, get_key_id_by_label, key_ids, find_keys, new_hsm,
}
use opentitan_provisioning.Spm.Messages.{InitSessionRequest, InitSessionResponse}
use opentitan_provisioning.Spm.Server.{SkuState}
use opentitan_provisioning.Spm.Server.Frame.{WellFormed}
use opentitan_provisioning.Spm.Server.Sessions.{
  family_sku, find_sku_auth, generate_token, generate_session_token, file_password, env_password,
  load_certs, new_sku, initialize_sku, init_sku, check_auth, init_session,
}
use opentitan_provisioning.Spm.Server.Sessions.Authorized.{
  IsOrder, IsAuthFor, find_sku_auth-IsAuthFor,
}
use opentitan_provisioning.Spm.Server.Sessions.Initialized.{IsReady, initialize_sku-cases}
use opentitan_provisioning.Spm.Server.Sessions.Opened.{init_session-keeps, init_session-authorized}
use opentitan_provisioning.Spm.Tests.World.{
  config, hsm, auth_cfg, deps, world, running, running-WellFormed,
}

abbrev order : List String
order = "siv" ∷ []

abbrev family_auth : SkuAuth
family_auth = record { sku_auth = "hash"; methods = "DeriveTokens" ∷ [] }

order-IsOrder : IsOrder auth_cfg order
unfolding lookup
order-IsOrder = record {
  every = λ k a listed. elim (Bool-cases (str_eq "siv" k)) [
    | inl same ↦ inl ((eq_iff "siv" k).0 same)
    | inr other ↦ absurd (ground arith)
  ];
  only = λ k i. elim i [
    | inl e ↦ (family_auth, ground (arith, eq_iff "siv" k))
    | inr none_ ↦ absurd none_
  ];
}

find_sku_auth-IsAuthFor_example :
    ((auth : SkuAuth)
      → find_sku_auth auth_cfg order "sival" ≡ some auth
      → IsAuthFor auth_cfg "sival" auth)
    × ((k rest : String) (a : SkuAuth)
        → lookup k auth_cfg.sku_auth_cfg_list ≡ some a
        → "sival" ≡ concat k rest
        → (auth : SkuAuth) × (find_sku_auth auth_cfg order "sival" ≡ some auth))
find_sku_auth-IsAuthFor_example = find_sku_auth-IsAuthFor auth_cfg order "sival" order-IsOrder

initialize_sku-cases_example :
    ((sku : SkuState)
      → lookup "sival" running.server.skus ≡ some sku
      → initialize_sku deps "sival" running ≡ (ok tt, running))
    × (lookup "sival" running.server.skus ≡ none
        → (((e : Error) × ((initialize_sku deps "sival" running).0 ≡ err e))
            × ((initialize_sku deps "sival" running).1.server ≡ running.server))
          ⊎ ((sku : SkuState) × IsReady sku
              × ((initialize_sku deps "sival" running).0 ≡ ok tt)
              × ((initialize_sku deps "sival" running).1.server
                  ≡ record running.server { skus = insert "sival" sku running.server.skus })))
initialize_sku-cases_example = initialize_sku-cases deps "sival" running

abbrev request : InitSessionRequest
request = record { sku = "sival"; sku_auth = "password" }

abbrev response : InitSessionResponse
response = record {
  sku_session_token = "aaaaaaaaaaaaaaaa";
  pa_endpoint = "";
  auth_methods = "DeriveTokens" ∷ [];
}

abbrev opened : SkuState
opened = record {
  config = config;
  certs = [];
  se_handle = hsm;
  sessions = record { num_sessions = 2; s = first_session ∷ first_session ∷ [] };
}

session_run :
    init_session deps order request (world []) ≡ (ok response, world (("sival", opened) ∷ []))
unfolding init_session check_auth find_sku_auth family_sku has_prefix compare_hash_and_password
    bytes_of init_sku generate_session_token generate_token concat or_error initialize_sku new_sku
    load_config read_file_from_dir read_file file_password env_password load_certs new_hsm
    open_sessions load tokens open_loop open_session login new_session_queue with_queue execute_cmd
    get_handle release find_keys key_ids get_key_id_by_label find_key_by_label find_unique_by_label
    find find_loop uid attrs insert lookup opentitan_provisioning.Base.Dict.delete
session_run = refl

init_session-authorized_example :
    (cfg : Auth) × (auth : SkuAuth) × (sku : SkuState) × (◌≡◌ {A = Option Auth}
      (some auth_cfg)
      (some cfg))
    × (find_sku_auth cfg order "sival" ≡ some auth)
    × (deps.compare (bytes_of auth.sku_auth) (bytes_of "password") ≡ ok tt)
    × ("DeriveTokens" ∷ [] ≡ auth.methods)
    × (lookup {K = String} {V = SkuState} "sival" (("sival", opened) ∷ []) ≡ some sku)
init_session-authorized_example =
    init_session-authorized deps order request (world []) (world (("sival", opened) ∷ [])) response
      session_run

init_session-keeps_example :
    WellFormed (init_session deps order request running).1
    × ((k : String) (entry : SkuState)
        → lookup k running.server.skus ≡ some entry
        → lookup k (init_session deps order request running).1.server.skus ≡ some entry)
init_session-keeps_example = init_session-keeps deps order request running running-WellFormed

abbrev unknown : InitSessionRequest
unknown = record { sku = "other"; sku_auth = "password" }

unknown_refused :
    check_auth deps running.server.auth_cfg order unknown ≡ err (status internal "unknown sku: %q")
unfolding check_auth find_sku_auth family_sku has_prefix lookup
unknown_refused = refl
