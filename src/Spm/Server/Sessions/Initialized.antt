-- ===== src/Spm/Server/Sessions/Initialized.antt =====
-- What a session that InitSession of src/spm/services/spm.go opens rests on.
use opentitan_provisioning.Base.{
  ℕ, ◌≤◌, ◌<◌, ◌≡◌, ◌⊎◌, inl, inr, refl, sym, ap, subst, ◌∙◌, arith, String, String_eq, ◌==◌, List,
  [], map, length, Option, none, some, Option-cases, Bool-cases, Result-cases, ok, err, Error,
  or_else, or_else-eq-ok,
}
use opentitan_provisioning.Base.Exec.{continue-eq-ok}
use opentitan_provisioning.Base.Dict.{lookup, insert, lookup-insert}
use opentitan_provisioning.Base.Text.{bytes_of, concat}
use opentitan_provisioning.Utils.{compare_hash_and_password, load_config}
use opentitan_provisioning.Spm.SkuConfig.{Auth, SkuAuth}
use opentitan_provisioning.Spm.Hsm.{new_hsm}
use opentitan_provisioning.Spm.Hsm.Opened.{AllBound, new_hsm-ready}
use opentitan_provisioning.Spm.Messages.{InitSessionRequest}
use opentitan_provisioning.Spm.Server.{World, Server, Deps, SkuState}
use opentitan_provisioning.Spm.Server.Frame.{WellFormed}
use opentitan_provisioning.Spm.Server.Sessions.{
  find_sku_auth, generate_session_token, file_password, env_password, load_certs, hsm_config,
  new_sku, add_sku, initialize_sku, check_auth,
}

-- The entry of a SKU is ready for requests: every session of its HSM is in the queue, at least one,
-- and every key of its configuration has an identifier.
pub record IsReady (sku : SkuState) : Type 0 where
  pub some_session : 0 < sku.config.num_sessions
  pub limit : sku.sessions.num_sessions ≡ sku.config.num_sessions
  pub full : length sku.sessions.s ≡ sku.config.num_sessions
  pub symmetric :
      AllBound sku.se_handle.symmetric_keys (map (λ key. key.name) sku.config.symmetric_keys)
  pub private : AllBound sku.se_handle.private_keys (map (λ key. key.name) sku.config.private_keys)
  pub public : AllBound sku.se_handle.public_keys (map (λ key. key.name) sku.config.public_keys)

sku_eq : (a b : SkuState) → ok a ≡ ok b → a ≡ b
sku_eq a b h = cc

module _ {H : Type 0} (deps : Deps H) where
  new_sku-IsReady :
      (s : Server) (sku_name : String) (sku : SkuState) (h t : H)
      → new_sku deps s sku_name h ≡ (ok sku, t)
      → IsReady sku
  unfolding new_sku
  new_sku-IsReady s sku_name sku h t e =
      let loaded =
        load_config deps.os deps.unmarshal_config s.config_dir
          (concat "sku_" (concat sku_name ".yml")) h in
      let (cfg, _, e1) = continue-eq-ok (or_else loaded.0 _) _ _ e in
      let filed = file_password deps s.hsm_password_file loaded.1 in
      let (file, _, e2) = continue-eq-ok filed.0 _ _ e1 in
      let chosen = env_password deps file filed.1 in
      let (password, _, e3) = continue-eq-ok chosen.0 _ _ e2 in
      let opened =
        new_hsm deps.ctx deps.fuel (hsm_config deps s.hsm_so_lib_path cfg password) chosen.1 in
      let (hsm, made, e4) = continue-eq-ok (or_else opened.0 _) _ _ e3 in
      let (certs, _, e5) =
        continue-eq-ok (load_certs deps s.config_dir cfg.certs [] opened.1).0 _ _ e4 in
      let (some_session, limit, full, symmetric, private, public) =
        new_hsm-ready deps.ctx deps.fuel (hsm_config deps s.hsm_so_lib_path cfg password) hsm.0
          hsm.1 chosen.1 opened.1 (λ i. (or_else-eq-ok _ _ made i, opened.1)) in
      subst IsReady (sku_eq _ _ (ap (λ p. p.0) e5)) (record {
        some_session = some_session;
        limit = limit;
        full = full;
        symmetric = symmetric;
        private = private;
        public = public;
      })

  -- initializeSKU on a SKU that is in the table does nothing. On another SKU it either fails, and
  -- then the server is as before, or it adds an entry that is ready for requests, under that name
  -- alone.
  pub initialize_sku-cases :
      (sku_name : String) (w : World H)
      → ((sku : SkuState)
          → lookup sku_name w.server.skus ≡ some sku
          → initialize_sku deps sku_name w ≡ (ok tt, w))
        × (lookup sku_name w.server.skus ≡ none
            → (((e : Error) × ((initialize_sku deps sku_name w).0 ≡ err e))
                × ((initialize_sku deps sku_name w).1.server ≡ w.server))
              ⊎ ((sku : SkuState) × IsReady sku
                  × ((initialize_sku deps sku_name w).0 ≡ ok tt)
                  × ((initialize_sku deps sku_name w).1.server
                      ≡ record w.server { skus = insert sku_name sku w.server.skus })))
  unfolding initialize_sku add_sku
  initialize_sku-cases sku_name w = (
    λ sku found. rw (found, initialize_sku) refl,
    λ missing. elim (Result-cases (new_sku deps w.server sku_name w.outside).0) [
      | inl (sku, made) ↦ inr (
        sku,
        new_sku-IsReady w.server sku_name sku w.outside (new_sku deps w.server sku_name w.outside).1
            (λ i. (made i, (new_sku deps w.server sku_name w.outside).1)),
        ground (arith, made, missing),
        ground (arith, made, missing),
      )
      | inr (e, failed) ↦
          inl ((e, ground (arith, failed, missing)), ground (arith, failed, missing))
    ],
  )

  pub same_server : (w w' : World H) → w'.server ≡ w.server → WellFormed w → WellFormed w'
  same_server w w' e wf = record {
    room = λ name sku found. wf.room name sku (subst (λ s. lookup name s.skus ≡ some sku) e found);
  }

  more_skus :
      (w w' : World H) (sku_name : String) (sku : SkuState)
      → w'.server ≡ record w.server { skus = insert sku_name sku w.server.skus }
      → IsReady sku
      → WellFormed w
      → WellFormed w'
  more_skus w w' sku_name sku e ready wf = record {
    room = λ name entry found.
        let there : lookup name (insert sku_name sku w.server.skus) ≡ some entry =
          subst (λ s. lookup name s.skus ≡ some entry) e found in
        elim (Bool-cases (sku_name == name)) [
          | inl same ↦
              let new : sku ≡ entry =
                ground (arith, lookup-insert sku_name name sku w.server.skus) in
              subst (λ x. length x.sessions.s ≤ x.sessions.num_sessions) new
                (omega (arith, ready.limit, ready.full))
          | inr other ↦
              wf.room name entry (ground (arith, lookup-insert sku_name name sku w.server.skus))
        ];
  }

  -- The table grows by ready entries alone.
  pub initialize_sku-WellFormed :
      (sku_name : String) (w : World H)
      → WellFormed w
      → WellFormed (initialize_sku deps sku_name w).1
  initialize_sku-WellFormed sku_name w wf = elim (Option-cases (lookup sku_name w.server.skus)) [
    | inr (sku, found) ↦
        subst WellFormed (sym (ap (λ p. p.1) ((initialize_sku-cases sku_name w).0 sku found))) wf
    | inl missing ↦ elim ((initialize_sku-cases sku_name w).1 missing) [
      | inl (_, same) ↦ same_server w _ same wf
      | inr (sku, ready, _, added) ↦ more_skus w _ sku_name sku added ready wf
    ]
  ]

  pub generate_session_token-server :
      (n : ℕ) (w : World H) → (generate_session_token deps n w).1.server ≡ w.server
  unfolding generate_session_token
  generate_session_token-server n w = ground arith

  pub check_auth-eq-ok :
      (cfg : Option Auth) (order : List String) (request : InitSessionRequest) (auth : SkuAuth)
      → check_auth deps cfg order request ≡ ok auth
      → (auth_cfg : Auth) × (cfg ≡ some auth_cfg)
        × (find_sku_auth auth_cfg order request.sku ≡ some auth)
        × (deps.compare (bytes_of auth.sku_auth) (bytes_of request.sku_auth) ≡ ok tt)
  unfolding check_auth compare_hash_and_password
  check_auth-eq-ok none order request auth h = cc
  check_auth-eq-ok (some auth_cfg) order request auth h =
      elim (Option-cases (find_sku_auth auth_cfg order request.sku)) [
        | inl none_ ↦ absurd (ground arith)
        | inr (a, e) ↦
            elim (Result-cases (deps.compare (bytes_of a.sku_auth) (bytes_of request.sku_auth))) [
              | inl (u, same) ↦
                  let chosen : a ≡ auth = ground arith in
                  (
                    auth_cfg,
                    refl,
                    e ∙ ap some chosen,
                    subst
                        (λ x.
                          deps.compare (bytes_of x.sku_auth) (bytes_of request.sku_auth) ≡ ok tt)
                        chosen same,
                  )
              | inr (x, differ) ↦ absurd (ground arith)
            ]
      ]
