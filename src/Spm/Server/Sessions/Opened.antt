-- ===== src/Spm/Server/Sessions/Opened.antt =====
-- InitSession of src/spm/services/spm.go, as a whole.
use opentitan_provisioning.Base.{
  ◌≡◌, inl, inr, refl, sym, ap, subst, ◌∙◌, arith, String, String_eq, eq_iff, List, some,
  Option-cases, ok, err, Error, errorf, status, internal, or_else, or_else-eq-ok,
}
use opentitan_provisioning.Base.Exec.{
  lift, continue-eq-ok, Keeps, pure-Keeps, lift-Keeps, or_raise-Keeps, >>=-Keeps,
}
use opentitan_provisioning.Base.Dict.{lookup, lookup-insert, lookup-insert_self}
use opentitan_provisioning.Base.Text.{bytes_of}
use opentitan_provisioning.Spm.SkuConfig.{Auth, SkuAuth}
use opentitan_provisioning.Spm.Messages.{InitSessionRequest, InitSessionResponse}
use opentitan_provisioning.Spm.Server.{World, Deps, SkuState}
use opentitan_provisioning.Spm.Server.Frame.{WellFormed}
use opentitan_provisioning.Spm.Server.Sessions.{
  token_size, find_sku_auth, generate_session_token, initialize_sku, init_sku, check_auth,
  init_session,
}
use opentitan_provisioning.Spm.Server.Sessions.Initialized.{
  initialize_sku-cases, initialize_sku-WellFormed, generate_session_token-server, check_auth-eq-ok,
  same_server,
}

module _ {H : Type 0} (deps : Deps H) where
  -- What only the server decides, and initializing a SKU keeps, InitSession keeps.
  pub init_session-Keeps :
      (P : World H → Type 0)
      → ((w w' : World H) → w'.server ≡ w.server → P w → P w')
      → ((name : String) → Keeps P (initialize_sku deps name))
      → (order : List String) (request : InitSessionRequest)
      → Keeps P (init_session deps order request)
  unfolding init_session init_sku
  init_session-Keeps P server_only init_keeps order request = record {
    at = λ w p.
        (>>=-Keeps P (lift (check_auth deps w.server.auth_cfg order request)) _
            (lift-Keeps P (check_auth deps w.server.auth_cfg order request))
            (λ auth.
              >>=-Keeps P _ _
                (or_raise-Keeps P (init_sku deps request.sku)
                  (status internal "failed to initialize sku: %v")
                  (>>=-Keeps P _ _
                    (or_raise-Keeps P (generate_session_token deps token_size)
                      (errorf "failed to generate session token")
                      (record {
                        at = λ x q.
                            server_only x _ (generate_session_token-server deps token_size x) q;
                      }))
                    (λ token.
                      >>=-Keeps P _ _
                        (or_raise-Keeps P (initialize_sku deps request.sku)
                          (errorf "failed to initialize sku") (init_keeps request.sku))
                        (λ _. pure-Keeps P token))))
                (λ token. pure-Keeps P (record {
                  sku_session_token = token;
                  pa_endpoint = "";
                  auth_methods = auth.methods;
                })))).at
          w p;
  }

  initialize_sku-kept :
      (k : String) (entry : SkuState) (name : String) (w : World H)
      → lookup k w.server.skus ≡ some entry
      → lookup k (initialize_sku deps name w).1.server.skus ≡ some entry
  initialize_sku-kept k entry name w stored = elim (Option-cases (lookup name w.server.skus)) [
    | inr (sku, found) ↦
        subst (λ x. lookup k x.server.skus ≡ some entry)
          (sym (ap (λ p. p.1) ((initialize_sku-cases deps name w).0 sku found))) stored
    | inl missing ↦ elim ((initialize_sku-cases deps name w).1 missing) [
      | inl (_, same) ↦ subst (λ s. lookup k s.skus ≡ some entry) (sym same) stored
      | inr (sku, ready, _, added) ↦
          subst (λ s. lookup k s.skus ≡ some entry) (sym added)
            (ground (arith, lookup-insert name k sku w.server.skus, eq_iff name k))
    ]
  ]

  -- InitSession keeps every SKU's queue within its limit and leaves every entry that is in the table
  -- as it is, whether the call succeeds or fails: an HSM that is in use is never replaced.
  pub init_session-keeps :
      (order : List String) (request : InitSessionRequest) (w : World H)
      → WellFormed w
      → WellFormed (init_session deps order request w).1
        × ((k : String) (entry : SkuState)
            → lookup k w.server.skus ≡ some entry
            → lookup k (init_session deps order request w).1.server.skus ≡ some entry)
  init_session-keeps order request w wf = (
    (init_session-Keeps WellFormed (same_server deps)
          (λ name. record { at = λ x. initialize_sku-WellFormed deps name x }) order request).at
        w wf,
    λ k entry stored.
        (init_session-Keeps (λ x. lookup k x.server.skus ≡ some entry)
            (λ a b e p. subst (λ s. lookup k s.skus ≡ some entry) (sym e) p)
            (λ name. record { at = λ x p. initialize_sku-kept k entry name x p }) order request).at
          w stored,
  )

  initialize_sku-present :
      (name : String) (w : World H)
      → (initialize_sku deps name w).0 ≡ ok tt
      → (sku : SkuState) × (lookup name (initialize_sku deps name w).1.server.skus ≡ some sku)
  initialize_sku-present name w done = elim (Option-cases (lookup name w.server.skus)) [
    | inr (sku, found) ↦ (sku, initialize_sku-kept name sku name w found)
    | inl missing ↦ elim ((initialize_sku-cases deps name w).1 missing) [
      | inl ((e, failed), _) ↦ absurd (cc (sym done ∙ failed))
      | inr (sku, ready, _, added) ↦ (
        sku,
        subst (λ s. lookup name s.skus ≡ some sku) (sym added)
            (lookup-insert_self name sku w.server.skus),
      )
    ]
  ]

  init_sku-present :
      (name token : String) (w w' : World H)
      → init_sku deps name w ≡ (ok token, w')
      → (sku : SkuState) × (lookup name w'.server.skus ≡ some sku)
  unfolding init_sku
  init_sku-present name token w w' e =
      let made = generate_session_token deps token_size w in
      let (_, _, e1) = continue-eq-ok (or_else made.0 _) _ _ e in
      let started = initialize_sku deps name made.1 in
      let (_, done, e2) = continue-eq-ok (or_else started.0 _) _ _ e1 in
      let (sku, stored) = initialize_sku-present name made.1 (or_else-eq-ok started.0 _ done) in
      (sku, subst (λ x. lookup name x.server.skus ≡ some sku) (ap (λ p. p.1) e2) stored)

  methods_eq : (a b : InitSessionResponse) → ok a ≡ ok b → b.auth_methods ≡ a.auth_methods
  methods_eq a b h = ground arith

  -- A session is opened only where the SKU's authorization is found and the password that the
  -- request shows matches its hash; the response then has the methods of that authorization, and the
  -- SKU is in the table.
  pub init_session-authorized :
      (order : List String) (request : InitSessionRequest) (w w' : World H)
      (response : InitSessionResponse)
      → init_session deps order request w ≡ (ok response, w')
      → (auth_cfg : Auth) × (auth : SkuAuth) × (sku : SkuState) × (w.server.auth_cfg
          ≡ some auth_cfg)
        × (find_sku_auth auth_cfg order request.sku ≡ some auth)
        × (deps.compare (bytes_of auth.sku_auth) (bytes_of request.sku_auth) ≡ ok tt)
        × (response.auth_methods ≡ auth.methods)
        × (lookup request.sku w'.server.skus ≡ some sku)
  unfolding init_session
  init_session-authorized order request w w' response e =
      let (auth, checked, e1) =
        continue-eq-ok (check_auth deps w.server.auth_cfg order request) _ _ e in
      let (auth_cfg, configured, found, matches) =
        check_auth-eq-ok deps w.server.auth_cfg order request auth checked in
      let started = init_sku deps request.sku w in
      let (token, made, e2) = continue-eq-ok (or_else started.0 _) _ _ e1 in
      let (sku, stored) =
        init_sku-present request.sku token w started.1
          (λ i. (or_else-eq-ok started.0 _ made i, started.1)) in
      (
        auth_cfg,
        auth,
        sku,
        configured,
        found,
        matches,
        methods_eq _ _ (ap (λ p. p.0) e2),
        subst (λ x. lookup request.sku x.server.skus ≡ some sku) (ap (λ p. p.1) e2) stored,
      )

  -- A request that the check of its authorization refuses fails with the error of the check and
  -- changes nothing.
  pub init_session-refused :
      (order : List String) (request : InitSessionRequest) (w : World H) (e : Error)
      → check_auth deps w.server.auth_cfg order request ≡ err e
      → init_session deps order request w ≡ (err e, w)
  unfolding init_session
  init_session-refused order request w e refused = rw (refused, init_session) refl
