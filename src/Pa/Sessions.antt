-- ===== src/Pa/Sessions.antt =====
-- Sessions of the provisioning appliance: what InitSession and CloseSession of src/pa/services/pa.go
-- mean for the requests that follow, which src/transport/auth_service/auth_interceptor.go checks.
use opentitan_provisioning.Base.{
  ◌≡◌, ◌↔◌, ◌⊎◌, inl, inr, Error, Result-cases, or_else-eq-ok, sym, ap, ◌∙◌, arith, String,
  String_eq, false, List, ◌∷◌, some, ok, err, status, internal, or_else,
}
use opentitan_provisioning.Base.Exec.{continue-eq-ok}
use opentitan_provisioning.Base.Dict.{lookup}
use opentitan_provisioning.Auth.Controller.{AuthController, get_instance, add_user, remove_user}
use opentitan_provisioning.Auth.Interceptor.{
  Context, Metadata, AuthInterceptor, metadata_from_incoming_context, get_user_id, authorize,
  any_suffix,
}
use opentitan_provisioning.Auth.Authorized.{EndsWithOneOf, get_instance-eq-ok, metadata-eq-ok}
use opentitan_provisioning.Auth.Users.{add_user-lookup}
use opentitan_provisioning.Auth.Renewed.{with_session, authorize-add_user, authorize-remove_user}
use opentitan_provisioning.Spm.Messages.{InitSessionRequest, InitSessionResponse}
use opentitan_provisioning.Pa.{SpmClient, Appliance, init_session, close_session}

md_eq : {a b : Metadata} → some a ≡ some b → a ≡ b
md_eq h = cc

user_eq : {a b : String} → ok a ≡ ok b → a ≡ b
user_eq h = cc

response_fields :
    (a b : InitSessionResponse) (endpoint : String)
    → ok (record a { pa_endpoint = endpoint }) ≡ ok b
    → (b.sku_session_token ≡ a.sku_session_token) × (b.auth_methods ≡ a.auth_methods)
response_fields a b endpoint h = (ground arith, ground arith)

module _ {S : Type 0} (spm : SpmClient S) where
  -- The controller after InitSession is the one before with the new session of the caller.
  pub init_session-with_session :
      (ctx : Context) (request : InitSessionRequest) (p p' : Appliance S) (r : InitSessionResponse)
      → init_session spm ctx request p ≡ (ok r, p')
      → (c : AuthController) × (md : Metadata) × (user_id : String) × (p.instance_ ≡ some c)
        × (ctx.metadata ≡ some md)
        × (get_user_id ctx md ≡ ok user_id)
        × (p'.instance_ ≡ with_session c user_id r.sku_session_token request.sku r.auth_methods)
  unfolding init_session
  init_session-with_session ctx request p p' r e =
      let opened = spm.init_session request p.outside in
      let (r0, _, e1) = continue-eq-ok (or_else opened.0 _) _ _ e in
      let (c, running, e2) = continue-eq-ok (get_instance p.instance_) _ _ e1 in
      let (md, sent, e3) = continue-eq-ok (metadata_from_incoming_context ctx) _ _ e2 in
      let (user_id, identified, e4) = continue-eq-ok (get_user_id ctx md) _ _ e3 in
      let (user, _, e5) =
        continue-eq-ok
          (or_else
            (add_user user_id r0.sku_session_token request.sku r0.auth_methods c.user_store).0 _)
          _ _ e4 in
      let (same_token, same_methods) = response_fields r0 r _ (ap (λ x. x.0) e5) in
      (
        c,
        md,
        user_id,
        get_instance-eq-ok p.instance_ running,
        metadata-eq-ok ctx sent,
        identified,
        sym (ap (λ x. x.1.instance_) e5)
            ∙ ap (λ t. with_session c user_id t request.sku r0.auth_methods) (sym same_token)
            ∙ ap (λ m. with_session c user_id r.sku_session_token request.sku m) (sym same_methods),
      )

  -- After a successful InitSession of a caller, a request that identifies itself as that caller,
  -- for a method that is not excluded, is let through exactly when it shows the token of the
  -- response and its method is one of the response's; any other token, such as that of an earlier
  -- session, is refused.
  pub init_session-authorize :
      (ctx : Context) (request : InitSessionRequest) (p p' : Appliance S) (r : InitSessionResponse)
      (interceptor : AuthInterceptor) (ctx' : Context) (md md' : Metadata)
      (user_id shown method : String) (others : List String)
      → init_session spm ctx request p ≡ (ok r, p')
      → ctx.metadata ≡ some md
      → get_user_id ctx md ≡ ok user_id
      → ctx'.metadata ≡ some md'
      → get_user_id ctx' md' ≡ ok user_id
      → lookup "authorization" md' ≡ some (shown ∷ others)
      → any_suffix method interceptor.exclude_methods ≡ false
      → (authorize interceptor p'.instance_ ctx' method ≡ ok tt)
        ↔ ((shown ≡ r.sku_session_token) × EndsWithOneOf method r.auth_methods)
  init_session-authorize ctx request p p' r interceptor ctx' md md' user_id shown method others e
        has_md caller sent identified presented included =
      let (c, md0, user0, _, sent0, identified0, now) =
        init_session-with_session ctx request p p' r e in
      let same_md : md0 ≡ md = md_eq (sym sent0 ∙ has_md) in
      let same_user : user0 ≡ user_id =
        user_eq (sym identified0 ∙ ap (λ m. get_user_id ctx m) same_md ∙ caller) in
      rw (now, same_user)
        (authorize-add_user interceptor c ctx' md' user_id r.sku_session_token request.sku method
          shown r.auth_methods others sent identified presented included)

  -- After a successful CloseSession of a caller, a request that identifies itself as that caller is
  -- refused with the status of an unknown user, unless its method is excluded.
  pub close_session-authorize :
      (ctx : Context) (p p' : Appliance S) (interceptor : AuthInterceptor) (ctx' : Context)
      (md md' : Metadata) (user_id method : String)
      → close_session spm ctx p ≡ (ok tt, p')
      → ctx.metadata ≡ some md
      → get_user_id ctx md ≡ ok user_id
      → ctx'.metadata ≡ some md'
      → get_user_id ctx' md' ≡ ok user_id
      → any_suffix method interceptor.exclude_methods ≡ false
      → authorize interceptor p'.instance_ ctx' method ≡ err (status internal "user not found")
  unfolding close_session
  close_session-authorize ctx p p' interceptor ctx' md md' user_id method e has_md caller sent
        identified included =
      let (c, running, e1) = continue-eq-ok (get_instance p.instance_) _ _ e in
      let (md0, sent0, e2) = continue-eq-ok (metadata_from_incoming_context ctx) _ _ e1 in
      let (user0, identified0, e3) = continue-eq-ok (get_user_id ctx md0) _ _ e2 in
      let (user, _, e4) = continue-eq-ok (or_else (remove_user user0 c.user_store).0 _) _ _ e3 in
      let same_md : md0 ≡ md = md_eq (sym (metadata-eq-ok ctx sent0) ∙ has_md) in
      let same_user : user0 ≡ user_id =
        user_eq (sym identified0 ∙ ap (λ m. get_user_id ctx m) same_md ∙ caller) in
      let now : p'.instance_
          ≡ some (record c { user_store = (remove_user user_id c.user_store).1 }) =
        rw (← same_user) (sym (ap (λ x. x.1.instance_) e4)) in
      rw now (authorize-remove_user interceptor c ctx' md' user_id method sent identified included)

  -- The response of InitSession is that of the SPM but for the endpoint.
  pub init_session-opened :
      (ctx : Context) (request : InitSessionRequest) (p p' : Appliance S) (r : InitSessionResponse)
      → init_session spm ctx request p ≡ (ok r, p')
      → (r0 : InitSessionResponse) × (spm.init_session request p.outside ≡ (ok r0, p'.outside))
        × (r.sku_session_token ≡ r0.sku_session_token)
        × (r.auth_methods ≡ r0.auth_methods)
  unfolding init_session
  init_session-opened ctx request p p' r e =
      let opened = spm.init_session request p.outside in
      let (r0, answered, e1) = continue-eq-ok (or_else opened.0 _) _ _ e in
      let (c, _, e2) = continue-eq-ok (get_instance p.instance_) _ _ e1 in
      let (md, _, e3) = continue-eq-ok (metadata_from_incoming_context ctx) _ _ e2 in
      let (user_id, _, e4) = continue-eq-ok (get_user_id ctx md) _ _ e3 in
      let (user, _, e5) =
        continue-eq-ok
          (or_else
            (add_user user_id r0.sku_session_token request.sku r0.auth_methods c.user_store).0 _)
          _ _ e4 in
      let (same_token, same_methods) = response_fields r0 r _ (ap (λ x. x.0) e5) in
      (
        r0,
        (λ i. (or_else-eq-ok opened.0 _ answered i, (ap (λ x. x.1.outside) e5) i)),
        same_token,
        same_methods,
      )

  -- An InitSession that fails leaves the users as they were; what it did at the SPM stays.
  pub init_session-failed :
      (ctx : Context) (request : InitSessionRequest) (p p' : Appliance S) (x : Error)
      → init_session spm ctx request p ≡ (err x, p')
      → (p'.instance_ ≡ p.instance_) × (p'.outside ≡ (spm.init_session request p.outside).1)
  unfolding init_session
  init_session-failed ctx request p p' x e =
      elim (Result-cases (spm.init_session request p.outside).0) [
        | inr (_, refused) ↦ (ground (arith, refused, e), ground (arith, refused, e))
        | inl (r, opened) ↦ elim (Result-cases (get_instance p.instance_)) [
          | inr (_, stopped) ↦
              (ground (arith, opened, stopped, e), ground (arith, opened, stopped, e))
          | inl (c, running) ↦ elim (Result-cases (metadata_from_incoming_context ctx)) [
            | inr (_, bare) ↦
                (ground (arith, opened, running, bare, e), ground (arith, opened, running, bare, e))
            | inl (md, sent) ↦ elim (Result-cases (get_user_id ctx md)) [
              | inr (_, nobody) ↦ (
                ground (arith, opened, running, sent, nobody, e),
                ground (arith, opened, running, sent, nobody, e),
              )
              | inl (user_id, known) ↦
                  let added =
                    (add_user-lookup user_id r.sku_session_token request.sku r.auth_methods
                      c.user_store).0 in
                  absurd (ground (arith, opened, running, sent, known, added, e))
            ]
          ]
        ]
      ]

  -- CloseSession removes the caller, or leaves the users as they were; it does nothing at the SPM.
  pub close_session-users :
      (ctx : Context) (p : Appliance S)
      → ((close_session spm ctx p).1.outside ≡ p.outside)
        × (((close_session spm ctx p).1.instance_ ≡ p.instance_)
            ⊎ ((c : AuthController) × (user_id : String) × (p.instance_ ≡ some c)
                × ((close_session spm ctx p).1.instance_
                    ≡ some (record c { user_store = (remove_user user_id c.user_store).1 }))))
  unfolding close_session
  close_session-users ctx p = elim (Result-cases (get_instance p.instance_)) [
    | inr (_, stopped) ↦ (ground (arith, stopped), inl (ground (arith, stopped)))
    | inl (c, running) ↦ elim (Result-cases (metadata_from_incoming_context ctx)) [
      | inr (_, bare) ↦ (ground (arith, running, bare), inl (ground (arith, running, bare)))
      | inl (md, sent) ↦ elim (Result-cases (get_user_id ctx md)) [
        | inr (_, nobody) ↦
            (ground (arith, running, sent, nobody), inl (ground (arith, running, sent, nobody)))
        | inl (user_id, known) ↦ elim (Result-cases (remove_user user_id c.user_store).0) [
          | inl (u, done) ↦ (
            ground (arith, running, sent, known, done),
            inr (
              c,
              user_id,
              get_instance-eq-ok p.instance_ running,
              ground (arith, running, sent, known, done),
            ),
          )
          | inr (x, failed) ↦ (
            ground (arith, running, sent, known, failed),
            inr (
              c,
              user_id,
              get_instance-eq-ok p.instance_ running,
              ground (arith, running, sent, known, failed),
            ),
          )
        ]
      ]
    ]
  ]
