-- ===== src/System/Issued.antt =====
-- Where the sessions of the appliance come from.
use opentitan_provisioning.Base.{
  ◌≡◌, inl, inr, refl, sym, ap, subst, ◌∙◌, arith, String, String_eq, ◌==◌, eq_iff, Result, List,
  some, ok, Option-cases, Bool-cases,
}
use opentitan_provisioning.Base.Exec.{Keeps}
use opentitan_provisioning.Base.Dict.{lookup}
use opentitan_provisioning.Base.Text.{bytes_of}
use opentitan_provisioning.Auth.{User, new_user_object}
use opentitan_provisioning.Auth.Controller.{AuthController, Instance, remove_user}
use opentitan_provisioning.Auth.Users.{add_user-lookup, remove_user-lookup}
use opentitan_provisioning.Auth.Renewed.{with_session}
use opentitan_provisioning.Auth.Interceptor.{Context, Metadata, get_user_id}
use opentitan_provisioning.Spm.SkuConfig.{Auth, SkuAuth}
use opentitan_provisioning.Spm.Messages.{InitSessionRequest, InitSessionResponse}
use opentitan_provisioning.Spm.Server.{World, Deps}
use opentitan_provisioning.Spm.Server.Sessions.{init_session, find_sku_auth, initialize_sku}
use opentitan_provisioning.Spm.Server.Sessions.Initialized.{initialize_sku-cases}
use opentitan_provisioning.Spm.Server.Sessions.Opened.{init_session-Keeps, init_session-authorized}
use opentitan_provisioning.Pa.{Appliance, PbClient}
use opentitan_provisioning.Pa.Server.{Serving, served_init_session}
use opentitan_provisioning.System.{spm_client, Step, session_opened, Reachable, then_}
use opentitan_provisioning.Proto.{Bytes, DeviceData}
use opentitan_provisioning.Grpconn.{Resolver}

of_some : {A : Type 0} {a b : A} → some a ≡ some b → a ≡ b
of_some h = cc

-- The users of a controller, with the names under which they are stored, all have the property.
abbrev pub EachUser : (String → User → Type 0) → Instance → Type 0
EachUser Q instance_ =
    (c : AuthController) (k : String) (user : User)
    → instance_ ≡ some c
    → lookup k c.user_store.users ≡ some user
    → Q k user

module _ (Q : String → User → Type 0) where
  pub with_session-EachUser :
      (c : AuthController) (user_id token sku : String) (methods : List String)
      → EachUser Q (some c)
      → Q user_id (new_user_object user_id token sku methods)
      → EachUser Q (with_session c user_id token sku methods)
  with_session-EachUser c user_id token sku methods old new c' k user now stored =
      let added = (add_user-lookup user_id token sku methods c.user_store).1 k in
      let there = ap (λ x. lookup k x.user_store.users) (of_some now) ∙ stored in
      elim (Bool-cases (user_id == k)) [
        | inl same ↦
            let it : new_user_object user_id token sku methods ≡ user =
              of_some (ground (arith, added, there, same)) in
            subst (λ u. Q k u) it
              (subst (λ j. Q j (new_user_object user_id token sku methods))
                ((eq_iff user_id k).0 same) new)
        | inr other ↦ old c k user refl (ground (arith, added, there, other))
      ]

  pub removed-EachUser :
      (c : AuthController) (user_id : String)
      → EachUser Q (some c)
      → EachUser Q (some (record c { user_store = (remove_user user_id c.user_store).1 }))
  removed-EachUser c user_id old c' k user now stored =
      let removed = remove_user-lookup user_id c.user_store k in
      let there = ap (λ x. lookup k x.user_store.users) (of_some now) ∙ stored in
      elim (Bool-cases (user_id == k)) [
        | inl same ↦ absurd (ground (arith, removed, there, same))
        | inr other ↦ old c k user refl (ground (arith, removed, there, other))
      ]

module _ {H : Type 0} (deps : Deps H) (auth_cfg : Auth) where
  abbrev pub Configured : World H → Type 0
  Configured w = w.server.auth_cfg ≡ some auth_cfg

  initialize_sku-Configured : (name : String) → Keeps Configured (initialize_sku deps name)
  initialize_sku-Configured name = record {
    at = λ w h. elim (Option-cases (lookup name w.server.skus)) [
      | inr (sku, found) ↦
          subst Configured (sym (ap (λ p. p.1) ((initialize_sku-cases deps name w).0 sku found))) h
      | inl missing ↦ elim ((initialize_sku-cases deps name w).1 missing) [
        | inl (_, same) ↦ ap (λ s. s.auth_cfg) same ∙ h
        | inr (_, _, _, added) ↦ ap (λ s. s.auth_cfg) added ∙ h
      ]
    ];
  }

  pub init_session-Configured :
      (order : List String) (request : InitSessionRequest)
      → Keeps Configured (init_session deps order request)
  init_session-Configured order request =
      init_session-Keeps deps Configured (λ w w' e h. ap (λ s. s.auth_cfg) e ∙ h)
        initialize_sku-Configured order request

  -- The SPM answers an InitSession after it has compared the password with that of the SKU's
  -- authorization, whose methods it returns.
  pub record IsGranted (order : List String) (request : InitSessionRequest) (before after : World H)
      (response : InitSessionResponse) : Type 0 where
    pub auth : SkuAuth
    pub answered : init_session deps order request before ≡ (ok response, after)
    pub found : find_sku_auth auth_cfg order request.sku ≡ some auth
    pub matches : deps.compare (bytes_of auth.sku_auth) (bytes_of request.sku_auth) ≡ ok tt
    pub methods : response.auth_methods ≡ auth.methods

  pub init_session-IsGranted :
      (order : List String) (request : InitSessionRequest) (w w' : World H)
      (response : InitSessionResponse)
      → Configured w
      → init_session deps order request w ≡ (ok response, w')
      → IsGranted order request w w' response
  init_session-IsGranted order request w w' response configured e =
      let (cfg, auth, _, loaded, found, matches, methods, _) =
        init_session-authorized deps order request w w' response e in
      let same : cfg ≡ auth_cfg = ground (arith, loaded, configured) in
      record {
        auth = auth;
        answered = e;
        found = subst (λ x. find_sku_auth x order request.sku ≡ some auth) same found;
        matches = matches;
        methods = methods;
      }

  module _ (serving : Serving) (lookup_addr : Resolver) (marshal : DeviceData → Result Bytes)
      (pb_client : PbClient H) where
    -- A call of InitSession, in the state `q`, that opened a session for the user stored under `k`:
    -- the caller identified itself by that name, the appliance answered, and the user has the SKU of
    -- the request, and the token and the methods that the SPM granted.
    pub record IsSession (q : Appliance (World H)) (order : List String) (ctx : Context)
        (request : InitSessionRequest) (k : String) (user : User) : Type 0 where
      pub md : Metadata
      pub answer : InitSessionResponse
      pub response : InitSessionResponse
      pub after : World H
      pub sent : ctx.metadata ≡ some md
      pub caller : get_user_id ctx md ≡ ok k
      pub answered :
          (served_init_session serving lookup_addr (spm_client deps order) ctx request q).0
          ≡ ok answer
      pub granted : IsGranted order request q.outside after response
      pub same_token : user.session_token ≡ response.sku_session_token
      pub same_methods : user.auth_methods ≡ response.auth_methods
      pub same_sku : user.sku ≡ request.sku

    -- The run has a step that opened a session for the user.
    pub data IsOpened (k : String) (user : User)
        : (p : Appliance (World H))
          → Reachable deps serving lookup_addr marshal pb_client auth_cfg p
          → Type 0 where
      here :
          {q : Appliance (World H)}
          (run : Reachable deps serving lookup_addr marshal pb_client auth_cfg q)
          (order : List String) (ctx : Context) (request : InitSessionRequest)
          → IsSession q order ctx request k user
          → IsOpened k user _ (then_ run (session_opened order ctx request))
      earlier :
          {q p : Appliance (World H)}
          (run : Reachable deps serving lookup_addr marshal pb_client auth_cfg q)
          (step : Step deps serving lookup_addr marshal pb_client q p)
          → IsOpened k user q run
          → IsOpened k user p (then_ run step)
