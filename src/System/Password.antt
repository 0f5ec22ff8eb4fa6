-- ===== src/System/Password.antt =====
-- What the calls of the appliance keep: the SPM's authorizations, and a property of all users.
use opentitan_provisioning.Base.{
  ◌≡◌, inl, inr, refl, some, sym, ap, subst, arith, String, String_eq, List, ok, Result-cases,
  Option-cases,
}
use opentitan_provisioning.Base.Exec.{Exec, Keeps}
use opentitan_provisioning.Base.Dict.{lookup}
use opentitan_provisioning.Auth.{User, new_user_object}
use opentitan_provisioning.Auth.Interceptor.{Context, Metadata, get_user_id}
use opentitan_provisioning.Spm.SkuConfig.{Auth}
use opentitan_provisioning.Spm.Messages.{InitSessionRequest, InitSessionResponse}
use opentitan_provisioning.Spm.Server.{World, Deps, with_sku, SkuState}
use opentitan_provisioning.Spm.SessionQueue.{SessionQueue}
use opentitan_provisioning.Pa
use opentitan_provisioning.Pa.{SpmClient, PbClient, Appliance}
use opentitan_provisioning.Pa.Sessions.{
  init_session-with_session, init_session-opened, init_session-failed, close_session-users,
}
use opentitan_provisioning.System.{spm_client}
use opentitan_provisioning.System.Issued.{
  Configured, EachUser, init_session-Configured, IsGranted, init_session-IsGranted,
  with_session-EachUser, removed-EachUser,
}

module _ {H : Type 0} (deps : Deps H) (auth_cfg : Auth) where
  pub with_sku-Configured :
      {A : Type 0} (name : String) (f : SkuState → Exec (H × SessionQueue) A)
      → Keeps (Configured deps auth_cfg) (with_sku name f)
  unfolding with_sku
  with_sku-Configured name f = record {
    at = λ w h. elim (Option-cases (lookup name w.server.skus)) [
      | inl missing ↦ ground (arith, missing, h)
      | inr (sku, found) ↦ ground (arith, found, h)
    ];
  }

  -- The SPM has its authorizations, and every user has the property.
  pub record Holds (Q : String → User → Type 0) (p : Appliance (World H)) : Type 0 where
    pub configured : Configured deps auth_cfg p.outside
    pub users : EachUser Q p.instance_

  pub on_outside-Holds :
      (Q : String → User → Type 0) {A : Type 0} (m : Exec (World H) A)
      → Keeps (Configured deps auth_cfg) m
      → Keeps (Holds Q) (Pa.on_outside m)
  on_outside-Holds Q m k = record {
    at = λ p a. record { configured = k.at p.outside a.configured; users = a.users };
  }

  -- What a handler InitSession that succeeds has found out, for the user that it stores.
  pub record IsAdded (order : List String) (ctx : Context) (request : InitSessionRequest)
      (p : Appliance (World H)) (user_id : String) (user : User) : Type 0 where
    pub md : Metadata
    pub answer : InitSessionResponse
    pub response : InitSessionResponse
    pub after : World H
    pub sent : ctx.metadata ≡ some md
    pub caller : get_user_id ctx md ≡ ok user_id
    pub answered : (Pa.init_session (spm_client deps order) ctx request p).0 ≡ ok answer
    pub granted : IsGranted deps auth_cfg order request p.outside after response
    pub same_token : user.session_token ≡ response.sku_session_token
    pub same_methods : user.auth_methods ≡ response.auth_methods
    pub same_sku : user.sku ≡ request.sku

  -- InitSession keeps a property of all users that the user whom it adds has.
  pub init_session-Holds :
      (Q : String → User → Type 0) (order : List String) (ctx : Context)
      (request : InitSessionRequest) (p : Appliance (World H))
      → Holds Q p
      → ((user_id : String) (user : User)
          → IsAdded order ctx request p user_id user
          → Q user_id user)
      → Holds Q (Pa.init_session (spm_client deps order) ctx request p).1
  unfolding new_user_object
  init_session-Holds Q order ctx request p a new =
      let spm = spm_client deps order in
      let end_ = (Pa.init_session spm ctx request p).1 in
      let kept = (init_session-Configured deps auth_cfg order request).at p.outside a.configured in
      elim (Result-cases (Pa.init_session spm ctx request p).0) [
        | inr (x, failed) ↦
            let (same, ended) =
              init_session-failed spm ctx request p end_ x (λ i. (failed i, end_)) in
            record {
              configured = subst (Configured deps auth_cfg) (sym ended) kept;
              users = subst (EachUser Q) (sym same) a.users;
            }
        | inl (r, done) ↦
            let e : Pa.init_session spm ctx request p ≡ (ok r, end_) = λ i. (done i, end_) in
            let (c, md, user_id, running, sent, caller, now) =
              init_session-with_session spm ctx request p end_ r e in
            let (r0, opened, tokens, methods) = init_session-opened spm ctx request p end_ r e in
            let added : IsAdded order ctx request p user_id
                (new_user_object user_id r.sku_session_token request.sku r.auth_methods) =
              record {
                md = md;
                answer = r;
                response = r0;
                after = end_.outside;
                sent = sent;
                caller = caller;
                answered = done;
                granted =
                    init_session-IsGranted deps auth_cfg order request p.outside end_.outside r0
                      a.configured opened;
                same_token = tokens;
                same_methods = methods;
                same_sku = refl;
              } in
            record {
              configured = subst (Configured deps auth_cfg) (ap (λ x. x.1) opened) kept;
              users = subst (EachUser Q) (sym now) (
                  with_session-EachUser Q c user_id r.sku_session_token request.sku r.auth_methods
                    (subst (EachUser Q) running a.users) (new user_id _ added));
            }
      ]

  pub close_session-Holds :
      (Q : String → User → Type 0) (order : List String) (ctx : Context)
      → Keeps (Holds Q) (Pa.close_session (spm_client deps order) ctx)
  close_session-Holds Q order ctx = record {
    at = λ p a.
        let (same, users) = close_session-users (spm_client deps order) ctx p in
        record {
          configured = subst (Configured deps auth_cfg) (sym same) a.configured;
          users = elim users [
            | inl unchanged ↦ subst (EachUser Q) (sym unchanged) a.users
            | inr (c, user_id, running, now) ↦
                subst (EachUser Q) (sym now)
                  (removed-EachUser Q c user_id (subst (EachUser Q) running a.users))
          ];
        };
  }
