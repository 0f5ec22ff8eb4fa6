-- ===== src/System/Reached.antt =====
-- What holds of the appliance and the SPM whatever their callers do.
use opentitan_provisioning.Base.{
  ◌≡◌, ◌⊎◌, inl, inr, refl, sym, ap, subst, ◌∙◌, arith, String, String_eq, Bool, false, true, List,
  ◌∷◌, none, some, Result, ok, err, Error, Option-cases, if◌then◌else◌,
}
use opentitan_provisioning.Base.Exec.{
  Exec, Keeps, lift, or_raise-Keeps, raise-Keeps, lift-Keeps, pure-Keeps, >>=-Keeps,
}
use opentitan_provisioning.Base.Dict.{lookup}
use opentitan_provisioning.Proto.{Bytes, DeviceData}
use opentitan_provisioning.Grpconn.{Resolver}
use opentitan_provisioning.Auth.{User, new_in_memory_user_store}
use opentitan_provisioning.Auth.Controller.{new_auth_controller_instance}
use opentitan_provisioning.Auth.Interceptor.{Context, Metadata, get_user_id, any_suffix, unary}
use opentitan_provisioning.Auth.Authorized.{EndsWithOneOf, EndsWithOneOf-any_suffix, unary_sound}
use opentitan_provisioning.Spm.SkuConfig.{Auth}
use opentitan_provisioning.Spm.Messages.{InitSessionRequest, RegistrationRequest}
use opentitan_provisioning.Spm.Server
use opentitan_provisioning.Spm.Server.{World, Deps}
use opentitan_provisioning.Spm.Server.Handlers
use opentitan_provisioning.Pa
use opentitan_provisioning.Pa.{PbClient, Appliance, registered, register_device}
use opentitan_provisioning.Pa.Server.{
  Serving, intercepted, served_init_session, served_close_session, served_derive_tokens,
  served_endorse_certs, served_register_device, init_session_method,
}
use opentitan_provisioning.System.{
  spm_client, buffer_outside, Step, session_opened, session_closed, tokens_derived, certs_endorsed,
  device_registered, elsewhere, Reachable, start, then_,
}
use opentitan_provisioning.System.Issued.{Configured, IsOpened, here, earlier}
use opentitan_provisioning.System.Password.{
  Holds, with_sku-Configured, on_outside-Holds, init_session-Holds, close_session-Holds,
}

-- The caller identifies itself by a name for which a step of this run has opened a session, shows the
-- token that the SPM granted then, and the methods that it granted include the method.
pub record ShowsPassword {H : Type 0} {deps : Deps H} {auth_cfg : Auth} {serving : Serving}
    {lookup_addr : Resolver} {marshal : DeviceData → Result Bytes} {pb_client : PbClient H}
    {p : Appliance (World H)}
    (run : Reachable deps serving lookup_addr marshal pb_client auth_cfg p) (ctx : Context)
    (method : String) : Type 0 where
  pub md : Metadata
  pub user_id : String
  pub user : User
  pub others : List String
  pub sent : ctx.metadata ≡ some md
  pub identified : get_user_id ctx md ≡ ok user_id
  pub opened : IsOpened deps auth_cfg serving lookup_addr marshal pb_client user_id user p run
  pub token : lookup "authorization" md ≡ some (user.session_token ∷ others)
  pub allowed : EndsWithOneOf method user.auth_methods

module _ {H : Type 0} (deps : Deps H) (auth_cfg : Auth) (marshal : DeviceData → Result Bytes) where
  abbrev P : World H → Type 0
  P = Configured deps auth_cfg

  registered-Configured :
      (order : List String) (pb_client : PbClient H) (device_data : DeviceData)
      → Keeps P (registered (spm_client deps order) marshal (buffer_outside pb_client) device_data)
  unfolding registered Handlers.endorse_payload
  registered-Configured order none device_data = raise-Keeps P _
  registered-Configured order (some register) device_data =
      >>=-Keeps P _ _ (or_raise-Keeps P (lift (marshal device_data)) _ (lift-Keeps P _)) (λ bytes.
        >>=-Keeps P _ _
          (or_raise-Keeps P (Handlers.endorse_payload deps _) _
            (with_sku-Configured deps auth_cfg _ _))
          (λ endorsed.
            >>=-Keeps P _ _
              (or_raise-Keeps P (Server.on_outside (register _)) _ (record { at = λ w h. h }))
              (λ response. pure-Keeps P tt)))

  register_device-Configured :
      (order : List String) (pb_client : PbClient H) (request : RegistrationRequest)
      → Keeps P (register_device (spm_client deps order) marshal (buffer_outside pb_client) request)
  unfolding register_device
  register_device-Configured order pb_client request = record {
    at = λ w h. elim (Option-cases request.device_data) [
      | inl missing ↦ ground (arith, missing, h)
      | inr (d, given) ↦ ground (arith, given, (registered-Configured order pb_client d).at w h)
    ];
  }

  buffer_outside_if :
      (b : Bool) (pb_client : PbClient H)
      → buffer_outside (if b then pb_client else none)
        ≡ (if b then buffer_outside pb_client else none)
  buffer_outside_if true pb_client = refl
  buffer_outside_if false pb_client = refl

  module _ (serving : Serving) (lookup_addr : Resolver) (pb_client : PbClient H) where
    intercepted-Keeps :
        {A : Type 0} (Q : Appliance (World H) → Type 0) (method : String) (ctx : Context)
        (handler : Exec (Appliance (World H)) A)
        → Keeps Q handler
        → (order : List String)
        → Keeps Q (intercepted serving lookup_addr (spm_client deps order) method ctx handler)
    unfolding intercepted
    intercepted-Keeps Q method ctx handler k order = record {
      at = λ p q.
          let run = unary (λ x. x.instance_) lookup_addr serving.interceptor ctx method handler p in
          elim (unary_sound (λ x. x.instance_) lookup_addr serving.interceptor ctx method handler p
            run.1 run.0 refl) [
              | inl (_, _, ran) ↦ subst Q (ap (λ x. x.1) ran) (k.at p q)
              | inr (same, _) ↦ subst Q (sym same) q
            ];
    }

    abbrev OpenedIn :
        {p : Appliance (World H)}
        → Reachable deps serving lookup_addr marshal pb_client auth_cfg p
        → String
        → User
        → Type 0
    OpenedIn {p} run k user =
        IsOpened deps auth_cfg serving lookup_addr marshal pb_client k user p run

    -- A step that opens no session keeps a property of all users.
    kept :
        {p q : Appliance (World H)}
        (run : Reachable deps serving lookup_addr marshal pb_client auth_cfg p)
        (step : Step deps serving lookup_addr marshal pb_client p q)
        → Holds deps auth_cfg (OpenedIn run) p
        → Holds deps auth_cfg (OpenedIn (then_ run step)) p
    kept run step a = record {
      configured = a.configured;
      users = λ c k user now stored. earlier run step (a.users c k user now stored);
    }

    session_opened-Holds :
        (order : List String) (ctx : Context) (request : InitSessionRequest)
        (p : Appliance (World H))
        (run : Reachable deps serving lookup_addr marshal pb_client auth_cfg p)
        → Holds deps auth_cfg (OpenedIn run) p
        → Holds deps auth_cfg
            (OpenedIn (then_ run (session_opened order ctx request)))
            (served_init_session serving lookup_addr (spm_client deps order) ctx request p).1
    unfolding served_init_session intercepted
    session_opened-Holds order ctx request p run a =
        let step : Step deps serving lookup_addr marshal pb_client p
            (served_init_session serving lookup_addr (spm_client deps order) ctx request p).1 =
          session_opened order ctx request in
        let Q = OpenedIn (then_ run step) in
        let before = kept run step a in
        let handler = Pa.init_session (spm_client deps order) ctx request in
        let served =
          unary (λ x. x.instance_) lookup_addr serving.interceptor ctx init_session_method handler
            p in
        elim (unary_sound (λ x. x.instance_) lookup_addr serving.interceptor ctx init_session_method
          handler p served.1 served.0 refl) [
            | inr (same, _) ↦ subst (Holds deps auth_cfg Q) (sym same) before
            | inl (_, _, ran) ↦ subst (Holds deps auth_cfg Q) (ap (λ x. x.1) ran) (
                init_session-Holds deps auth_cfg Q order ctx request p before (λ user_id user added.
                  here run order ctx request (record {
                    md = added.md;
                    answer = added.answer;
                    response = added.response;
                    after = added.after;
                    sent = added.sent;
                    caller = added.caller;
                    answered = sym (ap (λ x. x.0) ran) ∙ added.answered;
                    granted = added.granted;
                    same_token = added.same_token;
                    same_methods = added.same_methods;
                    same_sku = added.same_sku;
                  })))
          ]

    Step-Holds :
        (p p' : Appliance (World H))
        (run : Reachable deps serving lookup_addr marshal pb_client auth_cfg p)
        (step : Step deps serving lookup_addr marshal pb_client p p')
        → Holds deps auth_cfg (OpenedIn run) p
        → Holds deps auth_cfg (OpenedIn (then_ run step)) p'
    unfolding served_close_session served_derive_tokens served_endorse_certs served_register_device
        Pa.derive_tokens Pa.endorse_certs Handlers.derive_tokens Handlers.endorse_certs
    Step-Holds p _ run (session_opened order ctx request) a =
        session_opened-Holds order ctx request p run a
    Step-Holds p _ run (session_closed order ctx) a =
        (intercepted-Keeps (Holds deps auth_cfg _) _ ctx _
            (close_session-Holds deps auth_cfg _ order ctx) order).at
          p (kept run (session_closed order ctx) a)
    Step-Holds p _ run (tokens_derived order ctx request) a =
        (intercepted-Keeps (Holds deps auth_cfg _) _ ctx _
            (or_raise-Keeps (Holds deps auth_cfg _) _ _
              (on_outside-Holds deps auth_cfg _ _ (with_sku-Configured deps auth_cfg _ _)))
            order).at
          p (kept run (tokens_derived order ctx request) a)
    Step-Holds p _ run (certs_endorsed order ctx request) a =
        (intercepted-Keeps (Holds deps auth_cfg _) _ ctx _
            (or_raise-Keeps (Holds deps auth_cfg _) _ _
              (on_outside-Holds deps auth_cfg _ _ (with_sku-Configured deps auth_cfg _ _)))
            order).at
          p (kept run (certs_endorsed order ctx request) a)
    Step-Holds p _ run (device_registered order ctx request) a =
        (intercepted-Keeps (Holds deps auth_cfg _) _ ctx _
            (on_outside-Holds deps auth_cfg _ _ (
              subst
                (λ client. Keeps P (register_device (spm_client deps order) marshal client request))
                (buffer_outside_if serving.has_pb_client pb_client)
                (register_device-Configured order _ request)))
            order).at
          p (kept run (device_registered order ctx request) a)
    Step-Holds p _ run (elsewhere w same) a = record {
      configured = same ∙ a.configured;
      users = (kept run (elsewhere w same) a).users;
    }

    -- Every user that is stored was opened by a step of the run.
    Reachable-Holds :
        (p : Appliance (World H))
        (run : Reachable deps serving lookup_addr marshal pb_client auth_cfg p)
        → Holds deps auth_cfg (OpenedIn run) p
    unfolding new_auth_controller_instance new_in_memory_user_store lookup
    Reachable-Holds _ (start w configured) = record {
      configured = configured;
      users = λ c k user now stored. absurd (ground (arith, now, stored));
    }
    Reachable-Holds p (then_ {p = q} run step) = Step-Holds q p run step (Reachable-Holds q run)

    -- Whatever the callers of the appliance and the SPM have done in a run since the start, and
    -- whatever the handler is, a method that needs a token either runs its handler, or returns an error
    -- and changes nothing. Where it runs, the caller identifies itself by a name for which a call of
    -- InitSession in this run, identified by the same name, has opened a session: the SPM then
    -- compared the password that was sent with that of the SKU's authorization; the caller shows the
    -- token of the SPM's answer, and that authorization lists the method.
    pub intercepted-ShowsPassword :
        {A : Type 0} (order : List String) (method : String) (ctx : Context)
        (handler : Exec (Appliance (World H)) A) (p p' : Appliance (World H)) (r : Result A)
        (run : Reachable deps serving lookup_addr marshal pb_client auth_cfg p)
        → any_suffix method serving.interceptor.exclude_methods ≡ false
        → intercepted serving lookup_addr (spm_client deps order) method ctx handler p ≡ (r, p')
        → (ShowsPassword run ctx method × (handler p ≡ (r, p')))
          ⊎ ((p' ≡ p) × (e : Error) × (r ≡ err e))
    unfolding intercepted
    intercepted-ShowsPassword order method ctx handler p p' r run included e =
        let all = Reachable-Holds p run in
        elim (unary_sound (λ x. x.instance_) lookup_addr serving.interceptor ctx method handler p p'
          r e) [
            | inr (same, (x, refused)) ↦ inr (same, x, refused)
            | inl (inl excluded, _, _) ↦ absurd (
                ground (
                  arith,
                  included,
                  EndsWithOneOf-any_suffix method serving.interceptor.exclude_methods excluded,
                ))
            | inl (inr a, _, ran) ↦ inl (
              record {
                md = a.md;
                user_id = a.user_id;
                user = a.user;
                others = a.others;
                sent = a.sent;
                identified = a.identified;
                opened = all.users a.controller a.user_id a.user a.running a.stored;
                token = a.token;
                allowed = a.allowed;
              },
              ran,
            )
          ]
