-- ===== src/System.antt =====
-- The appliance of src/pa/pa_server.go and src/pa/services/pa.go in front of the SPM's server of
-- src/spm/services/spm.go: what callers, in any order, can do to the two.
pub mod Issued
pub mod Password
pub mod Reached
pub mod Started
mod Tests
use opentitan_provisioning.Base.{◌≡◌, String, List, Option, none, some, Result}
use opentitan_provisioning.Base.Exec.{Exec}
use opentitan_provisioning.Proto.{Bytes, DeviceData}
use opentitan_provisioning.Grpconn.{Resolver}
use opentitan_provisioning.Auth.Controller.{new_auth_controller_instance}
use opentitan_provisioning.Auth.Interceptor.{Context}
use opentitan_provisioning.Spm.SkuConfig.{Auth}
use opentitan_provisioning.Spm.Messages.{
  InitSessionRequest, DeriveTokensRequest, EndorseCertsRequest, RegistrationRequest,
}
use opentitan_provisioning.Spm.Server
use opentitan_provisioning.Spm.Server.{World, Deps}
use opentitan_provisioning.Spm.Server.Sessions
use opentitan_provisioning.Spm.Server.Handlers
use opentitan_provisioning.Pa.{SpmClient, PbClient, Appliance}
use opentitan_provisioning.Pa.Server.{
  Serving, served_init_session, served_close_session, served_derive_tokens, served_endorse_certs,
  served_register_device,
}

-- The SPM as the appliance's client sees it. The order is that in which Go happens to iterate over
-- the map of authorizations.
abbrev pub spm_client : {H : Type 0} → Deps H → List String → SpmClient (World H)
spm_client deps order = record {
  init_session = Sessions.init_session deps order;
  endorse_certs = Handlers.endorse_certs deps;
  derive_tokens = Handlers.derive_tokens deps;
  get_stored_tokens = Handlers.get_stored_tokens deps;
  endorse_data = Handlers.endorse_payload deps;
}

-- A client of the proxy buffer reaches nothing of the SPM.
abbrev pub buffer_outside : {H : Type 0} → PbClient H → PbClient (World H)
buffer_outside none = none
buffer_outside (some register) = some (λ request. Server.on_outside (register request))

module _ {H : Type 0} (deps : Deps H) (serving : Serving) (lookup_addr : Resolver)
    (marshal : DeviceData → Result Bytes) (pb_client : PbClient H) where
  -- A call of the appliance by anyone; or anything else that happens at the SPM, which never changes
  -- the authorizations that it was started with.
  pub data Step (p : Appliance (World H)) : Appliance (World H) → Type 0 where
    session_opened :
        (order : List String) (ctx : Context) (request : InitSessionRequest)
        → Step p (served_init_session serving lookup_addr (spm_client deps order) ctx request p).1
    session_closed :
        (order : List String) (ctx : Context)
        → Step p (served_close_session serving lookup_addr (spm_client deps order) ctx p).1
    tokens_derived :
        (order : List String) (ctx : Context) (request : DeriveTokensRequest)
        → Step p (served_derive_tokens serving lookup_addr (spm_client deps order) ctx request p).1
    certs_endorsed :
        (order : List String) (ctx : Context) (request : EndorseCertsRequest)
        → Step p (served_endorse_certs serving lookup_addr (spm_client deps order) ctx request p).1
    device_registered :
        (order : List String) (ctx : Context) (request : RegistrationRequest)
        → Step p
            (served_register_device serving lookup_addr
              (spm_client deps order)
              marshal
              (buffer_outside pb_client)
              ctx
              request
              p).1
    elsewhere :
        (w : World H)
        → w.server.auth_cfg ≡ p.outside.server.auth_cfg
        → Step p (record p { outside = w })

  -- From the start of the appliance, which has no user then, in front of an SPM that has loaded its
  -- authorizations.
  pub data Reachable (auth_cfg : Auth) : Appliance (World H) → Type 0 where
    start :
        (w : World H)
        → w.server.auth_cfg ≡ some auth_cfg
        → Reachable auth_cfg (record {
          instance_ = (new_auth_controller_instance serving.interceptor.enable_tls none).1;
          outside = w;
        })
    then_ : {p p' : Appliance (World H)} → Reachable auth_cfg p → Step p p' → Reachable auth_cfg p'
