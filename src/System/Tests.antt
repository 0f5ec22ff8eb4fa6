-- ===== src/System/Tests.antt =====
-- A run of the appliance in front of the SPM.
use opentitan_provisioning.Base.{
  ◌≡◌, ◌⊎◌, refl, String, false, List, [], ◌∷◌, none, some, Result, ok, err, Error, errorf,
}
use opentitan_provisioning.Base.Text.{has_suffix}
use opentitan_provisioning.Proto.{Bytes, DeviceData}
use opentitan_provisioning.Grpconn.{Resolver}
use opentitan_provisioning.Auth.Controller.{new_auth_controller_instance}
use opentitan_provisioning.Auth.Interceptor.{Context, any_suffix, exclude_methods_list}
use opentitan_provisioning.Pk11.SoftToken.{Token}
use opentitan_provisioning.Spm.Messages.{
  InitSessionRequest, DeriveTokensRequest, DeriveTokensResponse,
}
use opentitan_provisioning.Spm.Server.{World}
use opentitan_provisioning.Spm.Tests.World.{auth_cfg, deps, world}
use opentitan_provisioning.Pa.{SpmClient, PbClient, Appliance, derive_tokens}
use opentitan_provisioning.Pa.Server.{
  Serving, intercepted, served_init_session, derive_tokens_method,
}
use opentitan_provisioning.System.{spm_client, Reachable, start, then_, session_opened}
use opentitan_provisioning.System.Reached.{ShowsPassword, intercepted-ShowsPassword}

abbrev serving : Serving
serving = record {
  interceptor = record { enable_tls = false; exclude_methods = exclude_methods_list };
  instance_ = (new_auth_controller_instance false none).1;
  has_pb_client = false;
}

abbrev resolver : Resolver
resolver ip = err (errorf "no name")

abbrev marshal : DeviceData → Result Bytes
marshal d = ok []

abbrev no_buffer : PbClient Token
no_buffer = none

abbrev order : List String
order = "siv" ∷ []

abbrev spm : SpmClient (World Token)
spm = spm_client deps order

abbrev caller : Context
caller = record {
  peer = none;
  metadata = some (("user_id", "7" ∷ []) ∷ ("authorization", "aaaaaaaaaaaaaaaa" ∷ []) ∷ []);
}

abbrev password : InitSessionRequest
password = record { sku = "sival"; sku_auth = "password" }

abbrev derive : DeriveTokensRequest
derive = record { sku = "sival"; params = [] }

abbrev started : Appliance (World Token)
started = record { instance_ = (new_auth_controller_instance false none).1; outside = world [] }

abbrev opened : Appliance (World Token)
opened = (served_init_session serving resolver spm caller password started).1

opened_reached : Reachable deps serving resolver marshal no_buffer auth_cfg opened
opened_reached = then_ (start (world []) refl) (session_opened order caller password)

included : any_suffix derive_tokens_method exclude_methods_list ≡ false
unfolding any_suffix has_suffix
included = refl

abbrev answer : Result DeriveTokensResponse × Appliance (World Token)
answer =
    intercepted serving resolver spm derive_tokens_method caller (derive_tokens spm derive) opened

intercepted-ShowsPassword_example :
    (ShowsPassword opened_reached caller derive_tokens_method
      × (derive_tokens spm derive opened ≡ answer))
    ⊎ ((answer.1 ≡ opened) × (e : Error) × (answer.0 ≡ err e))
intercepted-ShowsPassword_example =
    intercepted-ShowsPassword deps auth_cfg marshal serving resolver no_buffer order
      derive_tokens_method caller (derive_tokens spm derive) opened answer.1 answer.0 opened_reached
      included refl
