-- ===== src/Auth/Tests.antt =====
-- Concrete runs of the models of src/transport/auth_service.
use opentitan_provisioning.Base.{
  ◌≡◌, ◌↔◌, ◌⊎◌, refl, String_eq, Bool, true, false, [], ◌∷◌, none, some, Result, ok, err, Error,
}
use opentitan_provisioning.Base.Exec.{Exec}
use opentitan_provisioning.Base.Text.{has_suffix}
use opentitan_provisioning.Base.Dict.{lookup}
use opentitan_provisioning.Grpconn.{Peer, Resolver, extract_client_ip, any_ip, check_endpoint}
use opentitan_provisioning.Grpconn.Endpoint.{IsEndpoint}
use opentitan_provisioning.Auth.{User, clone}
use opentitan_provisioning.Auth.Controller.{AuthController, Instance, get_instance, find_user}
use opentitan_provisioning.Auth.Interceptor.{
  Context, Metadata, AuthInterceptor, exclude_methods_list, any_suffix, get_user_id, authorize,
  authorize_user, check_token, metadata_from_incoming_context, unary,
}
use opentitan_provisioning.Auth.Authorized.{EndsWithOneOf, IsAuthorized, authorize_iff, unary_sound}

abbrev ate : User
ate = record {
  user_id = "ate";
  sku = "sival";
  auth_methods = "DeriveTokens" ∷ [];
  session_token = "secret";
}

abbrev controller : AuthController
controller = record { enable_tls = false; user_store = record { users = ("ate", ate) ∷ [] } }

abbrev metadata : Metadata
metadata = ("user_id", "ate" ∷ []) ∷ ("authorization", "secret" ∷ []) ∷ []

abbrev ctx : Context
ctx = record { peer = none; metadata = some metadata }

abbrev interceptor : AuthInterceptor
interceptor = record { enable_tls = false; exclude_methods = exclude_methods_list }

authorize_iff_example : (authorize interceptor (some controller) ctx "/pa/DeriveTokens" ≡ ok tt) ↔ (
    EndsWithOneOf "/pa/DeriveTokens" exclude_methods_list
    ⊎ IsAuthorized (some controller) ctx "/pa/DeriveTokens")
authorize_iff_example = authorize_iff interceptor (some controller) ctx "/pa/DeriveTokens"

abbrev instance_of : Bool → Instance
instance_of b = some controller

abbrev peer : Peer
peer = record {
  host = some "10.0.0.7";
  certificates = some (record { ip_addresses = "10.0.0.7" ∷ []; dns_names = [] } ∷ []);
}

abbrev tls_ctx : Context
tls_ctx = record { peer = some peer; metadata = some metadata }

abbrev tls_interceptor : AuthInterceptor
tls_interceptor = record { enable_tls = true; exclude_methods = exclude_methods_list }

abbrev resolver : Resolver
resolver _ = ok []

abbrev handler : Exec Bool Bool
handler b = (ok b, true)

served :
    unary instance_of resolver tls_interceptor tls_ctx "/pa/DeriveTokens" handler false
    ≡ (ok false, true)
unfolding unary authorize authorize_user any_suffix has_suffix get_instance
    metadata_from_incoming_context get_user_id find_user clone lookup check_token check_endpoint
    any_ip extract_client_ip
served = refl

unary_sound_example :
    ((EndsWithOneOf "/pa/DeriveTokens" exclude_methods_list
        ⊎ IsAuthorized (some controller) tls_ctx "/pa/DeriveTokens")
      × (◌≡◌ {A = Bool} true true → IsEndpoint resolver (some peer))
      × (handler false ≡ (ok false, true)))
    ⊎ ((true ≡ false) × ((e : Error) × (◌≡◌ {A = Result Bool} (ok false) (err e))))
unary_sound_example =
    unary_sound instance_of resolver tls_interceptor tls_ctx "/pa/DeriveTokens" handler false true
      (ok false) served

identified : get_user_id ctx metadata ≡ ok "ate"
unfolding get_user_id lookup
identified = refl

presented : lookup "authorization" metadata ≡ some ("secret" ∷ [])
unfolding lookup
presented = refl

included : any_suffix "/pa/DeriveTokens" exclude_methods_list ≡ false
unfolding any_suffix has_suffix
included = refl
