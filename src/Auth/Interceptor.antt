-- ===== src/Auth/Interceptor.antt =====
-- src/transport/auth_service/auth_interceptor.go: who may call which method. A request's context is
-- what gRPC puts there: the peer and the metadata.
use opentitan_provisioning.Base.{
  String_eq, Bool, true, false, List, [], ◌∷◌, String, Option, none, some, Result, ok, err, status,
  panic, internal, unauthenticated, not_found, permission_denied, if◌then◌else◌, or_else, ◌>>=◌,
  ◌>>◌, str_eq, not,
}
use opentitan_provisioning.Base.Exec.{Exec}
use opentitan_provisioning.Base.Text.{has_suffix}
use opentitan_provisioning.Base.Dict.{Dict, lookup}
use opentitan_provisioning.Grpconn.{Peer, Resolver, extract_client_ip, or_empty, check_endpoint}
use opentitan_provisioning.Auth.{User}
use opentitan_provisioning.Auth.Controller.{Instance, get_instance, find_user}

abbrev pub Metadata : Type 0
Metadata = Dict String (List String)

pub record Context : Type 0 where
  pub peer : Option Peer
  pub metadata : Option Metadata

pub record AuthInterceptor : Type 0 where
  pub enable_tls : Bool
  pub exclude_methods : List String

abbrev pub exclude_methods_list : List String
exclude_methods_list = "InitSession" ∷ "CloseSession" ∷ []

unfoldable pub new_auth_interceptor : Bool → AuthInterceptor
new_auth_interceptor enable_tls = record {
  enable_tls = enable_tls;
  exclude_methods = exclude_methods_list;
}

unfoldable pub get_client_ip : Context → String
get_client_ip ctx = or_empty (extract_client_ip ctx.peer)

-- md["user_id"] is nil where the key is missing; an empty list there is out of range at [0].
unfoldable pub get_user_id : Context → Metadata → Result String
unfolding get_client_ip
get_user_id ctx md = elim (lookup "user_id" md) [
  | none ↦ ok (get_client_ip ctx)
  | some [] ↦ err (panic "index out of range")
  | some (v ∷ vs) ↦ ok v
]

-- hasSuffix, and the loop over the methods of a user.
unfoldable pub any_suffix : String → List String → Bool
any_suffix str_in [] = false
any_suffix str_in (str ∷ rest) =
    let later = any_suffix str_in rest in if has_suffix str_in str then true else later

unfoldable pub check_token : User → Metadata → Result (Unit {0})
check_token user md = elim (lookup "authorization" md) [
  | none ↦ err (status unauthenticated "authorization token is not provided")
  | some [] ↦ err (status unauthenticated "authorization token is not provided")
  | some (access_token ∷ _) ↦
      if not (str_eq user.session_token access_token)
      then err (status not_found "incorrect access token")
      else ok tt
]

unfoldable pub metadata_from_incoming_context : Context → Result Metadata
metadata_from_incoming_context ctx = elim ctx.metadata [
  | none ↦ err (status unauthenticated "metadata is not provided")
  | some md ↦ ok md
]

-- The part of `authorize` after the test of the excluded methods.
unfoldable pub authorize_user : Instance → Context → String → Result (Unit {0})
authorize_user instance_ ctx method = do
  auth_controller ← or_else (get_instance instance_) (status internal "session is not initialized")
  md ← metadata_from_incoming_context ctx
  user_id ← get_user_id ctx md
  user ← or_else (find_user user_id auth_controller.user_store).0 (status internal "user not found")
  check_token user md
  if any_suffix method user.auth_methods
      then ok tt
      else err (status permission_denied "no permission to access this method")

unfoldable pub authorize : AuthInterceptor → Instance → Context → String → Result (Unit {0})
authorize interceptor instance_ ctx method =
    if any_suffix method interceptor.exclude_methods
    then ok tt
    else authorize_user instance_ ctx method

-- The interceptor runs before the handler, which acts on the server's state `S`. The resolver is that
-- of the check of the peer's certificate.
module _ {S A : Type 0} (instance_of : S → Instance) (lookup_addr : Resolver) where
  unfoldable pub unary : AuthInterceptor → Context → String → Exec S A → Exec S A
  unary interceptor ctx full_method handler s =
      elim (authorize interceptor (instance_of s) ctx full_method) [
        | err e ↦ (err e, s)
        | ok _ ↦
            if interceptor.enable_tls
            then elim (check_endpoint lookup_addr ctx.peer) [
              | err e ↦ (err e, s)
              | ok _ ↦ handler s
            ]
            else handler s
      ]
