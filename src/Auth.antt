-- ===== src/Auth.antt =====
-- src/transport/auth_service: the store of users (user.go, user_store.go), the controller
-- (auth_service.go) and the gRPC interceptor (auth_interceptor.go). The mutexes make each store
-- operation one step, so each is one function on the store.
pub mod Controller
pub mod Interceptor
pub mod Users
pub mod Authorized
pub mod Renewed
mod Tests
use opentitan_provisioning.Base.{
  String_eq, List, [], String, Option, none, some, ok, err, status, internal, refl, ◌≡◌,
}
use opentitan_provisioning.Base.Exec.{Exec}
use opentitan_provisioning.Base.Dict.{Dict, lookup, insert, delete}

pub record User : Type 0 where
  pub user_id : String
  pub sku : String
  pub auth_methods : List String
  pub session_token : String

unfoldable pub new_user_object : String → String → String → List String → User
new_user_object user_id token sku auth_methods = record {
  user_id = user_id;
  sku = sku;
  auth_methods = auth_methods;
  session_token = token;
}

unfoldable pub clone : User → User
clone user = record {
  user_id = user.user_id;
  sku = user.sku;
  auth_methods = user.auth_methods;
  session_token = user.session_token;
}

-- type InMemoryUserStore: no nil pointer is ever put into the map, so that `store.users[k] != nil`
-- asks whether the key is there.
pub record UserStore : Type 0 where
  pub users : Dict String User

unfoldable pub new_in_memory_user_store : UserStore
new_in_memory_user_store = record { users = [] }

unfoldable pub save : User → Exec UserStore (Unit {0})
unfolding clone
save user store = elim (lookup user.user_id store.users) [
  | some _ ↦ (err (status internal "ErrAlreadyExists"), store)
  | none ↦ (ok tt, record store { users = insert user.user_id (clone user) store.users })
]

unfoldable pub delete_user : User → Exec UserStore (Unit {0})
delete_user user store = elim (lookup user.user_id store.users) [
  | some _ ↦ (ok tt, record store { users = delete user.user_id store.users })
  | none ↦ (ok tt, store)
]

unfoldable pub find : String → Exec UserStore User
unfolding clone
find user_id store = elim (lookup user_id store.users) [
  | none ↦ (err (status internal "user not found, user = %s"), store)
  | some user ↦ (ok (clone user), store)
]
