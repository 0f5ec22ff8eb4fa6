-- ===== src/Auth/Controller.antt =====
-- src/transport/auth_service/auth_service.go: the controller, one for the process. `GetInstance`
-- fails until `NewAuthControllerInstance` has run.
use opentitan_provisioning.Base.{
  Bool, List, [], String, Option, none, some, Result, ok, err, status, internal, is_ok,
  if◌then◌else◌,
}
use opentitan_provisioning.Base.Exec.{Exec, ◌>>◌, pure}
use opentitan_provisioning.Auth.{
  User, UserStore, new_user_object, new_in_memory_user_store, save, delete_user, find,
}

pub record AuthController : Type 0 where
  pub enable_tls : Bool
  pub user_store : UserStore

-- The package variable `singleInstance`.
abbrev pub Instance : Type 0
Instance = Option AuthController

unfoldable pub new_auth_controller_instance : Bool → Instance → AuthController × Instance
new_auth_controller_instance enable_tls none =
    let c : AuthController = record {
      enable_tls = enable_tls;
      user_store = new_in_memory_user_store;
    } in
    (c, some c)
new_auth_controller_instance enable_tls (some c) = (c, some c)

unfoldable pub get_instance : Instance → Result AuthController
get_instance none = err (status internal "No instance of AuthController")
get_instance (some c) = ok c

-- The methods of the controller, on the store that it points to.
unfoldable pub find_user : String → Exec UserStore User
unfolding find
find_user user_id = find user_id

-- The source returns the user beside the error of Save; its only reader drops the user on an error.
unfoldable pub create_user : String → String → String → List String → Exec UserStore User
unfolding new_user_object save
create_user user_id token sku auth_methods = do
  let user = new_user_object user_id token sku auth_methods
  save user
  pure user

unfoldable pub remove_user : String → Exec UserStore User
unfolding new_user_object delete_user
remove_user user_id = do let user = new_user_object user_id "" "" []; delete_user user; pure user

-- Three operations of the store, each under its lock; no other call comes between them here. The
-- result of RemoveUser is overwritten before it is read.
unfoldable pub add_user : String → String → String → List String → Exec UserStore User
unfolding find_user create_user remove_user
add_user user_id token sku auth_methods store =
    let found = find_user user_id store in
    let removed = if is_ok found.0 then (remove_user user_id found.1).1 else found.1 in
    create_user user_id token sku auth_methods removed
