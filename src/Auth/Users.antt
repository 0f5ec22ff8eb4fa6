-- ===== src/Auth/Users.antt =====
-- What the controller of src/transport/auth_service/auth_service.go does to the store of users.
use opentitan_provisioning.Base.{
  String_eq, ◌==◌, ◌≡◌, List, String, none, some, ok, if◌then◌else◌, arith, eq_iff,
}
use opentitan_provisioning.Base.Dict.{lookup, delete, lookup-insert, lookup-delete}
use opentitan_provisioning.Auth.{UserStore, new_user_object}
use opentitan_provisioning.Auth.Controller.{add_user, remove_user}

module _ (user_id token sku : String) (auth_methods : List String) (store : UserStore) where
  -- AddUser always succeeds, whatever was stored: afterwards the user has the new token, SKU and
  -- methods, and every other user is as before.
  pub add_user-lookup :
      ((add_user user_id token sku auth_methods store).0
        ≡ ok (new_user_object user_id token sku auth_methods))
      × ((k : String)
          → lookup k (add_user user_id token sku auth_methods store).1.users ≡ (
              if user_id == k
              then some (new_user_object user_id token sku auth_methods)
              else lookup k store.users))
  unfolding add_user
  add_user-lookup = (
    ground (arith, lookup-delete user_id user_id store.users, eq_iff user_id user_id),
    λ k. ground (
      arith,
      lookup-delete user_id user_id store.users,
      lookup-delete user_id k store.users,
      lookup-insert user_id k (new_user_object user_id token sku auth_methods) store.users,
      lookup-insert user_id k (new_user_object user_id token sku auth_methods)
          (delete user_id store.users),
      eq_iff user_id user_id,
      eq_iff user_id k,
    ),
  )

-- After RemoveUser the user is not in the store, and every other user is as before.
pub remove_user-lookup :
    (user_id : String) (store : UserStore) (k : String)
    → lookup k (remove_user user_id store).1.users
      ≡ (if user_id == k then none else lookup k store.users)
unfolding remove_user
remove_user-lookup user_id store k =
    ground (arith, lookup-delete user_id k store.users, eq_iff user_id k)
