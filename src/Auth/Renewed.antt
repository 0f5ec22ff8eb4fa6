-- ===== src/Auth/Renewed.antt =====
-- What adding and removing a user means for the requests that follow.
use opentitan_provisioning.Base.{
  String_eq, ◌≡◌, ◌↔◌, false, List, ◌∷◌, String, some, ok, err, status, internal, not_found,
  permission_denied, if◌then◌else◌, str_eq, arith, eq_iff,
}
use opentitan_provisioning.Base.Dict.{lookup}
use opentitan_provisioning.Auth.{new_user_object}
use opentitan_provisioning.Auth.Controller.{
  AuthController, Instance, get_instance, find_user, add_user, remove_user,
}
use opentitan_provisioning.Auth.Interceptor.{
  Context, Metadata, AuthInterceptor, any_suffix, get_user_id, metadata_from_incoming_context,
  authorize_user, check_token, authorize,
}
use opentitan_provisioning.Auth.Users.{add_user-lookup, remove_user-lookup}
use opentitan_provisioning.Auth.Authorized.{
  EndsWithOneOf, any_suffix-EndsWithOneOf, EndsWithOneOf-any_suffix,
}

-- After RemoveUser, a request that identifies itself as that user, for a method that is not
-- excluded, fails with the status of an unknown user.
pub authorize-remove_user :
    (interceptor : AuthInterceptor) (c : AuthController) (ctx : Context) (md : Metadata)
    (user_id method : String)
    → ctx.metadata ≡ some md
    → get_user_id ctx md ≡ ok user_id
    → any_suffix method interceptor.exclude_methods ≡ false
    → authorize interceptor
        (some (record c { user_store = (remove_user user_id c.user_store).1 }))
        ctx
        method
      ≡ err (status internal "user not found")
unfolding authorize authorize_user get_instance metadata_from_incoming_context find_user
authorize-remove_user interceptor c ctx md user_id method hm hu hx =
    ground (arith, remove_user-lookup user_id c.user_store user_id, eq_iff user_id user_id)

-- The controller after AddUser.
abbrev pub with_session : AuthController → String → String → String → List String → Instance
with_session c user_id token sku auth_methods =
    some (record c { user_store = (add_user user_id token sku auth_methods c.user_store).1 })

module _ (interceptor : AuthInterceptor) (c : AuthController) (ctx : Context) (md : Metadata)
    (user_id token sku method shown : String) (auth_methods others : List String)
    (sent : ctx.metadata ≡ some md) (identified : get_user_id ctx md ≡ ok user_id)
    (presented : lookup "authorization" md ≡ some (shown ∷ others))
    (included : any_suffix method interceptor.exclude_methods ≡ false) where
  authorize-add_user_value :
      authorize interceptor (with_session c user_id token sku auth_methods) ctx method ≡ (
        if str_eq token shown
        then if any_suffix method auth_methods
          then ok tt
          else err (status permission_denied "no permission to access this method")
        else err (status not_found "incorrect access token"))
  unfolding authorize authorize_user get_instance metadata_from_incoming_context find_user
      check_token new_user_object
  authorize-add_user_value = ground (
    arith,
    (add_user-lookup user_id token sku auth_methods c.user_store).1 user_id,
    eq_iff user_id user_id,
  )

  -- After AddUser, a request that identifies itself as that user, for a method that is not
  -- excluded, is let through exactly when its first authorization value is the new token and the
  -- method is one of the new methods; any other token is refused.
  pub authorize-add_user :
      (authorize interceptor (with_session c user_id token sku auth_methods) ctx method ≡ ok tt)
      ↔ ((shown ≡ token) × EndsWithOneOf method auth_methods)
  authorize-add_user = (
    λ h. (
      ground (arith, authorize-add_user_value, eq_iff token shown),
      any_suffix-EndsWithOneOf method auth_methods (ground (arith, authorize-add_user_value)),
    ),
    λ h. ground (
      arith,
      authorize-add_user_value,
      eq_iff token shown,
      EndsWithOneOf-any_suffix method auth_methods h.1,
    ),
  )
