-- ===== src/Auth/Authorized.antt =====
-- Which requests the interceptor of src/transport/auth_service/auth_interceptor.go lets through.
use opentitan_provisioning.Base.{
  String_eq, ◌≡◌, ◌⊎◌, ◌↔◌, refl, inl, inr, Bool, true, false, List, [], ◌∷◌, String, none, some,
  Result, ok, err, Error, Result-cases, or_else-eq-ok, status, internal, if◌then◌else◌, or_else,
  arith, eq_iff, Bool-cases, Option-cases, >>=-eq-ok,
}
use opentitan_provisioning.Base.Exec.{Exec}
use opentitan_provisioning.Base.Text.{has_suffix, concat, has_suffix-concat, concat_of_has_suffix}
use opentitan_provisioning.Base.Dict.{lookup}
use opentitan_provisioning.Auth.{User, UserStore}
use opentitan_provisioning.Grpconn.{Resolver, check_endpoint}
use opentitan_provisioning.Grpconn.Endpoint.{IsEndpoint, check_endpoint_iff}
use opentitan_provisioning.Auth.Controller.{AuthController, Instance, get_instance, find_user}
use opentitan_provisioning.Auth.Interceptor.{
  Context, Metadata, AuthInterceptor, any_suffix, get_user_id, metadata_from_incoming_context,
  authorize_user, check_token, authorize, unary,
}

-- The text ends with one of the listed texts.
abbrev pub EndsWithOneOf : String → List String → Type 0
EndsWithOneOf s [] = ⊥
EndsWithOneOf s (t ∷ ts) = ((p : String) × (s ≡ concat p t)) ⊎ EndsWithOneOf s ts

pub any_suffix-EndsWithOneOf :
    (s : String) (ts : List String) → any_suffix s ts ≡ true → EndsWithOneOf s ts
unfolding any_suffix
any_suffix-EndsWithOneOf s [] h = cc
any_suffix-EndsWithOneOf s (t ∷ ts) h = elim (Bool-cases (has_suffix s t)) [
  | inl e ↦ inl (concat_of_has_suffix s t e)
  | inr n ↦ inr (any_suffix-EndsWithOneOf s ts (ground arith))
]

pub EndsWithOneOf-any_suffix :
    (s : String) (ts : List String) → EndsWithOneOf s ts → any_suffix s ts ≡ true
unfolding any_suffix
EndsWithOneOf-any_suffix s [] h = absurd h
EndsWithOneOf-any_suffix s (t ∷ ts) (inl (p, e)) =
    let found : has_suffix s t ≡ true = rw e (has_suffix-concat p t) in ground arith
EndsWithOneOf-any_suffix s (t ∷ ts) (inr later) =
    ground (arith, EndsWithOneOf-any_suffix s ts later)

-- What a request must show for a method that is not excluded.
pub record IsAuthorized (instance_ : Instance) (ctx : Context) (method : String) : Type 0 where
  pub controller : AuthController
  pub md : Metadata
  pub user_id : String
  pub user : User
  pub others : List String
  pub running : instance_ ≡ some controller
  pub sent : ctx.metadata ≡ some md
  pub identified : get_user_id ctx md ≡ ok user_id
  pub stored : lookup user_id controller.user_store.users ≡ some user
  pub token : lookup "authorization" md ≡ some (user.session_token ∷ others)
  pub allowed : EndsWithOneOf method user.auth_methods

find_user-eq-ok :
    (user_id : String) (store : UserStore) {user : User}
    → or_else (find_user user_id store).0 (status internal "user not found") ≡ ok user
    → lookup user_id store.users ≡ some user
unfolding find_user
find_user-eq-ok user_id store h = elim (Option-cases (lookup user_id store.users)) [
  | inl e ↦ ground arith
  | inr (u, e) ↦ ground arith
]

pub get_instance-eq-ok :
    (instance_ : Instance) {c : AuthController} → get_instance instance_ ≡ ok c → instance_ ≡ some c
unfolding get_instance
get_instance-eq-ok none h = cc
get_instance-eq-ok (some c) h = cc

pub metadata-eq-ok :
    (ctx : Context) {md : Metadata}
    → metadata_from_incoming_context ctx ≡ ok md
    → ctx.metadata ≡ some md
unfolding metadata_from_incoming_context
metadata-eq-ok ctx h = ground arith

passed : (b : Bool) (e : Error) → (if b then ok (tt {0}) else err e) ≡ ok tt → b ≡ true
passed true e h = refl
passed false e h = cc

check_token-eq-ok :
    (user : User) (md : Metadata)
    → check_token user md ≡ ok tt
    → (others : List String) × (lookup "authorization" md ≡ some (user.session_token ∷ others))
unfolding check_token
check_token-eq-ok user md h = elim (Option-cases (lookup "authorization" md)) [
  | inl e ↦ absurd (ground arith)
  | inr ([], e) ↦ absurd (ground arith)
  | inr (t ∷ ts, e) ↦ (ts, ground (arith, eq_iff user.session_token t))
]

authorize_user-IsAuthorized :
    (instance_ : Instance) (ctx : Context) (method : String)
    → authorize_user instance_ ctx method ≡ ok tt
    → IsAuthorized instance_ ctx method
unfolding authorize_user
authorize_user-IsAuthorized instance_ ctx method h =
    let (c, running, h1) = >>=-eq-ok _ _ h in
    let (md, sent, h2) = >>=-eq-ok _ _ h1 in
    let (user_id, identified, h3) = >>=-eq-ok _ _ h2 in
    let (user, stored, h4) = >>=-eq-ok _ _ h3 in
    let (_, token, h5) = >>=-eq-ok _ _ h4 in
    let (others, shown) = check_token-eq-ok user md token in
    record {
      controller = c;
      md = md;
      user_id = user_id;
      user = user;
      others = others;
      running = get_instance-eq-ok instance_ (or_else-eq-ok _ _ running);
      sent = metadata-eq-ok ctx sent;
      identified = identified;
      stored = find_user-eq-ok user_id c.user_store stored;
      token = shown;
      allowed = any_suffix-EndsWithOneOf method user.auth_methods (passed _ _ h5);
    }

IsAuthorized-authorize_user :
    (instance_ : Instance) (ctx : Context) (method : String)
    → IsAuthorized instance_ ctx method
    → authorize_user instance_ ctx method ≡ ok tt
unfolding authorize_user get_instance metadata_from_incoming_context find_user check_token
IsAuthorized-authorize_user instance_ ctx method a = ground (
  arith,
  a.running,
  a.sent,
  a.identified,
  a.stored,
  a.token,
  EndsWithOneOf-any_suffix method a.user.auth_methods a.allowed,
  eq_iff a.user.session_token a.user.session_token,
)

module _ (interceptor : AuthInterceptor) (instance_ : Instance) (ctx : Context)
    (method : String) where
  authorize_cases :
      authorize interceptor instance_ ctx method ≡ ok tt
      → EndsWithOneOf method interceptor.exclude_methods ⊎ IsAuthorized instance_ ctx method
  unfolding authorize
  authorize_cases h = elim (Bool-cases (any_suffix method interceptor.exclude_methods)) [
    | inl e ↦ inl (any_suffix-EndsWithOneOf method interceptor.exclude_methods e)
    | inr n ↦ inr (authorize_user-IsAuthorized instance_ ctx method (ground arith))
  ]

  authorize_of_cases :
      EndsWithOneOf method interceptor.exclude_methods ⊎ IsAuthorized instance_ ctx method
      → authorize interceptor instance_ ctx method ≡ ok tt
  unfolding authorize
  authorize_of_cases (inl e) =
      ground (arith, EndsWithOneOf-any_suffix method interceptor.exclude_methods e)
  authorize_of_cases (inr a) = ground (arith, IsAuthorized-authorize_user instance_ ctx method a)

-- `authorize` lets a request through exactly when its method ends with an excluded name, or the
-- controller runs and the metadata identify a stored user, show the token of that user as the first
-- authorization value, and the method ends with one of the methods of that user.
pub authorize_iff :
    (interceptor : AuthInterceptor) (instance_ : Instance) (ctx : Context) (method : String)
    → (authorize interceptor instance_ ctx method ≡ ok tt)
      ↔ (EndsWithOneOf method interceptor.exclude_methods ⊎ IsAuthorized instance_ ctx method)
authorize_iff interceptor instance_ ctx method = (
  authorize_cases interceptor instance_ ctx method,
  authorize_of_cases interceptor instance_ ctx method,
)

module _ {S A : Type 0} (instance_of : S → Instance) (lookup_addr : Resolver) where
  -- Whatever the handler does: either it ran, on the server's state as it was, and the result is its
  -- own; then the request was authorized and, with TLS, the peer's address matched its certificate.
  -- Or the state is as it was and an error is returned.
  pub unary_sound :
      (interceptor : AuthInterceptor) (ctx : Context) (method : String) (handler : Exec S A)
      (s t : S) (r : Result A)
      → unary instance_of lookup_addr interceptor ctx method handler s ≡ (r, t)
      → ((EndsWithOneOf method interceptor.exclude_methods
            ⊎ IsAuthorized (instance_of s) ctx method)
          × (interceptor.enable_tls ≡ true → IsEndpoint lookup_addr ctx.peer)
          × (handler s ≡ (r, t)))
        ⊎ ((t ≡ s) × ((e : Error) × (r ≡ err e)))
  unfolding unary
  unary_sound interceptor ctx method handler s t r h =
      elim (Result-cases (authorize interceptor (instance_of s) ctx method)) [
        | inl (u, e) ↦
            let allowed = authorize_cases interceptor (instance_of s) ctx method e in
            elim (Bool-cases interceptor.enable_tls) [
              | inl tls ↦ elim (Result-cases (check_endpoint lookup_addr ctx.peer)) [
                | inl (v, e') ↦
                    inl
                      (allowed, (λ _. (check_endpoint_iff lookup_addr ctx.peer).0 e'), ground arith)
                | inr (x, e') ↦ inr (ground arith, (x, ground arith))
              ]
              | inr plain ↦ inl (allowed, (λ tls. cc), ground arith)
            ]
        | inr (x, e) ↦ inr (ground arith, (x, ground arith))
      ]
