-- ===== src/Pk11/Connect.antt =====
-- src/pk11/pk11.go: tokens, sessions, logins, the identifiers given to new keys, and hashing.
use opentitan_provisioning.Base.{
  ℕ, not, List, [], ◌∷◌, ◌++◌, String, Result, ok, err, errorf, ckr, panic, hangs, status, Error,
  if◌then◌else◌, ltb, nat_eq,
}
use opentitan_provisioning.Base.Exec.{Exec, ◌>>=◌, ◌>>◌, pure, raise, or_raise}
use opentitan_provisioning.Proto.{Bytes}
use opentitan_provisioning.Pk11.{
  Ctx, Session, Attribute, new_attribute, cka_id, octets, ckr_user_already_logged_in,
  ckr_cryptoki_already_initialized,
}
use opentitan_provisioning.Pk11.Octets.{id_bytes}

-- type UserType; the last case is any other number.
pub data UserType : Type 0 where
  normal_user security_officer_user other_user : UserType

-- crypto.Hash, for the functions that the program names.
pub data Hash : Type 0 where
  sha256 sha384 sha512 no_hash : Hash

-- What Go's crypto packages compute: a digest where the hash is linked in. hash.Hash.Write takes
-- the whole message at once and returns no error.
abbrev pub Digest : Type 0
Digest = Hash → Bytes → Result Bytes

module _ {H : Type 0} (ctx : Ctx H) where
  -- A Token of the source is the slot; the Mod is `ctx`.
  unfoldable pub tokens : Exec H (List ℕ)
  tokens = or_raise ctx.get_slot_list (errorf "could not stat tokens")

  unfoldable pub open_session : ℕ → Exec H Session
  open_session slot = do
    raw ← or_raise (ctx.open_session slot) (errorf "could not open session on slot")
    pure (record { slot = slot; raw = raw })

  -- The error of a call that may return one expected code. Any other error that is no PKCS#11 return
  -- code makes the type assertion panic.
  tolerate : ℕ → Error → Result (Unit {0}) → Result (Unit {0})
  tolerate expected e (ok u) = ok tt
  tolerate expected e (err (ckr n)) = if nat_eq n expected then ok tt else err e
  tolerate expected e (err (panic m)) = err (panic m)
  tolerate expected e (err hangs) = err hangs
  tolerate expected e (err (errorf _)) = err (panic "interface conversion")
  tolerate expected e (err (status _ _)) = err (panic "interface conversion")

  initialized : Exec H (Unit {0})
  unfolding tolerate
  initialized h = (
    tolerate ckr_cryptoki_already_initialized (errorf "could not initialize module")
        (ctx.initialize h).0,
    (ctx.initialize h).1,
  )

  unfoldable pub load : String → Exec H (Unit {0})
  unfolding initialized
  load so_path = if not (ctx.new_ctx so_path) then raise (errorf "could not load module") else do
    initialized
    major ← or_raise ctx.get_info (errorf "could not retrieve module information")
    pure tt

  -- CKR_USER_ALREADY_LOGGED_IN is no failure.
  login_as : ℕ → Session → String → Exec H (Unit {0})
  unfolding tolerate
  login_as user_type s pin h = (
    tolerate ckr_user_already_logged_in (errorf "could not log in")
        (ctx.login s.raw user_type pin h).0,
    (ctx.login s.raw user_type pin h).1,
  )

  -- CKU_SO is 0 and CKU_USER is 1.
  unfoldable pub login : Session → UserType → String → Exec H (Unit {0})
  unfolding login_as
  login s normal_user pin = login_as 1 s pin
  login s security_officer_user pin = login_as 0 s pin
  login s other_user pin = raise (errorf "unknown user type")

  -- PKCS#11 before version 3 wants the identifier in the template. The number is drawn from the
  -- package's own generator, once for all the templates of a call.
  key_id_attributes : Exec H (List Attribute)
  key_id_attributes h =
      if ltb ctx.major 3
      then (
        ok (new_attribute cka_id (octets (id_bytes 8 (ctx.next_id h).0)) ∷ []),
        (ctx.next_id h).1,
      )
      else (ok [], h)

  -- appendAttrKeyID, called with one template and with two.
  unfoldable pub append_attr_key_id : List Attribute → Exec H (List Attribute)
  unfolding key_id_attributes
  append_attr_key_id tpl = do id ← key_id_attributes; pure (tpl ++ id)

  unfoldable pub append_attr_key_id_pair :
      List Attribute → List Attribute → Exec H (List Attribute × List Attribute)
  unfolding key_id_attributes
  append_attr_key_id_pair pub_tpl priv_tpl = do
    id ← key_id_attributes
    pure (pub_tpl ++ id, priv_tpl ++ id)

unfoldable pub make_hash : Digest → Hash → Bytes → Result Bytes
make_hash digest hash message = digest hash message
