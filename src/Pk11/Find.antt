-- ===== src/Pk11/Find.antt =====
-- src/pk11/object.go: the search for objects, their attributes, and the keys found by identifier or
-- by label. The loop of `find` ends when the library returns no handle; it runs on fuel here, and
-- Pk11/Find/Search.antt has how much is enough.
pub mod Search
use opentitan_provisioning.Base.{
  ℕ, zero, suc, ◌≡◌, Bool, true, false, List, [], ◌∷◌, ◌++◌, map, String, Option, none, some,
  Result, ok, err, errorf, hangs, panic, Error, if◌then◌else◌, nat_eq,
}
use opentitan_provisioning.Base.Exec.{Exec, ◌>>=◌, ◌>>◌, pure, raise, or_raise, lift}
use opentitan_provisioning.Proto.{Bytes}
use opentitan_provisioning.Pk11.{
  Ctx, Session, Object, Attribute, AttributeType, new_attribute, cka_class, cka_id, cka_label,
  cka_key_type, number, text, octets, cko_public_key, cko_private_key, cko_secret_key, cka_value,
  ckk_aes,
}
use opentitan_provisioning.Pk11.Octets.{bytes2uint}

abbrev pub class_public_key : Attribute
class_public_key = new_attribute cka_class (number cko_public_key)

abbrev pub class_private_key : Attribute
class_private_key = new_attribute cka_class (number cko_private_key)

abbrev pub class_secret_key : Attribute
class_secret_key = new_attribute cka_class (number cko_secret_key)

-- UID and Label
abbrev pub uid_attribute : Bytes → Attribute
uid_attribute uid = new_attribute cka_id (octets uid)

abbrev pub label_attribute : String → Attribute
label_attribute label = new_attribute cka_label (text label)

abbrev pub object_of : Session → ℕ → Object
object_of s raw = record { sess = s; raw = raw }

-- `switch len(objs)`
pub the_unique : String → String → List Object → Result Object
the_unique missing many [] = err (errorf missing)
the_unique missing many (o ∷ []) = ok o
the_unique missing many (o ∷ p ∷ objs) = err (errorf many)

module _ {H : Type 0} (ctx : Ctx H) where
  -- Each round asks for at most 32 handles.
  unfoldable pub find_loop : ℕ → Session → List Object → Exec H (List Object)
  find_loop zero s objs = raise hangs
  find_loop (suc n) s objs =
      or_raise (ctx.find_objects s.raw 32) (errorf "could not continue search for objects")
      >>= λ raw. elim raw [
        | [] ↦ pure objs
        | o ∷ os ↦ find_loop n s (objs ++ map (object_of s) (o ∷ os))
      ]

module _ {H : Type 0} (ctx : Ctx H) (fuel : ℕ) where
  unfoldable pub find : Session → List Attribute → Exec H (List Object)
  find s attrs = do
    or_raise (ctx.find_objects_init s.raw attrs) (errorf "could not begin search for objects")
    objs ← find_loop ctx fuel s []
    or_raise (ctx.find_objects_final s.raw) (errorf "could not complete search for objects")
    pure objs

  unfoldable pub find_unique : Session → Attribute → Bytes → Exec H Object
  unfolding the_unique
  find_unique s class uid = do
    objs ← find s (class ∷ uid_attribute uid ∷ [])
    lift (the_unique "could not find object with UID" "found multiple objects with UID" objs)

  unfoldable pub find_unique_by_label : Session → Attribute → String → Exec H Object
  unfolding the_unique
  find_unique_by_label s class label = do
    objs ← find s (class ∷ label_attribute label ∷ [])
    lift (the_unique "could not find object with LABEL" "found multiple objects with LABEL" objs)

  unfoldable pub find_public_key : Session → Bytes → Exec H Object
  find_public_key s uid = find_unique s class_public_key uid

  unfoldable pub find_private_key : Session → Bytes → Exec H Object
  find_private_key s uid = find_unique s class_private_key uid

  unfoldable pub find_secret_key : Session → Bytes → Exec H Object
  find_secret_key s uid = find_unique s class_secret_key uid

  unfoldable pub find_key_by_label : Session → Attribute → String → Exec H Object
  find_key_by_label s class_key label = find_unique_by_label s class_key label

  -- The zero KeyPair is `none`.
  pair_or_empty :
      Result Object
      → (Object → Exec H (Option (Object × Object)))
      → Exec H (Option (Object × Object))
  pair_or_empty (ok o) f h = f o h
  pair_or_empty (err hangs) f h = (err hangs, h)
  pair_or_empty (err (panic m)) f h = (err (panic m), h)
  pair_or_empty (err _) f h = (ok none, h)

  -- An error of either search is dropped: the source returns an empty pair and no error.
  unfoldable pub find_key_pair : Session → Bytes → Exec H (Option (Object × Object))
  unfolding pair_or_empty
  find_key_pair s uid h =
      let p = find_public_key s uid h in
      pair_or_empty p.0
        (λ pub_key h'.
          let q = find_private_key s uid h' in
          pair_or_empty q.0 (λ priv_key. pure (some (pub_key, priv_key))) q.1)
        p.1

  unfoldable pub find_all_keys : Session → Exec H (List Object)
  find_all_keys s = do
    public ← find s (class_public_key ∷ [])
    private ← find s (class_private_key ∷ [])
    secret ← find s (class_secret_key ∷ [])
    pure (public ++ (private ++ secret))

-- A nil slice is read as an empty one.
abbrev pub or_nil : Option Bytes → Bytes
or_nil none = []
or_nil (some b) = b

module _ {H : Type 0} (ctx : Ctx H) where
  unfoldable pub attrs : Object → List AttributeType → Exec H (List (Option Bytes))
  attrs o types =
      or_raise (ctx.get_attribute_value o.sess.raw o.raw types)
        (errorf "could not retrieve attributes")

  -- attrs[0].Value
  first : List (Option Bytes) → Result (Option Bytes)
  first [] = err (panic "index out of range")
  first (v ∷ vs) = ok v

  unfoldable pub attr : Object → AttributeType → Exec H Bytes
  unfolding first
  attr o typ = do values ← attrs o (typ ∷ []); value ← lift (first values); pure (or_nil value)

  unfoldable pub int : Object → AttributeType → Exec H ℕ
  int o typ = do value ← attr o typ; pure (bytes2uint value)

  unfoldable pub destroy : Object → Exec H (Unit {0})
  destroy o = or_raise (ctx.destroy_object o.sess.raw o.raw) (errorf "could not destroy object")

  unfoldable pub uid : Object → Exec H (Option Bytes)
  unfolding first
  uid o = do values ← attrs o (cka_id ∷ []); lift (first values)

  unfoldable pub label : Object → Exec H Bytes
  label o = attr o cka_label

  unfoldable pub set_label : Object → String → Exec H (Unit {0})
  set_label o l =
      or_raise (ctx.set_attribute_value o.sess.raw o.raw (label_attribute l ∷ []))
        (errorf "could not set label attribute")
