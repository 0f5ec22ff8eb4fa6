-- ===== src/Pk11/Find/Search.antt =====
-- The search of src/pk11/object.go against a device that answers it as PKCS#11 prescribes.
use mathlib.Core.List.{append-nil, append_assoc, map-append}
use opentitan_provisioning.Base.{
  ℕ, zero, suc, ◌<◌, ◌≡◌, ◌↔◌, refl, List, [], ◌∷◌, ◌++◌, map, String, Option, none, some, Result,
  ok, arith, length, take, drop, take-append-drop, length-drop,
}
use opentitan_provisioning.Proto.{Bytes}
use opentitan_provisioning.Pk11.{Ctx, Session, Object, Attribute}
use opentitan_provisioning.Pk11.Find.{
  uid_attribute, object_of, the_unique, find_loop, find, find_unique,
}

-- A search belongs to a session, in which C_FindObjectsInit begins it: then C_FindObjects returns the
-- next handles, at most as many as asked for, and C_FindObjectsFinal ends it. Nothing is said of these
-- calls in a session without a search.
pub record IsSearch {H : Type 0} (ctx : Ctx H) : Type 0 where
  pub searching : H → ℕ → Option (List ℕ)
  pub found :
      (s n : ℕ) (h : H) (p : List ℕ)
      → searching h s ≡ some p
      → (ctx.find_objects s n h).0 ≡ ok (take n p)
  pub rest :
      (s n : ℕ) (h : H) (p : List ℕ)
      → searching h s ≡ some p
      → searching (ctx.find_objects s n h).1 s ≡ some (drop n p)
  pub ends :
      (s : ℕ) (h : H) (p : List ℕ) → searching h s ≡ some p → (ctx.find_objects_final s h).0 ≡ ok tt
  pub over :
      (s : ℕ) (h : H) (p : List ℕ)
      → searching h s ≡ some p
      → searching (ctx.find_objects_final s h).1 s ≡ none

module _ {H : Type 0} (ctx : Ctx H) (search : IsSearch ctx) where
  regroup :
      (s : Session) (objs : List Object) (n : ℕ) (p : List ℕ)
      → (objs ++ map (object_of s) (take n p)) ++ map (object_of s) (drop n p)
        ≡ objs ++ map (object_of s) p
  regroup s objs n p = rw (append_assoc, ← map-append, take-append-drop)

  -- The loop has read all the handles `p`, and the search has none left.
  abbrev HasRead : Session → List Object → List ℕ → Result (List Object) × H → Type 0
  HasRead s objs p (r, h) =
      (r ≡ ok (objs ++ map (object_of s) p)) × (search.searching h s.raw ≡ some [])

  find_loop_step :
      (n : ℕ) (s : Session) (objs : List Object) (h : H) (p : List ℕ)
      → ((objs' : List Object) (h' : H) (q : List ℕ)
          → search.searching h' s.raw ≡ some q
          → length q < n
          → HasRead s objs' q (find_loop ctx n s objs' h'))
      → search.searching h s.raw ≡ some p
      → length p < suc n
      → HasRead s objs p (find_loop ctx (suc n) s objs h)
  unfolding find_loop
  find_loop_step n s objs h [] ih e k =
      let found = search.found s.raw 32 h [] e in
      let left = search.rest s.raw 32 h [] e in
      (ground (arith, found, append-nil objs), ground (arith, found, left))
  find_loop_step n s objs h (x ∷ xs) ih e k =
      let h' : H = (ctx.find_objects s.raw 32 h).1 in
      let objs' : List Object = objs ++ map (object_of s) (x ∷ take 31 xs) in
      let left = search.rest s.raw 32 h (x ∷ xs) e in
      let found = search.found s.raw 32 h (x ∷ xs) e in
      let (later, over) = ih objs' h' (drop 31 xs) left (omega (arith, k, length-drop 31 xs)) in
      (ground (arith, found, later, regroup s objs 32 (x ∷ xs)), ground (arith, found, over))

  -- With more fuel than handles are pending, the loop returns them all, in order.
  pub find_loop_complete :
      (n : ℕ) (s : Session) (objs : List Object) (h : H) (p : List ℕ)
      → search.searching h s.raw ≡ some p
      → length p < n
      → HasRead s objs p (find_loop ctx n s objs h)
  find_loop_complete zero s objs h p e k = elim k [ ]
  find_loop_complete (suc n) s objs h p e k =
      find_loop_step n s objs h p (find_loop_complete n s) e k

  module _ (fuel : ℕ) (s : Session) (attributes : List Attribute) (h : H) (p : List ℕ)
      (begun : (ctx.find_objects_init s.raw attributes h).0 ≡ ok tt)
      (answer : search.searching (ctx.find_objects_init s.raw attributes h).1 s.raw ≡ some p)
      (enough : length p < fuel) where
    -- Where the device begins the search in the session, and answers it with any number of handles,
    -- then with fuel for more reads than there are handles `find` returns exactly their objects, in
    -- order, however many rounds of 32 that takes; the loop ends, and so does the search.
    pub find_complete :
        ((find ctx fuel s attributes h).0 ≡ ok (map (object_of s) p))
        × (search.searching (find ctx fuel s attributes h).1 s.raw ≡ none)
    unfolding find
    find_complete =
        let start = (ctx.find_objects_init s.raw attributes h).1 in
        let (all, read) = find_loop_complete fuel s [] start p answer enough in
        let ends = search.ends s.raw (find_loop ctx fuel s [] start).1 [] read in
        let over = search.over s.raw (find_loop ctx fuel s [] start).1 [] read in
        (ground (arith, begun, all, ends), ground (arith, begun, all, ends, over))

the_unique_iff :
    (missing many : String) (s : Session) (p : List ℕ) (o : Object)
    → (the_unique missing many (map (object_of s) p) ≡ ok o)
      ↔ ((raw : ℕ) × (p ≡ raw ∷ []) × (o ≡ object_of s raw))
unfolding the_unique
the_unique_iff missing many s [] o = (λ h. cc, λ (raw, e, same). cc)
the_unique_iff missing many s (x ∷ []) o =
    (λ h. (x, refl, ground arith), λ (raw, e, same). ground arith)
the_unique_iff missing many s (x ∷ y ∷ p) o = (λ h. cc, λ (raw, e, same). ground arith)

module _ {H : Type 0} (ctx : Ctx H) (search : IsSearch ctx) (fuel : ℕ) (s : Session)
    (class : Attribute) (uid : Bytes) (h : H) (p : List ℕ)
    (begun : (ctx.find_objects_init s.raw (class ∷ uid_attribute uid ∷ []) h).0 ≡ ok tt)
    (answer : search.searching
        (ctx.find_objects_init s.raw (class ∷ uid_attribute uid ∷ []) h).1
        s.raw
      ≡ some p)
    (enough : length p < fuel) where
  found_all : (find ctx fuel s (class ∷ uid_attribute uid ∷ []) h).0 ≡ ok (map (object_of s) p)
  found_all =
      (find_complete ctx search fuel s (class ∷ uid_attribute uid ∷ []) h p begun answer enough).0

  find_unique_value :
      (find_unique ctx fuel s class uid h).0
      ≡ the_unique "could not find object with UID" "found multiple objects with UID"
          (map (object_of s) p)
  unfolding find_unique
  find_unique_value = ground (arith, found_all)

  -- The search of findUnique is over when it returns.
  pub find_unique-searching : search.searching (find_unique ctx fuel s class uid h).1 s.raw ≡ none
  unfolding find_unique
  find_unique-searching =
      let over =
        (find_complete ctx search fuel s (class ∷ uid_attribute uid ∷ []) h p begun answer
          enough).1 in
      ground (arith, found_all, over)

  -- findUnique returns an object exactly when the device's answer to the search for the class and
  -- identifier is that one handle: none and several are errors.
  pub find_unique_iff :
      (o : Object)
      → ((find_unique ctx fuel s class uid h).0 ≡ ok o)
        ↔ ((raw : ℕ) × (p ≡ raw ∷ []) × (o ≡ object_of s raw))
  find_unique_iff o = rw find_unique_value (the_unique_iff _ _ s p o)
