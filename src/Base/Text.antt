-- ===== src/Base/Text.antt =====
-- The tests of Go's `strings` package that the program uses, over whole texts.
use Prim.Native.Nat.{ℕ, ◌+◌, ◌/◌, ◌%◌}
use Prim.Native.Char.{code}
use mathlib.Core.List.{List, [], ◌∷◌, ◌++◌}
use Prim.Native.String.{String}
use mathlib.Core.Path.{◌≡◌, refl, ap, subst, ◌∙◌}
use mathlib.Core.Bool.{Bool, true, ◌||◌, ◌&&◌}
use mathlib.Core.Logic.{inl, inr}
use text.Mathlib.TextPositions.{eq_refl}
use opentitan_provisioning.Base.Tests.{Bool-cases, ltb, if◌then◌else◌}
use native.Mathlib.Omega.{arith}
use text.Mathlib.Text.{◌==◌ as str_eq}
use text.Mathlib.TextEquality.{eq_iff}

-- s + t, by recursion on the first.
unfoldable pub concat : String → String → String
concat String.[] t = t
concat (String.◌∷◌ c s) t = String.◌∷◌ c (concat s t)

-- strings.HasSuffix: `t` is one of the tails of `s`.
unfoldable pub has_suffix : String → String → Bool
has_suffix String.[] t = str_eq String.[] t
has_suffix (String.◌∷◌ c s) t = str_eq (String.◌∷◌ c s) t || has_suffix s t

pub has_suffix-concat : (p t : String) → has_suffix (concat p t) t ≡ true
unfolding has_suffix concat
has_suffix-concat String.[] String.[] = refl
has_suffix-concat String.[] (String.◌∷◌ c t) = rw (eq_refl (String.◌∷◌ c t))
has_suffix-concat (String.◌∷◌ c p) t = ground (arith, has_suffix-concat p t)

pub concat_of_has_suffix : (s t : String) → has_suffix s t ≡ true → (p : String) × (s ≡ concat p t)
unfolding has_suffix concat
concat_of_has_suffix String.[] t h = (String.[], (eq_iff String.[] t).0 h)
concat_of_has_suffix (String.◌∷◌ c s) t h = elim (Bool-cases (str_eq (String.◌∷◌ c s) t)) [
  | inl same ↦ (String.[], (eq_iff _ t).0 same)
  | inr other ↦
      let (p, e) = concat_of_has_suffix s t (ground arith) in
      (String.◌∷◌ c p, ap (λ r. String.◌∷◌ c r) e)
]

-- The UTF-8 encoding of a code point, and the bytes of a text: []byte(s).
utf8_of : ℕ → List ℕ
utf8_of c =
    if ltb c 0x80
    then c ∷ []
    else if ltb c 0x800
    then (0xc0 + c / 64) ∷ (0x80 + c % 64) ∷ []
    else if ltb c 0x10000
    then (0xe0 + c / 4096) ∷ (0x80 + (c / 64) % 64) ∷ (0x80 + c % 64) ∷ []
    else (0xf0 + c / 262144)
      ∷ (0x80 + (c / 4096) % 64)
      ∷ (0x80 + (c / 64) % 64)
      ∷ (0x80 + c % 64)
      ∷ []

unfoldable pub bytes_of : String → List ℕ
unfolding utf8_of
bytes_of String.[] = []
bytes_of (String.◌∷◌ c s) = utf8_of (code c) ++ bytes_of s

-- strings.HasPrefix, character by character.
unfoldable pub has_prefix : String → String → Bool
has_prefix String.[] t = str_eq String.[] t
has_prefix (String.◌∷◌ c s) String.[] = true
has_prefix (String.◌∷◌ c s) (String.◌∷◌ d t) =
    str_eq (String.◌∷◌ c String.[]) (String.◌∷◌ d String.[]) && has_prefix s t

pub concat_of_has_prefix : (s t : String) → has_prefix s t ≡ true → (r : String) × (s ≡ concat t r)
unfolding has_prefix concat
concat_of_has_prefix String.[] t h =
    (String.[], subst (λ u. String.[] ≡ concat u String.[]) ((eq_iff String.[] t).0 h) refl)
concat_of_has_prefix (String.◌∷◌ c s) String.[] h = (String.◌∷◌ c s, refl)
concat_of_has_prefix (String.◌∷◌ c s) (String.◌∷◌ d t) h =
    let (r, e) = concat_of_has_prefix s t (ground arith) in
    let same = (eq_iff (String.◌∷◌ c String.[]) (String.◌∷◌ d String.[])).0 (ground arith) in
    (r, ap (λ u. concat u s) same ∙ ap (λ u. String.◌∷◌ d u) e)

pub has_prefix-concat : (t r : String) → has_prefix (concat t r) t ≡ true
unfolding has_prefix concat
has_prefix-concat String.[] String.[] = refl
has_prefix-concat String.[] (String.◌∷◌ c r) = refl
has_prefix-concat (String.◌∷◌ c t) r =
    ground (arith, has_prefix-concat t r, eq_iff (String.◌∷◌ c String.[]) (String.◌∷◌ c String.[]))
