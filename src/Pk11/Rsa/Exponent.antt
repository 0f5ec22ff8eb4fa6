-- ===== src/Pk11/Rsa/Exponent.antt =====
-- The public exponent of an RSA key on its way to the device and back: src/pk11/rsa.go writes it with
-- the most significant octet first, and reads it with bytes2uint.
use native.Mathlib.Nat.{pow-suc}
use mathlib.Core.List.{reverse-reverse, reverse-cons}
use opentitan_provisioning.Base.{
  ℕ, zero, suc, ◌/◌, ◌^◌, ◌<◌, ◌≤◌, ◌≡◌, ◌↔◌, refl, ap, sym, ◌∙◌, [], ◌∷◌, ◌++◌, reverse, length,
  length-append, arith, All, nat_eq, Bool-cases, inl, inr, subst, true, ltb,
}
use opentitan_provisioning.Proto.{Bytes}
use opentitan_provisioning.Pk11.Octets.{bytes2uint, le_value, bytes2uint-le_value}
use opentitan_provisioning.Pk11.Rsa.{le_octets, exponent_octets}

abbrev IsByte : ℕ → Type 0
IsByte b = b < 256

le_value-le_octets : (fuel n : ℕ) → n < 256 ^ fuel → le_value (le_octets fuel n) ≡ n
unfolding le_value le_octets
le_value-le_octets zero n h = omega arith
le_value-le_octets (suc fuel) n h =
    ground (arith, pow-suc 256 fuel, le_value-le_octets fuel (n / 256))

le_octets-bytes : (fuel n : ℕ) → All IsByte (le_octets fuel n)
unfolding le_octets
le_octets-bytes zero n = tt
le_octets-bytes (suc fuel) n = elim (Bool-cases (nat_eq n 0)) [
  | inl e ↦ rw e tt
  | inr e ↦ rw e (omega arith, le_octets-bytes fuel (n / 256))
]

le_octets-length : (fuel n : ℕ) → length (le_octets fuel n) ≤ fuel
unfolding le_octets
le_octets-length zero n = omega arith
le_octets-length (suc fuel) n = ground (arith, le_octets-length fuel (n / 256))

le_value-injective :
    (xs ys : Bytes)
    → All IsByte xs
    → All IsByte ys
    → length xs ≡ length ys
    → le_value xs ≡ le_value ys
    → xs ≡ ys
unfolding le_value
le_value-injective [] [] hx hy n e = refl
le_value-injective [] (y ∷ ys) hx hy n e = absurd (omega (arith, n))
le_value-injective (x ∷ xs) [] hx hy n e = absurd (omega (arith, n))
le_value-injective (x ∷ xs) (y ∷ ys) hx hy n e =
    let first : x ≡ y = omega (arith, e, hx.0, hy.0) in
    let rest : xs ≡ ys =
      le_value-injective xs ys hx.1 hy.1 (omega (arith, n)) (omega (arith, e, hx.0, hy.0)) in
    λ i. first i ∷ rest i

length-reverse : (xs : Bytes) → length (reverse xs) ≡ length xs
length-reverse [] = refl
length-reverse (x ∷ xs) =
    ap (λ l. length l) (reverse-cons x xs)
    ∙ omega (arith, length-append (reverse xs) (x ∷ []), length-reverse xs)

All-append : (xs ys : Bytes) → All IsByte xs → All IsByte ys → All IsByte (xs ++ ys)
All-append [] ys hx hy = hy
All-append (x ∷ xs) ys hx hy = (hx.0, All-append xs ys hx.1 hy)

All-reverse : (xs : Bytes) → All IsByte xs → All IsByte (reverse xs)
All-reverse [] h = tt
All-reverse (x ∷ xs) h =
    subst (All IsByte) (sym (reverse-cons x xs))
      (All-append (reverse xs) (x ∷ []) (All-reverse xs h.1) (h.0, tt))

-- A public exponent below 2^63 comes back from the device as it was written exactly when its octets
-- read the same from both ends, as those of 3, 17 and 65537 do: exportRSAPublic reads them with the
-- least significant first, and GenerateRSA and importRSAPrivate write the most significant first.
pub exponent_octets-palindrome_iff :
    (e : ℕ)
    → e < 2 ^ 63
    → (bytes2uint (exponent_octets e) ≡ e) ↔ (reverse (exponent_octets e) ≡ exponent_octets e)
unfolding exponent_octets
exponent_octets-palindrome_iff e h =
    let small : ltb e (2 ^ 63) ≡ true = ground arith in
    let ds = le_octets 8 e in
    let bytes = le_octets-bytes 8 e in
    let n = le_octets-length 8 e in
    let read =
      bytes2uint-le_value (reverse ds) (All-reverse ds bytes)
        (omega (arith, n, length-reverse ds)) in
    let value = le_value-le_octets 8 e (omega (arith, h)) in
    rw (small, reverse-reverse ds)
      (
        λ same. sym (
            le_value-injective (reverse ds) ds (All-reverse ds bytes) bytes (length-reverse ds)
              (sym read ∙ same ∙ sym value)),
        λ palindrome. read ∙ ap le_value (sym palindrome) ∙ value,
      )
