-- ===== src/Pk11/Octets.antt =====
-- Numbers as byte strings: the little-endian reading of src/pk11/object.go (bytes2uint), the
-- identifiers of src/pk11/pk11.go (appendAttrKeyID), and the big-endian reading of Go's math/big.
use native.Mathlib.Nat.{pow-suc, mod-eq_of_lt}
use native.Mathlib.Numerals.{towards_suc}
use opentitan_provisioning.Base.{
  ℕ, zero, suc, ◌+◌, ◌*◌, ◌/◌, ◌%◌, ◌^◌, ◌<◌, ◌≤◌, ◌≡◌, refl, [], ◌∷◌, arith, ◌∙◌, ap, length, All,
  true, leb, leb→le, all_below, all_below_sound,
}
use opentitan_provisioning.Proto.{Bytes}

-- x |= uint(b) << (i * 8): the bits below `i * 8` of the shifted byte are zero and `x` has no
-- others, so the OR is a sum; a shift by 64 or more gives 0.
bytes2uint_from : ℕ → ℕ → Bytes → ℕ
bytes2uint_from i x [] = x
bytes2uint_from i x (b ∷ bs) = bytes2uint_from (suc i) (x + (b * 2 ^ (i * 8)) % 2 ^ 64) bs

unfoldable pub bytes2uint : Bytes → ℕ
unfolding bytes2uint_from
bytes2uint buf = bytes2uint_from 0 0 buf

-- idBytes[i] = byte(id); id >>= 8
unfoldable pub id_bytes : ℕ → ℕ → Bytes
id_bytes zero id = []
id_bytes (suc n) id = (id % 256) ∷ id_bytes n (id / 256)

-- (*big.Int).SetBytes
set_bytes_from : ℕ → Bytes → ℕ
set_bytes_from x [] = x
set_bytes_from x (b ∷ bs) = set_bytes_from (x * 256 + b) bs

unfoldable pub set_bytes : Bytes → ℕ
unfolding set_bytes_from
set_bytes buf = set_bytes_from 0 buf

-- The little-endian value of a byte string.
unfoldable pub le_value : Bytes → ℕ
le_value [] = 0
le_value (b ∷ bs) = b + 256 * le_value bs

le_value-id_bytes : (n id : ℕ) → id < 256 ^ n → le_value (id_bytes n id) ≡ id
unfolding le_value id_bytes
le_value-id_bytes zero id h = omega arith
le_value-id_bytes (suc n) id h =
    omega (arith, pow-suc 256 n, le_value-id_bytes n (id / 256) (omega (arith, pow-suc 256 n)))

id_bytes-bytes : (n id : ℕ) → All (λ b. b < 256) (id_bytes n id)
unfolding id_bytes
id_bytes-bytes zero id = tt
id_bytes-bytes (suc n) id = (omega arith, id_bytes-bytes n (id / 256))

id_bytes-length : (n id : ℕ) → length (id_bytes n id) ≡ n
unfolding id_bytes
id_bytes-length zero id = refl
id_bytes-length (suc n) id = ap suc (id_bytes-length n (id / 256))

shift_step : (s : ℕ) → 2 ^ (s + 8) ≡ 256 * 2 ^ s
shift_step s = simp towards_suc (omega arith)

shift_suc : (i : ℕ) → 2 ^ (suc i * 8) ≡ 256 * 2 ^ (i * 8)
shift_suc i = ap (λ (t : ℕ). 2 ^ t) (omega arith) ∙ shift_step (i * 8)

shift_table : all_below 8 (λ i. leb (2 ^ (i * 8)) (2 ^ 56)) ≡ true
unfolding all_below
shift_table = refl

shift_bound : (i : ℕ) → i < 8 → 2 ^ (i * 8) ≤ 2 ^ 56
shift_bound i h = leb→le (2 ^ (i * 8)) (2 ^ 56) (all_below_sound 8 _ i shift_table h)

product_bound : (b p : ℕ) → b < 256 → p ≤ 2 ^ 56 → b * p < 2 ^ 64
product_bound b p h k = grind arith

shifted_byte : (i b : ℕ) → i < 8 → b < 256 → (b * 2 ^ (i * 8)) % 2 ^ 64 ≡ b * 2 ^ (i * 8)
shifted_byte i b h k = mod-eq_of_lt (product_bound b (2 ^ (i * 8)) k (shift_bound i h))

distribute : (x b p v : ℕ) → x + b * p + (256 * p) * v ≡ x + p * (b + 256 * v)
distribute x b p v = omega arith

-- At most eight bytes: nothing is shifted out.
bytes2uint_from-le_value :
    (i x : ℕ) (bs : Bytes)
    → All (λ b. b < 256) bs
    → i + length bs ≤ 8
    → bytes2uint_from i x bs ≡ x + 2 ^ (i * 8) * le_value bs
unfolding bytes2uint_from le_value
bytes2uint_from-le_value i x [] h k = omega arith
bytes2uint_from-le_value i x (b ∷ bs) h k =
    rw
      (
        shifted_byte i b (omega arith) h.0,
        bytes2uint_from-le_value (suc i) _ bs h.1 (omega arith),
        shift_suc,
      )
      (distribute x b (2 ^ (i * 8)) (le_value bs))

-- bytes2uint reads a string of at most eight bytes as its little-endian value.
pub bytes2uint-le_value :
    (bs : Bytes) → All (λ b. b < 256) bs → length bs ≤ 8 → bytes2uint bs ≡ le_value bs
unfolding bytes2uint
bytes2uint-le_value bs h k = bytes2uint_from-le_value 0 0 bs h (omega arith) ∙ omega arith

-- The identifier bytes that appendAttrKeyID writes are read back by bytes2uint as the 64-bit
-- number that was drawn.
pub bytes2uint-id_bytes : (id : ℕ) → id < 2 ^ 64 → bytes2uint (id_bytes 8 id) ≡ id
bytes2uint-id_bytes id h =
    bytes2uint-le_value (id_bytes 8 id) (id_bytes-bytes 8 id) (omega (arith, id_bytes-length 8 id))
    ∙ le_value-id_bytes 8 id (omega arith)
