-- ===== src/Utils/Passwords.antt =====
-- Passwords of src/utils/utils.go: the exclusive or of two byte arrays.
use opentitan_provisioning.Base.{◌<◌, ◌≡◌, ◌≢◌, refl, arith, [], ◌∷◌, length, All, ok, err, errorf}
use opentitan_provisioning.Proto.{Bytes}
use opentitan_provisioning.Utils.Bits.{xor, xor-xor}
use opentitan_provisioning.Utils.{xor_bytes, calc_xor_byte_arrays}

xor_bytes-length : (a b : Bytes) → length a ≡ length b → length (xor_bytes a b) ≡ length a
unfolding xor_bytes
xor_bytes-length [] bs e = refl
xor_bytes-length (a ∷ as_) [] e = omega (arith, e)
xor_bytes-length (a ∷ as_) (b ∷ bs) e = omega (arith, xor_bytes-length as_ bs (omega (arith, e)))

xor_bytes-xor_bytes :
    (a b : Bytes) → length a ≡ length b → All (λ x. x < 256) b → xor_bytes a (xor_bytes a b) ≡ b
unfolding xor_bytes
xor_bytes-xor_bytes [] [] e small = refl
xor_bytes-xor_bytes [] (b ∷ bs) e small = absurd (omega (arith, e))
xor_bytes-xor_bytes (a ∷ as_) [] e small = refl
xor_bytes-xor_bytes (a ∷ as_) (b ∷ bs) e (s, ss) =
    let first : xor 8 a (xor 8 a b) ≡ b = xor-xor 8 a b (omega (arith, s)) in
    let rest : xor_bytes as_ (xor_bytes as_ bs) ≡ bs =
      xor_bytes-xor_bytes as_ bs (omega (arith, e)) ss in
    λ i. first i ∷ rest i

-- CalcXorByteArrays fails exactly on arrays of different lengths; on arrays of one length a second
-- exclusive or with the first array gives the second array back, so that either password part can
-- be recovered from the result and the other part.
pub calc_xor_byte_arrays-involutive :
    (a b : Bytes)
    → All (λ x. x < 256) b
    → (length a ≡ length b
        → (r : Bytes) × (calc_xor_byte_arrays a b ≡ ok r) × (calc_xor_byte_arrays a r ≡ ok b))
      × (length a ≢ length b
          → calc_xor_byte_arrays a b ≡ err (errorf "byte arrays must have the same length"))
unfolding calc_xor_byte_arrays
calc_xor_byte_arrays-involutive a b small = (
  λ e. (
    xor_bytes a b,
    ground (arith, e),
    ground (arith, xor_bytes-length a b e, xor_bytes-xor_bytes a b e small),
  ),
  λ ne. ground arith,
)
