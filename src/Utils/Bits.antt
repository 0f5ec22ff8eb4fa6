-- ===== src/Utils/Bits.antt =====
-- Exclusive or of numbers below 2 ^ n, bit by bit.
use opentitan_provisioning.Base.{ℕ, zero, suc, ◌+◌, ◌*◌, ◌/◌, ◌%◌, ◌^◌, ◌<◌, ◌≡◌, arith}
use native.Mathlib.Nat.{pow-suc}

unfoldable pub xor : ℕ → ℕ → ℕ → ℕ
xor zero a b = 0
xor (suc n) a b = (a + b) % 2 + 2 * xor n (a / 2) (b / 2)

half_lt : (n b : ℕ) → b < 2 ^ suc n → b / 2 < 2 ^ n
half_lt n b lt = omega (arith, pow-suc 2 n)

pub xor-xor : (n a b : ℕ) → b < 2 ^ n → xor n a (xor n a b) ≡ b
unfolding xor
xor-xor zero a b lt = omega arith
xor-xor (suc n) a b lt =
    let rest : ℕ = xor n (a / 2) (b / 2) in
    let half : xor n (a / 2) rest ≡ b / 2 = xor-xor n (a / 2) (b / 2) (half_lt n b lt) in
    let bit : ((a + b) % 2 + 2 * rest) / 2 ≡ rest = omega arith in
    let inner : xor n (a / 2) (((a + b) % 2 + 2 * rest) / 2) ≡ b / 2 = rw bit half in
    omega (arith, inner)
