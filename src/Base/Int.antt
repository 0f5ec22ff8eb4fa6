-- ===== src/Base/Int.antt =====
-- Go's int where the program compares it with 0 or counts it down: the integers, which the program's
-- values never take far from 0. Their decimal text is that of strconv.Itoa and of `%d`.
use Prim.Native.Char.{Char}
use Prim.Native.Nat.{ℕ, zero, suc, ◌/◌, ◌%◌}
use Prim.Native.String.{String}
use mathlib.Core.Bool.{Bool, true, false}
use opentitan_provisioning.Base.Tests.{ltb, nat_eq, if◌then◌else◌}

-- negsuc n is -(n + 1).
pub data ℤ : Type 0 where
  pos : ℕ → ℤ
  negsuc : ℕ → ℤ

-- i < j
abbrev pub int_ltb : ℤ → ℤ → Bool
int_ltb (pos m) (pos n) = ltb m n
int_ltb (pos m) (negsuc n) = false
int_ltb (negsuc m) (pos n) = true
int_ltb (negsuc m) (negsuc n) = ltb n m

-- i--
abbrev pub decrement : ℤ → ℤ
decrement (pos zero) = negsuc 0
decrement (pos (suc n)) = pos n
decrement (negsuc n) = negsuc (suc n)

abbrev pub is_zero : ℤ → Bool
is_zero (pos n) = nat_eq n 0
is_zero (negsuc n) = false

digit : ℕ → Char
digit d =
    if ltb d 5
    then (if nat_eq d 0
        then "0"
        else if nat_eq d 1
        then "1"
        else if nat_eq d 2
        then "2"
        else if nat_eq d 3
        then "3"
        else "4")
    else if nat_eq d 5
    then "5"
    else if nat_eq d 6
    then "6"
    else if nat_eq d 7
    then "7"
    else if nat_eq d 8
    then "8"
    else "9"

-- A number has fewer digits than the fuel.
decimal : ℕ → ℕ → String → String
unfolding digit
decimal zero n digits = digits
decimal (suc fuel) n digits =
    let more = String.◌∷◌ (digit (n % 10)) digits in
    let rest = decimal fuel (n / 10) more in if ltb n 10 then more else rest

pub itoa : ℕ → String
unfolding decimal
itoa n = decimal (suc n) n String.[]

pub int_text : ℤ → String
unfolding itoa
int_text (pos n) = itoa n
int_text (negsuc n) = String.◌∷◌ "-" (itoa (suc n))
