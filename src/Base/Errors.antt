-- ===== src/Base/Errors.antt =====
-- Go's `(value, error)` results. An error is a gRPC status with its code, or a plain error; its text
-- is the fixed part of the source's format string, and what the string interpolates is left out.
-- `ckr` is the return code of a PKCS#11 library. A run-time panic and a call that does not return,
-- because a loop has used up its fuel or a channel is empty, are no errors of the source: no caller
-- wraps them.
use Prim.Native.Nat.{ℕ}
use Prim.Native.String.{String}
use mathlib.Core.Path.{◌≡◌, refl}
use mathlib.Core.Bool.{Bool, true, false}
use mathlib.Core.Logic.{◌⊎◌, inl, inr}

-- The codes of google.golang.org/grpc/codes that the program uses.
pub data Code : Type 0 where
  internal not_found invalid_argument unauthenticated permission_denied unimplemented : Code

pub data Error : Type 0 where
  status : Code → String → Error
  errorf : String → Error
  ckr : ℕ → Error
  panic : String → Error
  hangs : Error

-- `fmt.Errorf("...: %v", err)`: the caller's text replaces the callee's.
abbrev pub wrapped : Error → Error → Error
wrapped (status _ _) e = e
wrapped (errorf _) e = e
wrapped (ckr _) e = e
wrapped (panic m) e = panic m
wrapped hangs e = hangs

pub data Result {ℓ} (V : Type ℓ) : Type ℓ where
  ok : V → Result V
  err : Error → Result V

infixl 5 ◌>>=◌ ◌>>◌
abbrev pub ◌>>=◌ {ℓ κ} : {V : Type ℓ} {W : Type κ} → Result V → (V → Result W) → Result W
err raised >>= next = err raised
ok value >>= next = next value

abbrev pub ◌>>◌ {ℓ} : {W : Type ℓ} → Result (Unit {0}) → Result W → Result W
first >> second = first >>= λ _. second

-- `if err != nil { return ..., wrap(err) }`: the error of a callee is replaced by the caller's.
abbrev pub or_else {ℓ} : {A : Type ℓ} → Result A → Error → Result A
or_else (ok a) e = ok a
or_else (err raw) e = err (wrapped raw e)

abbrev pub is_ok {ℓ} : {A : Type ℓ} → Result A → Bool
is_ok (ok _) = true
is_ok (err _) = false

pub Result-cases {ℓ} :
    {A : Type ℓ} (r : Result A) → ((a : A) × (r ≡ ok a)) ⊎ ((e : Error) × (r ≡ err e))
Result-cases (ok a) = inl (a, refl)
Result-cases (err e) = inr (e, refl)

-- Inversion of a successful bind, for proofs where the parts stay shut.
pub >>=-eq-ok {ℓ κ} :
    {V : Type ℓ} {W : Type κ} (first : Result V) (next : V → Result W) {w : W}
    → (first >>= next) ≡ ok w
    → (v : V) × (first ≡ ok v) × (next v ≡ ok w)
>>=-eq-ok (err raised) next h = cc
>>=-eq-ok (ok v) next h = (v, refl, h)

pub or_else-eq-ok {ℓ} :
    {A : Type ℓ} (m : Result A) (e : Error) {a : A} → or_else m e ≡ ok a → m ≡ ok a
or_else-eq-ok (ok a) e h = h
or_else-eq-ok (err raw) e h = cc

pub or_else-eq-err {ℓ} :
    {A : Type ℓ} (m : Result A) (e : Error) {e' : Error}
    → or_else m e ≡ err e'
    → (raw : Error) × (m ≡ err raw) × (e' ≡ wrapped raw e)
or_else-eq-err (ok a) e h = cc
or_else-eq-err (err raw) e h = (raw, refl, cc)
