-- ===== src/Base/Exec.antt =====
-- Calls that change a state and may fail. What was written before a failure stays written, so the
-- state comes back beside an error too.
use mathlib.Core.Path.{◌≡◌, refl, ap}
use mathlib.Core.Logic.{◌≢◌}
use mathlib.Core.Bool.{Bool, true, false}
use native.Mathlib.Omega.{arith}
use opentitan_provisioning.Base.Errors.{
  Error, Result, ok, err, hangs, or_else, or_else-eq-ok, or_else-eq-err,
}

abbrev pub Exec {ℓ} : Type ℓ → Type ℓ → Type ℓ
Exec S A = S → Result A × S

abbrev pub pure {ℓ} : {S A : Type ℓ} → A → Exec S A
pure a s = (ok a, s)

abbrev pub raise {ℓ} : {S A : Type ℓ} → Error → Exec S A
raise e s = (err e, s)

abbrev pub lift {ℓ} : {S A : Type ℓ} → Result A → Exec S A
lift r s = (r, s)

abbrev pub continue {ℓ} : {S A B : Type ℓ} → Result A → (A → Exec S B) → Exec S B
continue (err e) next s = (err e, s)
continue (ok a) next s = next a s

infixl 10 ◌>>=◌ ◌>>◌
abbrev pub ◌>>=◌ {ℓ} : {S A B : Type ℓ} → Exec S A → (A → Exec S B) → Exec S B
◌>>=◌ m f s = continue (m s).0 f (m s).1

abbrev pub ◌>>◌ {ℓ} : {S A B : Type ℓ} → Exec S A → Exec S B → Exec S B
m >> k = m >>= λ _. k

-- `if err != nil { return ..., wrap(err) }`
abbrev pub or_raise {ℓ} : {S A : Type ℓ} → Exec S A → Error → Exec S A
or_raise m e s = (or_else (m s).0 e, (m s).1)

-- `if b { m }`
abbrev pub when : {S : Type 0} → Bool → Exec S (Unit {0}) → Exec S (Unit {0})
when true m = m
when false m = pure tt

-- Inversion of a successful run.
module _ {ℓ} {S A B : Type ℓ} where
  pub continue-eq-ok :
      (r : Result A) (f : A → Exec S B) (s : S) {b : B} {t : S}
      → continue r f s ≡ (ok b, t)
      → (a : A) × (r ≡ ok a) × (f a s ≡ (ok b, t))
  continue-eq-ok (ok a) f s h = (a, refl, h)
  continue-eq-ok (err e) f s h = cc

  pub >>=-eq-ok :
      (m : Exec S A) (f : A → Exec S B) (s : S) {b : B} {t : S}
      → (m >>= f) s ≡ (ok b, t)
      → (a : A) × ((m s).0 ≡ ok a) × (f a (m s).1 ≡ (ok b, t))
  >>=-eq-ok m f s h = continue-eq-ok (m s).0 f (m s).1 h

module _ {ℓ} {S A : Type ℓ} where
  pub or_raise-eq-ok :
      (m : Exec S A) (e : Error) (s : S) {a : A} {t : S}
      → or_raise m e s ≡ (ok a, t)
      → m s ≡ (ok a, t)
  or_raise-eq-ok m e s h = λ i. (or_else-eq-ok (m s).0 e (ap (λ p. p.0) h) i, (h i).1)

  pub or_raise-eq-err :
      (m : Exec S A) (e : Error) (s : S) {e' : Error} {t : S}
      → or_raise m e s ≡ (err e', t)
      → (raw : Error) × (m s ≡ (err raw, t))
  or_raise-eq-err m e s h =
      let (raw, failed, _) = or_else-eq-err (m s).0 e (ap (λ p. p.0) h) in
      (raw, λ i. (failed i, (h i).1))

-- An action that keeps a property of the state, whether it returns or fails.
pub record Keeps {ℓ} {S A : Type ℓ} (Inv : S → Type ℓ) (run : Exec S A) : Type ℓ where
  pub at : (before : S) → Inv before → Inv (run before).1

module _ {ℓ} {S A : Type ℓ} (Inv : S → Type ℓ) where
  pub pure-Keeps : (a : A) → Keeps Inv (pure a)
  pure-Keeps a = record { at = λ s p. p }

  pub raise-Keeps : (e : Error) → Keeps Inv (raise {A = A} e)
  raise-Keeps e = record { at = λ s p. p }

  pub lift-Keeps : (r : Result A) → Keeps Inv (lift r)
  lift-Keeps r = record { at = λ s p. p }

  pub or_raise-Keeps : (run : Exec S A) (e : Error) → Keeps Inv run → Keeps Inv (or_raise run e)
  or_raise-Keeps run e k = record { at = k.at }

module _ {ℓ} {S A B : Type ℓ} (Inv : S → Type ℓ) where
  continue-Keeps :
      (r : Result A) (next : A → Exec S B) (s : S)
      → ((a : A) → Keeps Inv (next a))
      → Inv s
      → Inv (continue r next s).1
  continue-Keeps (ok a) next s k p = (k a).at s p
  continue-Keeps (err e) next s k p = p

  pub >>=-Keeps :
      (run : Exec S A) (next : A → Exec S B)
      → Keeps Inv run
      → ((a : A) → Keeps Inv (next a))
      → Keeps Inv (run >>= next)
  >>=-Keeps run next k l = record {
    at = λ s p. continue-Keeps (run s).0 next (run s).1 l (k.at s p);
  }

-- An action that keeps a property of the state if it returns, be it with an error.
pub record Restores {ℓ} {S A : Type ℓ} (P : S → Type ℓ) (m : Exec S A) : Type ℓ where
  pub at : (s : S) → P s → (m s).0 ≢ err hangs → P (m s).1

module _ {ℓ} {S A : Type ℓ} (P : S → Type ℓ) where
  pub pure-Restores : (a : A) → Restores P (pure a)
  pure-Restores a = record { at = λ s p ne. p }

  pub lift-Restores : (r : Result A) → Restores P (lift r)
  lift-Restores r = record { at = λ s p ne. p }

  pub or_raise-Restores : (m : Exec S A) (e : Error) → Restores P m → Restores P (or_raise m e)
  or_raise-Restores m e k = record { at = λ s p ne. k.at s p (λ h. ne (rw h refl)) }

module _ {ℓ} {S A B : Type ℓ} (P : S → Type ℓ) where
  continue-Restores :
      (r : Result A) (f : A → Exec S B) (s : S)
      → ((a : A) → Restores P (f a))
      → (r ≢ err hangs → P s)
      → (continue r f s).0 ≢ err hangs
      → P (continue r f s).1
  continue-Restores (ok a) f s k p ne = (k a).at s (p (λ h. cc)) ne
  continue-Restores (err e) f s k p ne = p (λ h. ne (ground arith))

  pub >>=-Restores :
      (m : Exec S A) (f : A → Exec S B)
      → Restores P m
      → ((a : A) → Restores P (f a))
      → Restores P (m >>= f)
  >>=-Restores m f k l = record {
    at = λ s p ne. continue-Restores (m s).0 f (m s).1 l (k.at s p) ne;
  }
