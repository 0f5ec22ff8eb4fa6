-- ===== src/Pk11/Ecdsa/Curves.antt =====
-- The object identifiers of curves in src/pk11/ecdsa.go: `oid` writes them and `oid2Curve` reads them.
use opentitan_provisioning.Base.{
  ◌≡◌, ◌≢◌, ◌↔◌, refl, subst, [], ◌∷◌, none, some, Result, ok, err, errorf, bytes_eq,
}
use opentitan_provisioning.Base.Dict.{Dict, lookup}
use opentitan_provisioning.Proto.{Bytes}

-- elliptic.Curve, for the curves that the package names.
pub data Curve : Type 0 where
  p256 p384 p521 other_curve : Curve

unfoldable pub oid : Curve → Result Bytes
oid p256 = ok (0x06 ∷ 0x08 ∷ 0x2a ∷ 0x86 ∷ 0x48 ∷ 0xce ∷ 0x3d ∷ 0x03 ∷ 0x01 ∷ 0x07 ∷ [])
oid p384 = ok (0x06 ∷ 0x05 ∷ 0x2b ∷ 0x81 ∷ 0x04 ∷ 0x00 ∷ 0x22 ∷ [])
oid p521 = ok (0x06 ∷ 0x08 ∷ 0x2a ∷ 0x86 ∷ 0x48 ∷ 0xce ∷ 0x3d ∷ 0x04 ∷ 0x03 ∷ 0x04 ∷ [])
oid other_curve = err (errorf "unsupported curve")

unfoldable pub oid2_curve : Dict Bytes Curve
oid2_curve =
    ((0x06 ∷ 0x08 ∷ 0x2a ∷ 0x86 ∷ 0x48 ∷ 0xce ∷ 0x3d ∷ 0x03 ∷ 0x01 ∷ 0x07 ∷ []), p256)
    ∷ ((0x06 ∷ 0x05 ∷ 0x2b ∷ 0x81 ∷ 0x04 ∷ 0x00 ∷ 0x22 ∷ []), p384)
    ∷ ((0x06 ∷ 0x08 ∷ 0x2a ∷ 0x86 ∷ 0x48 ∷ 0xce ∷ 0x3d ∷ 0x07 ∷ 0x03 ∷ 0x04 ∷ []), p521)
    ∷ []

ok_injective : {a b : Bytes} → ok a ≡ ok b → a ≡ b
ok_injective h = cc

read_back :
    (c : Curve) (a b : Bytes)
    → ok a ≡ ok b
    → lookup a oid2_curve ≡ some c
    → lookup b oid2_curve ≡ some c
read_back c a b h e = subst (λ x. lookup x oid2_curve ≡ some c) (ok_injective h) e

-- The identifier that a key of the curve is created with is recognised when the key is exported
-- exactly where the curve is not P-521: the two tables disagree on that curve.
pub oid2_curve-oid_iff :
    (c : Curve) (b : Bytes) → oid c ≡ ok b → (lookup b oid2_curve ≡ some c) ↔ (c ≢ p521)
unfolding oid oid2_curve lookup
oid2_curve-oid_iff p256 b h = (λ e same. cc, λ ne. read_back p256 _ b h refl)
oid2_curve-oid_iff p384 b h = (λ e same. cc, λ ne. read_back p384 _ b h refl)
oid2_curve-oid_iff p521 b h = (
  λ e. cc (subst (λ x. lookup x oid2_curve ≡ none) (ok_injective h) refl),
  λ ne. absurd (ne refl),
)
oid2_curve-oid_iff other_curve b h = cc
