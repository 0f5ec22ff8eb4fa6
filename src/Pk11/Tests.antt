-- ===== src/Pk11/Tests.antt =====
-- Concrete runs of the models of src/pk11.
use opentitan_provisioning.Base.{ℕ, ◌≡◌, ◌≢◌, ◌↔◌, refl, arith, List, [], ◌∷◌, ok, some, none, ℕ_eq}
use opentitan_provisioning.Base.Dict.{lookup, insert}
use opentitan_provisioning.Pk11.{Object}
use opentitan_provisioning.Pk11.Find.{find, object_of, class_secret_key}
use opentitan_provisioning.Pk11.Find.Search.{find_complete}
use opentitan_provisioning.Base.{bytes_eq}
use opentitan_provisioning.Pk11.Ecdsa.Curves.{oid, oid2_curve, p521, oid2_curve-oid_iff}
use opentitan_provisioning.Pk11.SoftToken.{soft_token, soft_search, idle, first_session}

abbrev seven : Object
seven = object_of first_session 7

find_complete_example :
    ((find soft_token 2 first_session (class_secret_key ∷ []) idle).0 ≡ ok (seven ∷ []))
    × (soft_search.searching (find soft_token 2 first_session (class_secret_key ∷ []) idle).1 1
        ≡ none)
unfolding lookup insert
find_complete_example =
    find_complete soft_token soft_search 2 first_session (class_secret_key ∷ []) idle (7 ∷ []) refl
      refl (omega arith)

abbrev p521_bytes : List ℕ
p521_bytes = 0x06 ∷ 0x08 ∷ 0x2a ∷ 0x86 ∷ 0x48 ∷ 0xce ∷ 0x3d ∷ 0x04 ∷ 0x03 ∷ 0x04 ∷ []

p521_oid : oid p521 ≡ ok p521_bytes
unfolding oid
p521_oid = refl

oid2_curve-oid_iff_example : (lookup p521_bytes oid2_curve ≡ some p521) ↔ (p521 ≢ p521)
oid2_curve-oid_iff_example = oid2_curve-oid_iff p521 p521_bytes p521_oid
