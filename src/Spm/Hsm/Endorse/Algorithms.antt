-- ===== src/Spm/Hsm/Endorse/Algorithms.antt =====
-- The digests and identifiers of the signature algorithms in src/spm/services/se_pk11.go.
use opentitan_provisioning.Base.{◌≡◌, subst, [], ◌∷◌, ok}
use opentitan_provisioning.Pk11.Connect.{Hash, sha256, sha384, sha512}
use opentitan_provisioning.Spm.SecureElement.{
  SignatureAlgorithm, ecdsa_with_sha256, ecdsa_with_sha384, ecdsa_with_sha512,
  unknown_signature_algorithm,
}
use opentitan_provisioning.Spm.Hsm.Endorse.{
  ObjectIdentifier, oid_from_signature_algorithm, hash_from_signature_algorithm,
}

-- RFC 5758, section 3.2: the digest and the identifier of each algorithm.
pub data Matches : SignatureAlgorithm → Hash → ObjectIdentifier → Type 0 where
  with_sha256 : Matches ecdsa_with_sha256 sha256 (1 ∷ 2 ∷ 840 ∷ 10045 ∷ 4 ∷ 3 ∷ 2 ∷ [])
  with_sha384 : Matches ecdsa_with_sha384 sha384 (1 ∷ 2 ∷ 840 ∷ 10045 ∷ 4 ∷ 3 ∷ 3 ∷ [])
  with_sha512 : Matches ecdsa_with_sha512 sha512 (1 ∷ 2 ∷ 840 ∷ 10045 ∷ 4 ∷ 3 ∷ 4 ∷ [])

-- The digest alone.
pub data Digests : SignatureAlgorithm → Hash → Type 0 where
  digests_sha256 : Digests ecdsa_with_sha256 sha256
  digests_sha384 : Digests ecdsa_with_sha384 sha384
  digests_sha512 : Digests ecdsa_with_sha512 sha512

pub ok_eq : {A : Type 0} {a b : A} → ok a ≡ ok b → a ≡ b
ok_eq e = cc

matched :
    {alg : SignatureAlgorithm} {hash hash' : Hash} {oid oid' : ObjectIdentifier}
    → Matches alg hash oid
    → ok hash ≡ ok hash'
    → ok oid ≡ ok oid'
    → Matches alg hash' oid'
matched {alg} {hash' = hash'} {oid = oid} m h o =
    subst (Matches alg hash') (ok_eq o) (subst (λ x. Matches alg x oid) (ok_eq h) m)

pub both_from :
    (alg : SignatureAlgorithm) (hash : Hash) (oid : ObjectIdentifier)
    → hash_from_signature_algorithm alg ≡ ok hash
    → oid_from_signature_algorithm alg ≡ ok oid
    → Matches alg hash oid
unfolding hash_from_signature_algorithm oid_from_signature_algorithm
both_from ecdsa_with_sha256 hash oid h o = matched Matches.with_sha256 h o
both_from ecdsa_with_sha384 hash oid h o = matched Matches.with_sha384 h o
both_from ecdsa_with_sha512 hash oid h o = matched Matches.with_sha512 h o
both_from unknown_signature_algorithm hash oid h o = cc

pub hash_from_signature_algorithm-Digests :
    (alg : SignatureAlgorithm) (hash : Hash)
    → hash_from_signature_algorithm alg ≡ ok hash
    → Digests alg hash
unfolding hash_from_signature_algorithm
hash_from_signature_algorithm-Digests ecdsa_with_sha256 hash h =
    subst (Digests ecdsa_with_sha256) (ok_eq h) Digests.digests_sha256
hash_from_signature_algorithm-Digests ecdsa_with_sha384 hash h =
    subst (Digests ecdsa_with_sha384) (ok_eq h) Digests.digests_sha384
hash_from_signature_algorithm-Digests ecdsa_with_sha512 hash h =
    subst (Digests ecdsa_with_sha512) (ok_eq h) Digests.digests_sha512
hash_from_signature_algorithm-Digests unknown_signature_algorithm hash h = cc
