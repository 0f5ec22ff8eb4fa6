-- ===== src/Pk11/Rsa/DigestInfo.antt =====
-- The prefixes of src/pk11/rsa.go against the DER encoding of a DigestInfo.
use opentitan_provisioning.Base.{
  ℕ, ◌+◌, ◌*◌, ◌/◌, ◌%◌, ◌≡◌, ◌≢◌, refl, ap, List, [], ◌∷◌, ◌++◌, length, ok, ltb, if◌then◌else◌,
}
use opentitan_provisioning.Proto.{Bytes}
use opentitan_provisioning.Pk11.{Ctx, Object, ckm_rsa_pkcs}
use opentitan_provisioning.Pk11.Connect.{Hash, sha256, sha384, sha512, no_hash}
use opentitan_provisioning.Pk11.Rsa.{hash_size, pkcs1_prefix, signed, sign_rsa_pkcs1v15_pre_hashed}

-- X.690: a tag, a length below 128, and the contents.
abbrev tlv : ℕ → Bytes → Bytes
tlv tag contents = tag ∷ length contents ∷ contents

-- An arc of an object identifier below 128^2, in base 128.
abbrev arc : ℕ → Bytes
arc n = if ltb n 128 then n ∷ [] else (128 + n / 128) ∷ (n % 128) ∷ []

abbrev arcs : List ℕ → Bytes
arcs [] = []
arcs (n ∷ ns) = arc n ++ arcs ns

-- The first two arcs share an octet.
abbrev object_identifier : List ℕ → Bytes
object_identifier (a ∷ b ∷ rest) = tlv 0x06 (arcs ((a * 40 + b) ∷ rest))
object_identifier _ = []

-- 2.16.840.1.101.3.4.2.x: the algorithms of NIST's hash functions.
abbrev pub hash_algorithm : Hash → List ℕ
hash_algorithm sha256 = 2 ∷ 16 ∷ 840 ∷ 1 ∷ 101 ∷ 3 ∷ 4 ∷ 2 ∷ 1 ∷ []
hash_algorithm sha384 = 2 ∷ 16 ∷ 840 ∷ 1 ∷ 101 ∷ 3 ∷ 4 ∷ 2 ∷ 2 ∷ []
hash_algorithm sha512 = 2 ∷ 16 ∷ 840 ∷ 1 ∷ 101 ∷ 3 ∷ 4 ∷ 2 ∷ 3 ∷ []
hash_algorithm no_hash = []

-- RFC 8017: SEQUENCE { SEQUENCE { algorithm OBJECT IDENTIFIER, NULL }, digest OCTET STRING }.
abbrev pub digest_info : Hash → Bytes → Bytes
digest_info hash hashed =
    tlv 0x30 (tlv 0x30 (object_identifier (hash_algorithm hash) ++ tlv 0x05 []) ++ tlv 0x04 hashed)

known_prefix :
    (hash : Hash) (hashed prefix known : Bytes)
    → ok known ≡ ok prefix
    → known ++ hashed ≡ digest_info hash hashed
    → prefix ++ hashed ≡ digest_info hash hashed
known_prefix hash hashed prefix known e h = cc

pkcs1_prefix-digest_info :
    (hash : Hash) (hashed prefix : Bytes)
    → length hashed ≡ hash_size hash
    → pkcs1_prefix hash ≡ ok prefix
    → prefix ++ hashed ≡ digest_info hash hashed
unfolding pkcs1_prefix
pkcs1_prefix-digest_info sha256 hashed prefix n e =
    known_prefix sha256 hashed prefix _ e (rw n refl)
pkcs1_prefix-digest_info sha384 hashed prefix n e =
    known_prefix sha384 hashed prefix _ e (rw n refl)
pkcs1_prefix-digest_info sha512 hashed prefix n e =
    known_prefix sha512 hashed prefix _ e (rw n refl)
pkcs1_prefix-digest_info no_hash hashed prefix n e = cc

-- For a digest of the right length, SignRSAPKCS1v15PreHashed has the device sign, with the raw PKCS#1
-- mechanism, exactly the DER encoding of the DigestInfo of RFC 8017 for the hash function: its object
-- identifier, NULL, and the digest.
pub sign_rsa_pkcs1v15_pre_hashed-digest_info :
    {H : Type 0} (ctx : Ctx H) (k : Object) (hash : Hash) (hashed : Bytes) (h : H)
    → hash ≢ no_hash
    → length hashed ≡ hash_size hash
    → sign_rsa_pkcs1v15_pre_hashed ctx k hash hashed h
      ≡ signed ctx ckm_rsa_pkcs k (digest_info hash hashed) h
unfolding sign_rsa_pkcs1v15_pre_hashed
sign_rsa_pkcs1v15_pre_hashed-digest_info ctx k sha256 hashed h known n =
    ap (λ m. signed ctx ckm_rsa_pkcs k m h) (pkcs1_prefix-digest_info sha256 hashed _ n refl)
sign_rsa_pkcs1v15_pre_hashed-digest_info ctx k sha384 hashed h known n =
    ap (λ m. signed ctx ckm_rsa_pkcs k m h) (pkcs1_prefix-digest_info sha384 hashed _ n refl)
sign_rsa_pkcs1v15_pre_hashed-digest_info ctx k sha512 hashed h known n =
    ap (λ m. signed ctx ckm_rsa_pkcs k m h) (pkcs1_prefix-digest_info sha512 hashed _ n refl)
sign_rsa_pkcs1v15_pre_hashed-digest_info ctx k no_hash hashed h known n = absurd (known refl)
