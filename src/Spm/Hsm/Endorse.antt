-- ===== src/Spm/Hsm/Endorse.antt =====
-- EndorseCert and EndorseData of src/spm/services/se_pk11.go. What encoding/asn1 writes is the
-- parameter `Asn1`.
pub mod Algorithms
pub mod Signed
use opentitan_provisioning.Base.{ℕ, String, List, [], ◌∷◌, Result, ok, err, errorf, panic}
use opentitan_provisioning.Base.Exec.{Exec, ◌>>=◌, ◌>>◌, pure, raise, or_raise, lift}
use opentitan_provisioning.Proto.{Bytes}
use opentitan_provisioning.Pk11.{Ctx, Session, Object}
use opentitan_provisioning.Pk11.Octets.{set_bytes}
use opentitan_provisioning.Pk11.Connect.{Hash, sha256, sha384, sha512}
use opentitan_provisioning.Pk11.Find.{find_private_key, class_private_key}
use opentitan_provisioning.Pk11.Ecdsa.{
  Crypto, PublicKey, rsa_public, ecdsa_public, sign_ecdsa, find_public_key_of, export_key,
}
use opentitan_provisioning.Spm.SecureElement.{
  SignatureAlgorithm, EndorseCertParams, ecdsa_with_sha256, ecdsa_with_sha384, ecdsa_with_sha512,
  unknown_signature_algorithm,
}
use opentitan_provisioning.Spm.SessionQueue.{SessionQueue, execute_cmd}
use opentitan_provisioning.Spm.Hsm.{get_key_id_by_label}

-- type asn1.ObjectIdentifier
abbrev pub ObjectIdentifier : Type 0
ObjectIdentifier = List ℕ

-- asn1.Marshal of a pair of integers, and of a certificate made of the bytes to be signed, the
-- algorithm and the signature, all of whose bits count.
pub record Asn1 : Type 0 where
  pub marshal_pair : ℕ → ℕ → Result Bytes
  pub marshal_certificate : Bytes → ObjectIdentifier → Bytes → Result Bytes

unfoldable pub oid_from_signature_algorithm : SignatureAlgorithm → Result ObjectIdentifier
oid_from_signature_algorithm ecdsa_with_sha256 = ok (1 ∷ 2 ∷ 840 ∷ 10045 ∷ 4 ∷ 3 ∷ 2 ∷ [])
oid_from_signature_algorithm ecdsa_with_sha384 = ok (1 ∷ 2 ∷ 840 ∷ 10045 ∷ 4 ∷ 3 ∷ 3 ∷ [])
oid_from_signature_algorithm ecdsa_with_sha512 = ok (1 ∷ 2 ∷ 840 ∷ 10045 ∷ 4 ∷ 3 ∷ 4 ∷ [])
oid_from_signature_algorithm unknown_signature_algorithm =
    err (errorf "unsupported signature algorithm: %v")

unfoldable pub hash_from_signature_algorithm : SignatureAlgorithm → Result Hash
hash_from_signature_algorithm ecdsa_with_sha256 = ok sha256
hash_from_signature_algorithm ecdsa_with_sha384 = ok sha384
hash_from_signature_algorithm ecdsa_with_sha512 = ok sha512
hash_from_signature_algorithm unknown_signature_algorithm =
    err (errorf "unsupported signature algorithm: %v")

-- publicKey.(*ecdsa.PublicKey).X and .Y
unfoldable pub point : PublicKey → Result (ℕ × ℕ)
point (rsa_public n e) = err (panic "interface conversion")
point (ecdsa_public curve x y) = ok (x, y)

module _ {H : Type 0} (ctx : Ctx H) (fuel : ℕ) (crypto : Crypto) (asn1 : Asn1) where
  -- The sequence `key.SignECDSA(hash, tbs)` and the encoding of its result, in both functions.
  unfoldable pub encoded_signature : Object → Hash → Bytes → Exec H Bytes
  encoded_signature key hash message = do
    rs ← or_raise (sign_ecdsa ctx crypto key hash message) (errorf "failed to sign")
    or_raise (lift (asn1.marshal_pair (set_bytes rs.0) (set_bytes rs.1)))
        (errorf "failed to marshal signature")

  unfoldable pub endorse_cert_with : Bytes → EndorseCertParams → Session → Exec H Bytes
  endorse_cert_with tbs params session = do
    key_id ←
        or_raise (get_key_id_by_label ctx fuel session class_private_key params.key_label)
          (errorf "fail to find key with label")
    key ← or_raise (find_private_key ctx fuel session key_id) (errorf "failed to find key object")
    hash ←
        or_raise (lift (hash_from_signature_algorithm params.signature_algorithm))
          (errorf "failed to get hash from signature algorithm")
    s ← encoded_signature key hash tbs
    sig_type ←
        or_raise (lift (oid_from_signature_algorithm params.signature_algorithm))
          (errorf "failed to get signature algorithm OID")
    or_raise (lift (asn1.marshal_certificate tbs sig_type s))
        (errorf "failed to marshal certificate")

  unfoldable pub endorse_cert : Bytes → EndorseCertParams → Exec (H × SessionQueue) Bytes
  endorse_cert tbs params = execute_cmd (endorse_cert_with tbs params)

  -- The exported public key of the private key, as two integers.
  unfoldable pub encoded_public_key : Object → Exec H Bytes
  unfolding point
  encoded_public_key private_key = do
    public_key_handle ←
        or_raise (find_public_key_of ctx crypto fuel private_key)
          (errorf "failed to find public key on SE")
    public_key ←
        or_raise (export_key ctx crypto public_key_handle)
          (errorf "failed to export public key from SE")
    xy ← lift (point public_key)
    or_raise (lift (asn1.marshal_pair xy.0 xy.1)) (errorf "failed to marshal public key")

  unfoldable pub endorse_data_with : Bytes → EndorseCertParams → Session → Exec H (Bytes × Bytes)
  endorse_data_with data_ params session = do
    key_id ←
        or_raise (get_key_id_by_label ctx fuel session class_private_key params.key_label)
          (errorf "fail to find key with label")
    private_key ←
        or_raise (find_private_key ctx fuel session key_id)
          (errorf "failed to find private key object")
    pubkey ← encoded_public_key private_key
    hash ←
        or_raise (lift (hash_from_signature_algorithm params.signature_algorithm))
          (errorf "failed to get hash from signature algorithm")
    sig ← encoded_signature private_key hash data_
    pure (pubkey, sig)

  unfoldable pub endorse_data : Bytes → EndorseCertParams → Exec (H × SessionQueue) (Bytes × Bytes)
  endorse_data data_ params = execute_cmd (endorse_data_with data_ params)
