-- ===== src/Spm/Hsm/Endorse/Signed.antt =====
-- What an endorsement of the HSM consists of.
use opentitan_provisioning.Base.{
  ℕ, ◌≤◌, ◌≡◌, ◌∙◌, refl, arith, ap, subst, String, length, ◌/◌, take, drop, ok, or_else,
  or_else-eq-ok,
}
use opentitan_provisioning.Base.Exec.{continue-eq-ok}
use opentitan_provisioning.Proto.{Bytes}
use opentitan_provisioning.Pk11.{Ctx, Session, Object, ckm_ecdsa}
use opentitan_provisioning.Pk11.Octets.{set_bytes}
use opentitan_provisioning.Pk11.Connect.{Hash, make_hash}
use opentitan_provisioning.Pk11.Find.{find_private_key, class_private_key}
use opentitan_provisioning.Pk11.Ecdsa.Curves.{Curve}
use opentitan_provisioning.Pk11.Ecdsa.{
  Crypto, PublicKey, rsa_public, ecdsa_public, sign_ecdsa, sign_ecdsa_pre_hashed, halves,
  find_public_key_of, export_key,
}
use opentitan_provisioning.Spm.SecureElement.{EndorseCertParams}
use opentitan_provisioning.Spm.SessionQueue.{SessionQueue}
use opentitan_provisioning.Spm.SessionQueue.Commands.{execute_cmd-eq-ok}
use opentitan_provisioning.Spm.Hsm.{get_key_id_by_label}
use opentitan_provisioning.Spm.Hsm.Endorse.{
  Asn1, ObjectIdentifier, oid_from_signature_algorithm, hash_from_signature_algorithm, point,
  encoded_signature, endorse_cert_with, endorse_cert, encoded_public_key, endorse_data_with,
  endorse_data,
}
use opentitan_provisioning.Spm.Hsm.Endorse.Algorithms.{
  Matches, Digests, ok_eq, both_from, hash_from_signature_algorithm-Digests,
}

-- What the device signs with the ECDSA mechanism is a signature, r and s in equal halves, that
-- verifies under the public key of the key it was started with.
pub record IsSigner {H : Type 0} (ctx : Ctx H) (Verifies : ℕ → Bytes → ℕ → ℕ → Type 0)
    : Type 0 where
  pub correct :
      (s key : ℕ) (digest contents : Bytes) (h h' h'' : H)
      → ctx.sign_init s ckm_ecdsa key h ≡ (ok tt, h')
      → ctx.sign s digest h' ≡ (ok contents, h'')
      → Verifies key digest
          (set_bytes (take (length contents / 2) contents))
          (set_bytes (drop (length contents / 2) contents))

module _ {H : Type 0} (ctx : Ctx H) (fuel : ℕ) (crypto : Crypto) (asn1 : Asn1)
    (Verifies : ℕ → Bytes → ℕ → ℕ → Type 0) where
  -- `sig` encodes a signature of the message's digest that verifies under the key.
  pub record IsSignature (key : Object) (hash : Hash) (message sig : Bytes) : Type 0 where
    pub digest : Bytes
    pub r : ℕ
    pub s : ℕ
    pub digested : crypto.digest hash message ≡ ok digest
    pub verifies : Verifies key.raw digest r s
    pub encodes : asn1.marshal_pair r s ≡ ok sig

  -- The key object that the device has for the label, in some state of the device.
  pub record IsKeyFor (session : Session) (label : String) (key : Object) : Type 0 where
    pub id : Bytes
    pub h : H
    pub h' : H
    pub labelled : (get_key_id_by_label ctx fuel session class_private_key label h).0 ≡ ok id
    pub identified : (find_private_key ctx fuel session id h').0 ≡ ok key

  module _ (signer : IsSigner ctx Verifies) where
    pre_hashed-verifies :
        (key : Object) (digest : Bytes) (rs : Bytes × Bytes) (h t : H)
        → sign_ecdsa_pre_hashed ctx crypto key digest h ≡ (ok rs, t)
        → Verifies key.raw digest (set_bytes rs.0) (set_bytes rs.1)
    unfolding sign_ecdsa_pre_hashed halves
    pre_hashed-verifies key digest rs h t e =
        let init = ctx.sign_init key.sess.raw ckm_ecdsa key.raw h in
        let (_, begun, e1) = continue-eq-ok (or_else init.0 _) _ _ e in
        let signed = ctx.sign key.sess.raw digest init.1 in
        let (contents, made, e2) = continue-eq-ok (or_else signed.0 _) _ _ e1 in
        subst (λ p. Verifies key.raw digest (set_bytes p.0) (set_bytes p.1))
          (ok_eq (ap (λ p. p.0) e2))
          (signer.correct key.sess.raw key.raw digest contents h init.1 signed.1
            (λ i. (or_else-eq-ok _ _ begun i, init.1)) (λ i. (or_else-eq-ok _ _ made i, signed.1)))

    encoded_signature-IsSignature :
        (key : Object) (hash : Hash) (message sig : Bytes) (h t : H)
        → encoded_signature ctx fuel crypto asn1 key hash message h ≡ (ok sig, t)
        → IsSignature key hash message sig
    unfolding encoded_signature sign_ecdsa make_hash
    encoded_signature-IsSignature key hash message sig h t e =
        let (rs, signed, e1) =
          continue-eq-ok (or_else (sign_ecdsa ctx crypto key hash message h).0 _) _ _ e in
        let (digest, digested, e2) = continue-eq-ok (crypto.digest hash message) _ _ (λ i. (
          or_else-eq-ok (sign_ecdsa ctx crypto key hash message h).0 _ signed i,
          (sign_ecdsa ctx crypto key hash message h).1,
        )) in
        record {
          digest = digest;
          r = set_bytes rs.0;
          s = set_bytes rs.1;
          digested = digested;
          verifies = pre_hashed-verifies key digest rs h _ e2;
          encodes = or_else-eq-ok _ _ (ap (λ p. p.0) e1);
        }

  -- What a certificate from EndorseCert is made of.
  pub record IsEndorsed (tbs : Bytes) (params : EndorseCertParams) (cert : Bytes) : Type 0 where
    pub session : Session
    pub key : Object
    pub hash : Hash
    pub oid : ObjectIdentifier
    pub sig : Bytes
    pub labelled : IsKeyFor session params.key_label key
    pub matches : Matches params.signature_algorithm hash oid
    pub signature : IsSignature key hash tbs sig
    pub encodes : asn1.marshal_certificate tbs oid sig ≡ ok cert

  -- The public half that the device has for the private key, exported in the state `h`: an ECDSA key,
  -- whose coordinates are encoded, x before y.
  pub record IsExported (key : Object) (h : H) (encoded : Bytes) : Type 0 where
    pub half : Object
    pub curve : Curve
    pub x : ℕ
    pub y : ℕ
    pub found : (find_public_key_of ctx crypto fuel key h).0 ≡ ok half
    pub exported :
        (export_key ctx crypto half (find_public_key_of ctx crypto fuel key h).1).0
        ≡ ok (ecdsa_public curve x y)
    pub encodes : asn1.marshal_pair x y ≡ ok encoded

  -- What EndorseData returns when it starts from the state `before`: the exported public key and the
  -- signature of the data.
  pub record IsEndorsedData (before : H) (message : Bytes) (params : EndorseCertParams)
      (result : Bytes × Bytes) : Type 0 where
    pub session : Session
    pub key : Object
    pub hash : Hash
    pub labelled : IsKeyFor session params.key_label key
    pub starts : labelled.h ≡ before
    pub follows :
        labelled.h'
        ≡ (get_key_id_by_label ctx fuel session class_private_key params.key_label before).1
    pub digests : Digests params.signature_algorithm hash
    pub signature : IsSignature key hash message result.1
    pub exported :
        IsExported key (find_private_key ctx fuel session labelled.id labelled.h').1 result.0

  point-eq-ok :
      (k : PublicKey) {x y : ℕ}
      → point k ≡ ok (x, y)
      → (curve : Curve) × (k ≡ ecdsa_public curve x y)
  unfolding point
  point-eq-ok (rsa_public n e) h = cc
  point-eq-ok (ecdsa_public curve x y) h = (curve, ground (arith, h))

  encoded_public_key-IsExported :
      (key : Object) (encoded : Bytes) (h t : H)
      → encoded_public_key ctx fuel crypto asn1 key h ≡ (ok encoded, t)
      → IsExported key h encoded
  unfolding encoded_public_key
  encoded_public_key-IsExported key encoded h t e =
      let found = find_public_key_of ctx crypto fuel key h in
      let (half, is_found, e1) = continue-eq-ok (or_else found.0 _) _ _ e in
      let exported = export_key ctx crypto half found.1 in
      let (public, is_exported, e2) = continue-eq-ok (or_else exported.0 _) _ _ e1 in
      let ((x, y), coordinates, e3) = continue-eq-ok (point public) _ _ e2 in
      let (curve, shape) = point-eq-ok public coordinates in
      record {
        half = half;
        curve = curve;
        x = x;
        y = y;
        found = or_else-eq-ok _ _ is_found;
        exported = or_else-eq-ok _ _ is_exported ∙ ap ok shape;
        encodes = or_else-eq-ok _ _ (ap (λ p. p.0) e3);
      }

  module _ (signer : IsSigner ctx Verifies) where
    endorse_cert_with-IsEndorsed :
        (tbs : Bytes) (params : EndorseCertParams) (session : Session) (cert : Bytes) (h t : H)
        → endorse_cert_with ctx fuel crypto asn1 tbs params session h ≡ (ok cert, t)
        → IsEndorsed tbs params cert
    unfolding endorse_cert_with
    endorse_cert_with-IsEndorsed tbs params session cert h t e =
        let found = get_key_id_by_label ctx fuel session class_private_key params.key_label h in
        let (id, labelled, e1) = continue-eq-ok (or_else found.0 _) _ _ e in
        let got = find_private_key ctx fuel session id found.1 in
        let (key, identified, e2) = continue-eq-ok (or_else got.0 _) _ _ e1 in
        let (hash, hashed, e3) =
          continue-eq-ok (or_else (hash_from_signature_algorithm params.signature_algorithm) _) _ _
            e2 in
        let signed = encoded_signature ctx fuel crypto asn1 key hash tbs got.1 in
        let (sig, made, e4) = continue-eq-ok signed.0 _ _ e3 in
        let (oid, named, e5) =
          continue-eq-ok (or_else (oid_from_signature_algorithm params.signature_algorithm) _) _ _
            e4 in
        record {
          session = session;
          key = key;
          hash = hash;
          oid = oid;
          sig = sig;
          labelled = record {
            id = id;
            h = h;
            h' = found.1;
            labelled = or_else-eq-ok _ _ labelled;
            identified = or_else-eq-ok _ _ identified;
          };
          matches = both_from _ hash oid (or_else-eq-ok _ _ hashed) (or_else-eq-ok _ _ named);
          signature =
              encoded_signature-IsSignature signer key hash tbs sig got.1 signed.1
                (λ i. (made i, signed.1));
          encodes = or_else-eq-ok _ _ (ap (λ p. p.0) e5);
        }

    endorse_data_with-IsEndorsedData :
        (message : Bytes) (params : EndorseCertParams) (session : Session) (result : Bytes × Bytes)
        (h t : H)
        → endorse_data_with ctx fuel crypto asn1 message params session h ≡ (ok result, t)
        → IsEndorsedData h message params result
    unfolding endorse_data_with
    endorse_data_with-IsEndorsedData message params session result h t e =
        let found = get_key_id_by_label ctx fuel session class_private_key params.key_label h in
        let (id, labelled, e1) = continue-eq-ok (or_else found.0 _) _ _ e in
        let got = find_private_key ctx fuel session id found.1 in
        let (key, identified, e2) = continue-eq-ok (or_else got.0 _) _ _ e1 in
        let exported = encoded_public_key ctx fuel crypto asn1 key got.1 in
        let (pubkey, public, e3) = continue-eq-ok exported.0 _ _ e2 in
        let (hash, hashed, e4) =
          continue-eq-ok (or_else (hash_from_signature_algorithm params.signature_algorithm) _) _ _
            e3 in
        let signed = encoded_signature ctx fuel crypto asn1 key hash message exported.1 in
        let (sig, made, e5) = continue-eq-ok signed.0 _ _ e4 in
        subst (IsEndorsedData h message params) (ok_eq (ap (λ p. p.0) e5)) (record {
          session = session;
          key = key;
          hash = hash;
          labelled = record {
            id = id;
            h = h;
            h' = found.1;
            labelled = or_else-eq-ok _ _ labelled;
            identified = or_else-eq-ok _ _ identified;
          };
          starts = refl;
          follows = refl;
          digests = hash_from_signature_algorithm-Digests _ hash (or_else-eq-ok _ _ hashed);
          signature =
              encoded_signature-IsSignature signer key hash message sig exported.1 signed.1
                (λ i. (made i, signed.1));
          exported =
              encoded_public_key-IsExported key pubkey got.1 exported.1
                (λ i. (public i, exported.1));
        })

    -- A certificate that EndorseCert returns holds the bytes to be signed, the identifier of the
    -- requested algorithm and a signature, by the key that the device has under the requested
    -- label, of the digest that RFC 5758 gives that algorithm; the signature verifies, if those
    -- that the device makes do.
    pub endorse_cert-IsEndorsed :
        (tbs : Bytes) (params : EndorseCertParams) (cert : Bytes) (h t : H) (q q' : SessionQueue)
        → length q.s ≤ q.num_sessions
        → endorse_cert ctx fuel crypto asn1 tbs params (h, q) ≡ (ok cert, (t, q'))
        → IsEndorsed tbs params cert
    unfolding endorse_cert
    endorse_cert-IsEndorsed tbs params cert h t q q' room e =
        let (session, _, _, ran, _) =
          execute_cmd-eq-ok (endorse_cert_with ctx fuel crypto asn1 tbs params) h t q q' room e in
        endorse_cert_with-IsEndorsed tbs params session cert h t ran

    -- What EndorseData returns is the encoding, x before y, of the ECDSA public key that the device
    -- exports, in the course of this call, as the public half of the private key that it has under
    -- the requested label, and a signature by that private key of the digest of the data, which
    -- verifies, if those that the device makes do.
    pub endorse_data-IsEndorsedData :
        (message : Bytes) (params : EndorseCertParams) (result : Bytes × Bytes) (h t : H)
        (q q' : SessionQueue)
        → length q.s ≤ q.num_sessions
        → endorse_data ctx fuel crypto asn1 message params (h, q) ≡ (ok result, (t, q'))
        → IsEndorsedData h message params result
    unfolding endorse_data
    endorse_data-IsEndorsedData message params result h t q q' room e =
        let (session, _, _, ran, _) =
          execute_cmd-eq-ok (endorse_data_with ctx fuel crypto asn1 message params) h t q q' room
            e in
        endorse_data_with-IsEndorsedData message params session result h t ran
