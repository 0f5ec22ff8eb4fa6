-- ===== src/Spm/Server/Handlers/Certs.antt =====
-- What a client of EndorseCerts in src/spm/services/spm.go gets.
use opentitan_provisioning.Base.{
  ℕ, ◌≤◌, ◌≡◌, ◌⊎◌, refl, sym, ap, subst, ◌∙◌, arith, String, String_eq, List, [], ◌∷◌, length,
  Option, none, some, Option-cases, Bool-cases, nat_eq, ok, or_else-eq-ok, Pointwise, inl, inr,
}
use opentitan_provisioning.Base.Exec.{continue-eq-ok}
use opentitan_provisioning.Base.Dict.{lookup}
use opentitan_provisioning.Proto.{Bytes}
use opentitan_provisioning.Spm.SkuConfig.{Config, get_unsafe_attribute}
use opentitan_provisioning.Spm.SecureElement.{
  EndorseCertParams, SignatureAlgorithm, ecdsa_with_sha256, ecdsa_with_sha384, ecdsa_with_sha512,
  unknown_signature_algorithm,
}
use opentitan_provisioning.Spm.SessionQueue.{SessionQueue}
use opentitan_provisioning.Spm.SessionQueue.Commands.{SameSessions}
use opentitan_provisioning.Spm.Hsm.Endorse.{endorse_cert}
use opentitan_provisioning.Spm.Hsm.Endorse.Signed.{IsSigner, IsEndorsed, endorse_cert-IsEndorsed}
use opentitan_provisioning.Spm.Messages.{
  EndorseCertBundle, EndorseCertsRequest, EndorseCertsResponse, SigningKey, SigningKeyParams,
  no_key, ecdsa_params, hash_type_sha256, hash_type_sha384, hash_type_sha512,
}
use opentitan_provisioning.Spm.Server.{World, Deps, SkuState}
use opentitan_provisioning.Spm.Server.Frame.{WellFormed, endorse_bundle-Restores, same_sessions}
use opentitan_provisioning.Spm.Server.Found.{with_sku-eq-ok}
use opentitan_provisioning.Spm.Server.Handlers.{
  ecdsa_signature_algorithm_from_hash_type, dereferenced, endorse_params, request_params,
  endorse_bundle, endorse_bundles, endorse_certs_with, endorse_certs,
}

-- The algorithm that each hash type asks for.
pub data AlgorithmFor (hash_type : ℕ) (alg : SignatureAlgorithm) : Type 0 where
  for_sha256 : hash_type ≡ hash_type_sha256 → alg ≡ ecdsa_with_sha256 → AlgorithmFor hash_type alg
  for_sha384 : hash_type ≡ hash_type_sha384 → alg ≡ ecdsa_with_sha384 → AlgorithmFor hash_type alg
  for_sha512 : hash_type ≡ hash_type_sha512 → alg ≡ ecdsa_with_sha512 → AlgorithmFor hash_type alg
  for_no_other : alg ≡ unknown_signature_algorithm → AlgorithmFor hash_type alg

ecdsa_signature_algorithm_from_hash_type-AlgorithmFor :
    (n : ℕ) → AlgorithmFor n (ecdsa_signature_algorithm_from_hash_type n)
unfolding ecdsa_signature_algorithm_from_hash_type
ecdsa_signature_algorithm_from_hash_type-AlgorithmFor n =
    elim (Bool-cases (nat_eq n hash_type_sha256)) [
      | inl a ↦ AlgorithmFor.for_sha256 (ground arith) (ground arith)
      | inr a ↦ elim (Bool-cases (nat_eq n hash_type_sha384)) [
        | inl b ↦ AlgorithmFor.for_sha384 (ground arith) (ground arith)
        | inr b ↦ elim (Bool-cases (nat_eq n hash_type_sha512)) [
          | inl c ↦ AlgorithmFor.for_sha512 (ground arith) (ground arith)
          | inr c ↦ AlgorithmFor.for_no_other (ground arith)
        ]
      ]
    ]

-- The parameters of an endorsement: the label comes from the SKU's configuration, the algorithm from
-- the hash type of the request.
pub record IsRequested (sku : SkuState) (key_params : Option SigningKeyParams)
    (params : EndorseCertParams) : Type 0 where
  pub sent : SigningKeyParams
  pub hash_type : ℕ
  pub present : key_params ≡ some sent
  pub ecdsa : sent.key ≡ ecdsa_params hash_type
  pub labelled : lookup sent.key_label sku.config.attributes ≡ some params.key_label
  pub algorithm : AlgorithmFor hash_type params.signature_algorithm

get_unsafe_attribute-eq-ok :
    (c : Config) (name value : String)
    → get_unsafe_attribute c name ≡ ok value
    → lookup name c.attributes ≡ some value
unfolding get_unsafe_attribute
get_unsafe_attribute-eq-ok c name value h = ground arith

key_cases : (k : SigningKey) → (k ≡ no_key) ⊎ ((n : ℕ) × (k ≡ ecdsa_params n))
key_cases no_key = inl refl
key_cases (ecdsa_params n) = inr (n, refl)

module _ {H : Type 0} (deps : Deps H) where
  request_params-IsRequested :
      (sku : SkuState) (key_params : Option SigningKeyParams) (params : EndorseCertParams)
      → request_params deps sku key_params ≡ ok params
      → IsRequested sku key_params params
  unfolding request_params dereferenced endorse_params get_unsafe_attribute
  request_params-IsRequested sku none params h = absurd (ground arith)
  request_params-IsRequested sku (some sent) params h =
      elim (Option-cases (lookup sent.key_label sku.config.attributes)) [
        | inl missing ↦ absurd (ground arith)
        | inr (label, found) ↦ elim (key_cases sent.key) [
          | inl none_ ↦ absurd (ground arith)
          | inr (hash_type, ecdsa) ↦ record {
            sent = sent;
            hash_type = hash_type;
            present = refl;
            ecdsa = ecdsa;
            labelled = ground arith;
            algorithm =
                let same : ecdsa_signature_algorithm_from_hash_type hash_type
                    ≡ params.signature_algorithm =
                  ground arith in
                subst (AlgorithmFor hash_type) same
                  (ecdsa_signature_algorithm_from_hash_type-AlgorithmFor hash_type);
          }
        ]
      ]

  module _ (Verifies : ℕ → Bytes → ℕ → ℕ → Type 0) where
    -- The certificate that answers a bundle.
    pub record IsCertificateFor (sku : SkuState) (bundle : EndorseCertBundle) (cert : Bytes)
        : Type 0 where
      pub params : EndorseCertParams
      pub requested : IsRequested sku bundle.key_params params
      pub endorsed :
          IsEndorsed deps.ctx deps.fuel deps.crypto deps.asn1 Verifies bundle.tbs params cert

  module _ (Verifies : ℕ → Bytes → ℕ → ℕ → Type 0) (signer : IsSigner deps.ctx Verifies) where
    endorse_bundle-IsCertificateFor :
        (sku : SkuState) (bundle : EndorseCertBundle) (cert : Bytes) (h t : H) (q q' : SessionQueue)
        → length q.s ≤ q.num_sessions
        → endorse_bundle deps sku bundle (h, q) ≡ (ok cert, (t, q'))
        → IsCertificateFor Verifies sku bundle cert
    unfolding endorse_bundle
    endorse_bundle-IsCertificateFor sku bundle cert h t q q' room e =
        let (params, asked, e1) =
          continue-eq-ok (request_params deps sku bundle.key_params) _ _ e in
        let made = endorse_cert deps.ctx deps.fuel deps.crypto deps.asn1 bundle.tbs params (h, q) in
        record {
          params = params;
          requested = request_params-IsRequested sku bundle.key_params params asked;
          endorsed =
              endorse_cert-IsEndorsed deps.ctx deps.fuel deps.crypto deps.asn1 Verifies signer
                bundle.tbs params cert h made.1.0 q made.1.1 room
                (λ i. (or_else-eq-ok made.0 _ (ap (λ p. p.0) e1) i, made.1));
        }

    certs_eq : (a b : List Bytes) → ok a ≡ ok b → a ≡ b
    certs_eq a b h = cc

    endorse_bundles-IsCertificateFor :
        (sku : SkuState) (bundles : List EndorseCertBundle) (certs : List Bytes) (h t : H)
        (q q' : SessionQueue)
        → length sku.sessions.s ≤ sku.sessions.num_sessions
        → SameSessions sku.sessions q
        → endorse_bundles deps sku bundles (h, q) ≡ (ok certs, (t, q'))
        → Pointwise (IsCertificateFor Verifies sku) bundles certs
    unfolding endorse_bundles
    endorse_bundles-IsCertificateFor sku [] certs h t q q' room same e =
        subst (Pointwise (IsCertificateFor Verifies sku) []) (certs_eq _ _ (ap (λ p. p.0) e)) tt
    endorse_bundles-IsCertificateFor sku (bundle ∷ bundles) certs h t q q' room same e =
        let one = endorse_bundle deps sku bundle (h, q) in
        let (cert, made, e1) = continue-eq-ok one.0 _ _ e in
        let others = endorse_bundles deps sku bundles one.1 in
        let (rest, done, e2) = continue-eq-ok others.0 _ _ e1 in
        subst (Pointwise (IsCertificateFor Verifies sku) (bundle ∷ bundles))
          (certs_eq _ _ (ap (λ p. p.0) e2))
          (
            endorse_bundle-IsCertificateFor sku bundle cert h one.1.0 q one.1.1
                (omega (arith, room, same.limit, same.total)) (λ i. (made i, one.1)),
            endorse_bundles-IsCertificateFor sku bundles rest one.1.0 others.1.0 one.1.1 others.1.1
                room
                ((endorse_bundle-Restores deps sku bundle room).at (h, q) same
                  (λ x. cc (sym made ∙ x)))
                (λ i. (done i, others.1)),
          )

    response_eq : (a b : EndorseCertsResponse) → ok a ≡ ok b → a ≡ b
    response_eq a b h = cc

    -- A client whose EndorseCerts succeeds gets one certificate for each bundle, in order: each is
    -- the endorsement of the bundle's bytes with the key whose label the SKU's configuration gives
    -- and with the algorithm of the requested hash, and its signature verifies, if those that the
    -- device makes do.
    pub endorse_certs-IsCertificateFor :
        (request : EndorseCertsRequest) (w : World H) (response : EndorseCertsResponse)
        → WellFormed w
        → (endorse_certs deps request w).0 ≡ ok response
        → (sku : SkuState) × (lookup request.sku w.server.skus ≡ some sku)
          × Pointwise (IsCertificateFor Verifies sku) request.bundles response.certs
    unfolding endorse_certs endorse_certs_with
    endorse_certs-IsCertificateFor request w response wf e =
        let (sku, found, ran) = with_sku-eq-ok request.sku (endorse_certs_with deps request) w e in
        let all = endorse_bundles deps sku request.bundles (w.outside, sku.sessions) in
        let (certs, done, e1) =
          continue-eq-ok all.0 _ _
            (λ i. (ran i, (endorse_certs_with deps request sku (w.outside, sku.sessions)).1)) in
        (
          sku,
          found,
          subst (λ r. Pointwise (IsCertificateFor Verifies sku) request.bundles r.certs)
              (response_eq _ _ (ap (λ p. p.0) e1))
              (endorse_bundles-IsCertificateFor sku request.bundles certs w.outside all.1.0
                sku.sessions all.1.1 (wf.room request.sku sku found) (same_sessions sku.sessions)
                (λ i. (done i, all.1))),
        )
