-- ===== src/Spm/Server/Frame.antt =====
-- What the handlers of src/spm/services/spm.go leave alone.
use mathlib.Core.List.Perm
use opentitan_provisioning.Base.{
  ◌≤◌, ◌≡◌, ◌≢◌, refl, sym, ap, subst, ◌∙◌, arith, String, String_eq, eq_iff, ◌==◌, List, [], ◌∷◌,
  length, Option, none, some, Result, err, hangs, Error, status, internal, map, inl, inr,
  Bool-cases,
}
use opentitan_provisioning.Base.Exec.{
  Exec, lift, or_raise, Restores, pure-Restores, lift-Restores, or_raise-Restores, >>=-Restores,
}
use opentitan_provisioning.Base.Dict.{Dict, lookup, insert, lookup-insert}
use opentitan_provisioning.Spm.SkuConfig.{
  get_attribute, attr_name_seed_sec_hi, attr_name_seed_sec_lo,
}
use opentitan_provisioning.Spm.SessionQueue.{SessionQueue}
use opentitan_provisioning.Spm.SessionQueue.Commands.{SameSessions, execute_cmd-Restores}
use opentitan_provisioning.Spm.Hsm.Tokens.{generate_tokens, all_tokens}
use opentitan_provisioning.Spm.Hsm.Endorse.{
  endorse_cert, endorse_cert_with, endorse_data, endorse_data_with,
}
use opentitan_provisioning.Spm.Messages.{
  DeriveTokensRequest, EndorseCertsRequest, EndorseDataRequest, EndorseCertBundle,
}
use opentitan_provisioning.Spm.Server.{World, Deps, SkuState, with_sku, kept}
use opentitan_provisioning.Spm.Server.Params.{keygen_params}
use opentitan_provisioning.Spm.Server.Handlers.{
  token_of, request_params, derive_with, derive_tokens, endorse_bundle, endorse_bundles,
  endorse_certs_with, endorse_certs, endorse_data_for, endorse_payload,
}

-- No queue holds more sessions than its channel has room for.
pub record WellFormed {H : Type 0} (w : World H) : Type 0 where
  pub room :
      (name : String) (sku : SkuState)
      → lookup name w.server.skus ≡ some sku
      → length sku.sessions.s ≤ sku.sessions.num_sessions

-- The entry of a SKU up to the order of the sessions in its queue.
pub record SameSku (a b : SkuState) : Type 0 where
  pub config : b.config ≡ a.config
  pub certs : b.certs ≡ a.certs
  pub se_handle : b.se_handle ≡ a.se_handle
  pub sessions : SameSessions a.sessions b.sessions

abbrev pub SameEntry : Option SkuState → Option SkuState → Type 0
SameEntry none none = Unit
SameEntry none (some b) = ⊥
SameEntry (some a) none = ⊥
SameEntry (some a) (some b) = SameSku a b

pub record SameSkus {H : Type 0} (w w' : World H) : Type 0 where
  pub entries : (name : String) → SameEntry (lookup name w.server.skus) (lookup name w'.server.skus)
  pub auth_cfg : w'.server.auth_cfg ≡ w.server.auth_cfg
  pub session_token : w'.session_token ≡ w.session_token

pub same_sessions : (q : SessionQueue) → SameSessions q q
same_sessions q = record { limit = refl; total = refl; perm = Perm.refl q.s }

same_entry : (o : Option SkuState) → SameEntry o o
same_entry none = tt
same_entry (some a) = record {
  config = refl;
  certs = refl;
  se_handle = refl;
  sessions = same_sessions a.sessions;
}

inserted_entry :
    (name k : String) (sku sku' : SkuState) (skus : Dict String SkuState)
    → lookup name skus ≡ some sku
    → SameSku sku sku'
    → SameEntry (lookup k skus) (lookup k (insert name sku' skus))
inserted_entry name k sku sku' skus found same = elim (Bool-cases (name == k)) [
  | inl here ↦
      let stored : lookup k (insert name sku' skus) ≡ some sku' =
        ground (arith, lookup-insert name k sku' skus) in
      let before : lookup k skus ≡ some sku = ground (arith, eq_iff name k) in
      rw (stored, before) same
  | inr there ↦
      let stored : lookup k (insert name sku' skus) ≡ lookup k skus =
        ground (arith, lookup-insert name k sku' skus) in
      rw stored (same_entry (lookup k skus))
]

module _ {H A : Type 0} where
  with_entry-SameSkus :
      (name : String) (f : SkuState → Exec (H × SessionQueue) A) (w : World H) (o : Option SkuState)
      → lookup name w.server.skus ≡ o
      → WellFormed w
      → ((sku : SkuState)
          → length sku.sessions.s ≤ sku.sessions.num_sessions
          → Restores (λ x. SameSessions sku.sessions x.1) (f sku))
      → (with_sku name f w).0 ≢ err hangs
      → SameSkus w (with_sku name f w).1
  unfolding with_sku
  with_entry-SameSkus name f w none found wf restores ne =
      rw (found, with_sku)
        (record {
          entries = λ k. same_entry (lookup k w.server.skus);
          auth_cfg = refl;
          session_token = refl;
        })
  with_entry-SameSkus name f w (some sku) found wf restores ne =
      let ran = f sku (w.outside, sku.sessions) in
      let value : with_sku name f w ≡ kept name sku w ran = rw (found, with_sku) refl in
      let back =
        (restores sku (wf.room name sku found)).at (w.outside, sku.sessions)
          (same_sessions sku.sessions) (λ e. ne (ap (λ p. p.0) value ∙ e)) in
      subst (λ p. SameSkus w p.1) (sym value)
        (record {
          entries = λ k.
              inserted_entry name k sku (record sku { sessions = ran.1.1 }) w.server.skus found
                (record { config = refl; certs = refl; se_handle = refl; sessions = back });
          auth_cfg = refl;
          session_token = refl;
        })

module _ {H : Type 0} (deps : Deps H) where
  attribute-Restores :
      (P : H × SessionQueue → Type 0) (r : Result String) (e : Error)
      → Restores P (or_raise (lift r) e)
  attribute-Restores P r e = or_raise-Restores P (lift r) e (lift-Restores P r)

  derive_with-Restores :
      (request : DeriveTokensRequest) (sku : SkuState)
      → length sku.sessions.s ≤ sku.sessions.num_sessions
      → Restores (λ x. SameSessions sku.sessions x.1) (derive_with deps request sku)
  unfolding derive_with generate_tokens
  derive_with-Restores request sku room =
      >>=-Restores _ _ _ (attribute-Restores _ (get_attribute sku.config attr_name_seed_sec_hi) _)
        (λ hi.
          >>=-Restores _ _ _
            (attribute-Restores _ (get_attribute sku.config attr_name_seed_sec_lo) _)
            (λ lo.
              >>=-Restores _ _ _
                (lift-Restores _ (keygen_params sku.config hi lo request.sku request.params))
                (λ params.
                  >>=-Restores _ _ _
                    (or_raise-Restores _ _ (status internal "could not generate symmetric key: %s")
                      (execute_cmd-Restores
                        (all_tokens deps.ctx deps.fuel deps.cshake sku.se_handle params)
                        sku.sessions room))
                    (λ res. pure-Restores _ (record { tokens = map token_of res })))))

  pub endorse_bundle-Restores :
      (sku : SkuState) (bundle : EndorseCertBundle)
      → length sku.sessions.s ≤ sku.sessions.num_sessions
      → Restores (λ x. SameSessions sku.sessions x.1) (endorse_bundle deps sku bundle)
  unfolding endorse_bundle endorse_cert
  endorse_bundle-Restores sku bundle room =
      >>=-Restores _ _ _ (lift-Restores _ (request_params deps sku bundle.key_params)) (λ params.
        or_raise-Restores _ _ _ (
          execute_cmd-Restores
            (endorse_cert_with deps.ctx deps.fuel deps.crypto deps.asn1 bundle.tbs params)
            sku.sessions room))

  endorse_bundles-Restores :
      (sku : SkuState) (bundles : List EndorseCertBundle)
      → length sku.sessions.s ≤ sku.sessions.num_sessions
      → Restores (λ x. SameSessions sku.sessions x.1) (endorse_bundles deps sku bundles)
  unfolding endorse_bundles
  endorse_bundles-Restores sku [] room = pure-Restores _ []
  endorse_bundles-Restores sku (bundle ∷ bundles) room =
      >>=-Restores _ _ _ (endorse_bundle-Restores sku bundle room) (λ cert.
        >>=-Restores _ _ _ (endorse_bundles-Restores sku bundles room)
          (λ certs. pure-Restores _ (cert ∷ certs)))

  endorse_certs_with-Restores :
      (request : EndorseCertsRequest) (sku : SkuState)
      → length sku.sessions.s ≤ sku.sessions.num_sessions
      → Restores (λ x. SameSessions sku.sessions x.1) (endorse_certs_with deps request sku)
  unfolding endorse_certs_with
  endorse_certs_with-Restores request sku room =
      >>=-Restores _ _ _ (endorse_bundles-Restores sku request.bundles room)
        (λ certs. pure-Restores _ (record { certs = certs }))

  endorse_data_for-Restores :
      (request : EndorseDataRequest) (sku : SkuState)
      → length sku.sessions.s ≤ sku.sessions.num_sessions
      → Restores (λ x. SameSessions sku.sessions x.1) (endorse_data_for deps request sku)
  unfolding endorse_data_for endorse_data
  endorse_data_for-Restores request sku room =
      >>=-Restores _ _ _ (lift-Restores _ (request_params deps sku request.key_params)) (λ params.
        >>=-Restores _ _ _
          (or_raise-Restores _ _ (status internal "could not endorse data payload: %v") (
            execute_cmd-Restores
              (endorse_data_with deps.ctx deps.fuel deps.crypto deps.asn1 request.payload params)
              sku.sessions room))
          (λ result. pure-Restores _ (record { pubkey = result.0; signature = result.1 })))

  -- A call of DeriveTokens, EndorseCerts or EndorseData that returns, with a response or with an
  -- error, changes no SKU's configuration, certificates or key identifiers, adds and removes no SKU,
  -- and leaves every SKU's queue with the sessions it had, so that no failed request uses one up.
  pub handlers-SameSkus :
      (w : World H)
      → WellFormed w
      → ((request : DeriveTokensRequest)
          → (derive_tokens deps request w).0 ≢ err hangs
          → SameSkus w (derive_tokens deps request w).1)
        × ((request : EndorseCertsRequest)
            → (endorse_certs deps request w).0 ≢ err hangs
            → SameSkus w (endorse_certs deps request w).1)
        × ((request : EndorseDataRequest)
            → (endorse_payload deps request w).0 ≢ err hangs
            → SameSkus w (endorse_payload deps request w).1)
  unfolding derive_tokens endorse_certs endorse_payload
  handlers-SameSkus w wf = (
    λ request ne. with_entry-SameSkus request.sku _ w _ refl wf (derive_with-Restores request) ne,
    λ request ne.
        with_entry-SameSkus request.sku _ w _ refl wf (endorse_certs_with-Restores request) ne,
    λ request ne.
        with_entry-SameSkus request.sku _ w _ refl wf (endorse_data_for-Restores request) ne,
  )
