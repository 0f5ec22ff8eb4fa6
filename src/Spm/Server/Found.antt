-- ===== src/Spm/Server/Found.antt =====
-- Which entry the handlers of src/spm/services/spm.go run on, and what they do without one.
use opentitan_provisioning.Base.{
  ◌≡◌, refl, arith, String, String_eq, Option, none, some, ok, err, status, not_found,
}
use opentitan_provisioning.Base.Exec.{Exec}
use opentitan_provisioning.Base.Dict.{lookup}
use opentitan_provisioning.Spm.SessionQueue.{SessionQueue}
use opentitan_provisioning.Spm.Messages.{
  DeriveTokensRequest, EndorseCertsRequest, EndorseDataRequest,
}
use opentitan_provisioning.Spm.Server.{World, Deps, SkuState, with_sku}
use opentitan_provisioning.Spm.Server.Handlers.{derive_tokens, endorse_certs, endorse_payload}

module _ {H A : Type 0} where
  with_entry-eq-ok :
      (name : String) (f : SkuState → Exec (H × SessionQueue) A) (w : World H) (o : Option SkuState)
      {a : A}
      → lookup name w.server.skus ≡ o
      → (with_sku name f w).0 ≡ ok a
      → (sku : SkuState) × (lookup name w.server.skus ≡ some sku)
        × ((f sku (w.outside, sku.sessions)).0 ≡ ok a)
  unfolding with_sku
  with_entry-eq-ok name f w none found e = absurd (ground arith)
  with_entry-eq-ok name f w (some sku) found e = (sku, found, rw (found, with_sku) at e)

  -- A handler that succeeds ran on the entry of its SKU.
  pub with_sku-eq-ok :
      (name : String) (f : SkuState → Exec (H × SessionQueue) A) (w : World H) {a : A}
      → (with_sku name f w).0 ≡ ok a
      → (sku : SkuState) × (lookup name w.server.skus ≡ some sku)
        × ((f sku (w.outside, sku.sessions)).0 ≡ ok a)
  with_sku-eq-ok name f w e = with_entry-eq-ok name f w (lookup name w.server.skus) refl e

module _ {H : Type 0} (deps : Deps H) where
  -- For a SKU that is not initialized, DeriveTokens, EndorseCerts and EndorseData return the status
  -- NotFound and change nothing.
  pub handlers-unknown_sku :
      (w : World H) (name : String)
      → lookup name w.server.skus ≡ none
      → ((request : DeriveTokensRequest)
          → request.sku ≡ name
          → derive_tokens deps request w
            ≡ (err (status not_found "unable to find sku %q. Try calling InitSession first"), w))
        × ((request : EndorseCertsRequest)
            → request.sku ≡ name
            → endorse_certs deps request w
              ≡ (err (status not_found "unable to find sku %q. Try calling InitSession first"), w))
        × ((request : EndorseDataRequest)
            → request.sku ≡ name
            → endorse_payload deps request w
              ≡ (err (status not_found "unable to find sku %q. Try calling InitSession first"), w))
  unfolding derive_tokens endorse_certs endorse_payload with_sku
  handlers-unknown_sku w name missing =
      (λ request e. ground arith, λ request e. ground arith, λ request e. ground arith)
