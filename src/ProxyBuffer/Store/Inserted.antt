-- ===== src/ProxyBuffer/Store/Inserted.antt =====
-- What InsertDevice and GetDevice of src/proxy_buffer/store/db.go do over a faithful connector.
use opentitan_provisioning.Base.{
  String, ◌≡◌, ◌≢◌, Result, ok, err, Error, or_else, arith, refl, Result-cases, inl, inr,
}
use opentitan_provisioning.Proto.{Bytes, RegistryRecord}
use opentitan_provisioning.ProxyBuffer.Store.{Connector, IsFaithful, insert_device, get_device}

module _ {S : Type 0} (c : Connector S) (marshal : RegistryRecord → Result Bytes)
    (unmarshal : Bytes → Result RegistryRecord) (faithful : IsFaithful c) where
  pub insert_device-eq-ok :
      (rr : RegistryRecord) (s t : S)
      → insert_device c marshal unmarshal rr s ≡ (ok tt, t)
      → (b : Bytes) × (marshal rr ≡ ok b) × (c.insert rr.device_id rr.sku b s ≡ (ok tt, t))
  unfolding insert_device
  insert_device-eq-ok rr s t h = elim (Result-cases (marshal rr)) [
    | inl (b, e) ↦ (b, e, rw (e, or_else) at h)
    | inr (raw, e) ↦ absurd (ground arith)
  ]

  pub insert_device-eq-err :
      (rr : RegistryRecord) (s t : S) (x : Error)
      → insert_device c marshal unmarshal rr s ≡ (err x, t)
      → (k : String) → get_device c marshal unmarshal k t ≡ get_device c marshal unmarshal k s
  unfolding insert_device get_device
  insert_device-eq-err rr s t x h k = elim (Result-cases (marshal rr)) [
    | inl (b, e) ↦
        rw (faithful.failed_keeps rr.device_id rr.sku b s t x (rw (e, or_else) at h) k) refl
    | inr (raw, e) ↦ let same : t ≡ s = ground (arith, e, h) in rw same refl
  ]

  module _
      (decodes : (rr : RegistryRecord) (b : Bytes) → marshal rr ≡ ok b → unmarshal b ≡ ok rr) where
    pub get_device-inserted :
        (rr : RegistryRecord) (s t : S)
        → insert_device c marshal unmarshal rr s ≡ (ok tt, t)
        → get_device c marshal unmarshal rr.device_id t ≡ ok rr
    unfolding get_device
    get_device-inserted rr s t h =
        let (b, encoded, stored) = insert_device-eq-ok rr s t h in
        ground (arith, faithful.get_inserted rr.device_id rr.sku b s t stored, decodes rr b encoded)

  pub get_device-other :
      (rr : RegistryRecord) (s t : S) (k : String)
      → insert_device c marshal unmarshal rr s ≡ (ok tt, t)
      → rr.device_id ≢ k
      → get_device c marshal unmarshal k t ≡ get_device c marshal unmarshal k s
  unfolding get_device
  get_device-other rr s t k h ne =
      let (b, encoded, stored) = insert_device-eq-ok rr s t h in
      rw (faithful.get_other rr.device_id rr.sku b s t k stored ne)
