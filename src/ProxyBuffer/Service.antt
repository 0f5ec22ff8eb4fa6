-- ===== src/ProxyBuffer/Service.antt =====
-- src/proxy_buffer/services/proxybuffer.go: the handler, which returns a response beside an error.
use opentitan_provisioning.Base.{
  ℕ, String, ◌≡◌, ◌≢◌, ◌↔◌, Option, none, some, Result, ok, err, status, Error, internal,
  invalid_argument, arith, Result-cases, inl, inr, eq_iff, ap,
}
use opentitan_provisioning.Proto.{Bytes, RegistryRecord}
use opentitan_provisioning.ProxyBuffer.{
  DeviceRegistrationRequest, DeviceRegistrationResponse, device_registration_status_success,
  device_registration_status_bad_request,
}
use opentitan_provisioning.ProxyBuffer.Validators.{
  validate_device_registration_request, validate_device_registration_response,
}
use opentitan_provisioning.ProxyBuffer.Store.Inserted.{
  insert_device-eq-err, get_device-inserted, get_device-other,
}
use opentitan_provisioning.ProxyBuffer.Store.{Connector, IsFaithful, insert_device, get_device}

abbrev respond : String → ℕ → DeviceRegistrationResponse
respond device_id s = record { status = s; device_id = device_id }

module _ {S : Type 0} (c : Connector S) (marshal : RegistryRecord → Result Bytes)
    (unmarshal : Bytes → Result RegistryRecord) where
  after_insert : String → Result (Unit {0}) × S → (DeviceRegistrationResponse × Option Error) × S
  after_insert device_id (ok _, s) =
      ((respond device_id device_registration_status_success, none), s)
  after_insert device_id (err _, s) = (
    (
      respond device_id device_registration_status_bad_request,
      some (status internal "failed to insert record"),
    ),
    s,
  )

  unfoldable pub register_device :
      DeviceRegistrationRequest → S → (DeviceRegistrationResponse × Option Error) × S
  unfolding after_insert
  register_device request s =
      let device_id = request.registry_record.device_id in
      elim (validate_device_registration_request request) [
        | err _ ↦ (
          (
            respond device_id device_registration_status_bad_request,
            some (status invalid_argument "failed request validation"),
          ),
          s,
        )
        | ok _ ↦
            after_insert device_id (insert_device c marshal unmarshal request.registry_record s)
      ]

  -- Every response names the device of the request, and where that is not empty the response passes
  -- ValidateDeviceRegistrationResponse; its status is SUCCESS exactly when no error is returned.
  pub register_device-response :
      (request : DeviceRegistrationRequest) (s : S)
      → ((register_device request s).0.0.device_id ≡ request.registry_record.device_id)
        × (request.registry_record.device_id ≢ ""
            → validate_device_registration_response (register_device request s).0.0 ≡ ok tt)
        × (((register_device request s).0.0.status ≡ device_registration_status_success)
            ↔ ((register_device request s).0.1 ≡ none))
  unfolding register_device validate_device_registration_response
  register_device-response request s = (
    ground arith,
    λ ne. ground (arith, eq_iff request.registry_record.device_id ""),
    ground arith,
  )

  after_insert-eq-none :
      (device_id : String) (p : Result (Unit {0}) × S) {r : DeviceRegistrationResponse} {t : S}
      → after_insert device_id p ≡ ((r, none), t)
      → p ≡ (ok tt, t)
  unfolding after_insert
  after_insert-eq-none device_id (ok _, s) h = λ i. (ok tt, (h i).1)
  after_insert-eq-none device_id (err _, s) h = cc (ap (λ p. p.0.1) h)

  after_insert-eq-some :
      (device_id : String) (p : Result (Unit {0}) × S) {r : DeviceRegistrationResponse} {t : S}
      {e : Error}
      → after_insert device_id p ≡ ((r, some e), t)
      → (x : Error) × (p ≡ (err x, t))
  unfolding after_insert
  after_insert-eq-some device_id (ok _, s) h = cc (ap (λ p. p.0.1) h)
  after_insert-eq-some device_id (err x, s) h = (x, λ i. (err x, (h i).1))

  registered :
      (request : DeviceRegistrationRequest) (s t : S) (response : DeviceRegistrationResponse)
      → register_device request s ≡ ((response, none), t)
      → insert_device c marshal unmarshal request.registry_record s ≡ (ok tt, t)
  unfolding register_device
  registered request s t response h =
      elim (Result-cases (validate_device_registration_request request)) [
        | inl (u, valid) ↦
            after_insert-eq-none request.registry_record.device_id
              (insert_device c marshal unmarshal request.registry_record s)
              (rw (valid, register_device) at h)
        | inr (x, invalid) ↦ absurd (ground arith)
      ]

  module _ (faithful : IsFaithful c)
      (decodes : (rr : RegistryRecord) (b : Bytes) → marshal rr ≡ ok b → unmarshal b ≡ ok rr) where
    -- Over a connector that keeps the contract, and where marshalled records can be read back, a
    -- registration that succeeds stores the record whole: GetDevice returns it under its device
    -- identifier, and reads every other identifier as before.
    pub register_device-stored :
        (request : DeviceRegistrationRequest) (s t : S) (response : DeviceRegistrationResponse)
        → register_device request s ≡ ((response, none), t)
        → (get_device c marshal unmarshal request.registry_record.device_id t
            ≡ ok request.registry_record)
          × ((k : String)
              → request.registry_record.device_id ≢ k
              → get_device c marshal unmarshal k t ≡ get_device c marshal unmarshal k s)
    unfolding register_device
    register_device-stored request s t response h =
        let done = registered request s t response h in
        (
          get_device-inserted c marshal unmarshal faithful decodes request.registry_record s t done,
          λ k ne.
              get_device-other c marshal unmarshal faithful request.registry_record s t k done ne,
        )

    -- Over a connector that keeps the contract, a registration that fails, for whatever reason,
    -- leaves every record as it was.
    pub register_device-failed :
        (request : DeviceRegistrationRequest) (s t : S) (response : DeviceRegistrationResponse)
        (e : Error)
        → register_device request s ≡ ((response, some e), t)
        → (k : String) → get_device c marshal unmarshal k t ≡ get_device c marshal unmarshal k s
    unfolding register_device
    register_device-failed request s t response e h k =
        elim (Result-cases (validate_device_registration_request request)) [
          | inl (u, valid) ↦
              let (x, refused) =
                after_insert-eq-some request.registry_record.device_id
                  (insert_device c marshal unmarshal request.registry_record s)
                  (rw (valid, register_device) at h) in
              insert_device-eq-err c marshal unmarshal faithful request.registry_record s t x
                refused k
          | inr (x, invalid) ↦
              let same : t ≡ s = ground (arith, invalid, h) in
              ap (get_device c marshal unmarshal k) same
        ]
