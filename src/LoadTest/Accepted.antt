-- ===== src/LoadTest/Accepted.antt =====
-- The requests of src/pa/loadtest.go against the checks of the code that receives them.
use opentitan_provisioning.Base.{ℕ, ◌≡◌, refl, inl, inr, String, ok, arith, length-replicate}
use opentitan_provisioning.Proto.{DeviceData}
use opentitan_provisioning.Proto.Validators.{
  validate_device_id, validate_device_data, validate_device_data_iff, validate_device_id_iff,
}
use opentitan_provisioning.LoadTest.{
  Service, Request, registration_request, derive_tokens_request, endorse_certs_request,
  renew_device, registration_data, renumbered, test_ot_register_device,
}

-- A device whose data both checks of the proxy buffer let through.
pub record IsValid (d : DeviceData) : Type 0 where
  pub valid_id : validate_device_id d.device_id ≡ ok tt
  pub valid_data : validate_device_data d ≡ ok tt

registration_data-IsValid : (sku : String) (number : ℕ) → IsValid (registration_data sku number)
unfolding registration_data
registration_data-IsValid sku number = record {
  valid_id = (validate_device_id_iff _).1 (record {
    creator = inl refl;
    product = inl refl;
    sku = inr (length-replicate {A = ℕ} 16 0);
  });
  valid_data = (validate_device_data_iff _).1 (
    omega (arith, length-replicate {A = ℕ} 27 0),
    omega (arith, length-replicate {A = ℕ} 8192 0),
    omega arith,
    omega arith,
  );
}

IsValid-renumbered : (d : DeviceData) (number : ℕ) → IsValid d → IsValid (renumbered number d)
unfolding renumbered
IsValid-renumbered d number v =
    let known = (validate_device_id_iff d.device_id).0 v.valid_id in
    record {
      valid_id =
          (validate_device_id_iff _).1
            (record { creator = known.creator; product = known.product; sku = known.sku });
      valid_data = (validate_device_data_iff _).1 ((validate_device_data_iff d).0 v.valid_data);
    }

abbrev pub Registers : Request → Type 0
Registers (registration_request d) = IsValid d
Registers (derive_tokens_request r) = ⊥
Registers (endorse_certs_request r) = ⊥

renew_device-Registers :
    {W : Type 0} (service : Service W) (r : Request) (w : W)
    → Registers r
    → Registers (renew_device service r w).0
unfolding renew_device
renew_device-Registers service (registration_request d) w v =
    IsValid-renumbered d (service.rand_uint64 w).0 v
renew_device-Registers service (derive_tokens_request r) w v = v
renew_device-Registers service (endorse_certs_request r) w v = v

-- Whatever the random numbers, every request of the RegisterDevice test, the first and those that
-- follow it, carries a device identifier and device data that ValidateDeviceId and
-- ValidateDeviceData accept.
pub test_ot_register_device-Registers :
    {W : Type 0} (service : Service W) (sku : String)
    → ((w : W) → Registers ((test_ot_register_device service sku).prepare w).0)
      × ((r : Request) (w : W)
          → Registers r
          → Registers ((test_ot_register_device service sku).renew r w).0)
unfolding test_ot_register_device
test_ot_register_device-Registers service sku = (
  λ w. registration_data-IsValid sku (service.rand_uint64 w).0,
  λ r w v. renew_device-Registers service r w v,
)
