-- ===== src/ProxyBuffer.antt =====
-- src/proxy_buffer: the service that buffers device records for the registry. This file has the
-- messages of proxy_buffer.proto, the validators of proto/validators.go and the handler of
-- services/proxybuffer.go; the children have the storage layer.
pub mod Store
pub mod Validators
pub mod Service
pub mod Program
mod Tests
use opentitan_provisioning.Base.{ℕ, String}
use opentitan_provisioning.Proto.{RegistryRecord}

-- enum DeviceRegistrationStatus
abbrev pub device_registration_status_unspecified : ℕ
device_registration_status_unspecified = 0

abbrev pub device_registration_status_success : ℕ
device_registration_status_success = 1

abbrev pub device_registration_status_bad_request : ℕ
device_registration_status_bad_request = 2

abbrev pub device_registration_status_buffer_full : ℕ
device_registration_status_buffer_full = 3

pub record DeviceRegistrationRequest : Type 0 where
  pub registry_record : RegistryRecord

pub record DeviceRegistrationResponse : Type 0 where
  pub status : ℕ
  pub device_id : String
