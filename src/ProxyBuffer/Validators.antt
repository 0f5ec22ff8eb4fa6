-- ===== src/ProxyBuffer/Validators.antt =====
-- src/proxy_buffer/proto/validators.go
use opentitan_provisioning.Base.{
  ℕ, ◌||◌, Result, ok, err, errorf, ◌>>◌, if◌then◌else◌, nat_eq, str_eq, length,
}
use opentitan_provisioning.ProxyBuffer.{
  DeviceRegistrationRequest, DeviceRegistrationResponse, device_registration_status_success,
  device_registration_status_bad_request, device_registration_status_buffer_full,
}

unfoldable pub validate_device_registration_request : DeviceRegistrationRequest → Result (Unit {0})
validate_device_registration_request request =
    if str_eq request.registry_record.device_id ""
    then err (errorf "Invalid DeviceRegistrationRequest; DeviceId empty")
    else if str_eq request.registry_record.sku ""
    then err (errorf "Invalid DeviceRegistrationRequest; SKU empty")
    else if nat_eq (length request.registry_record.contents) 0
    then err (errorf "Invalid DeviceRegistrationRequest; Data empty")
    else ok tt

pub validate_device_registration_status : ℕ → Result (Unit {0})
validate_device_registration_status s =
    if nat_eq s device_registration_status_success
      || nat_eq s device_registration_status_bad_request
      || nat_eq s device_registration_status_buffer_full
    then ok tt
    else err (errorf "Invalid DeviceRegistrationStatus")

unfoldable pub validate_device_registration_response :
    DeviceRegistrationResponse → Result (Unit {0})
unfolding validate_device_registration_status
validate_device_registration_response response = do
  validate_device_registration_status response.status
  if str_eq response.device_id ""
      then err (errorf "Invalid DeviceRegistrationResponse; DeviceId empty")
      else ok tt
