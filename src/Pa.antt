-- ===== src/Pa.antt =====
-- src/pa/services: the provisioning appliance (pa.go) and the registration of a device
-- (registry_shim/registry_shim.go). The clients of the SPM and of the proxy buffer are arguments;
-- Pa/Registered.antt puts the proxy buffer's service behind the second.
pub mod Sessions
pub mod Registered
pub mod Server
mod Tests
use opentitan_provisioning.Base.{
  ℕ, String, List, Option, none, some, Result, ok, err, errorf, status, internal, panic, or_else,
}
use opentitan_provisioning.Base.Exec.{Exec, ◌>>=◌, ◌>>◌, pure, raise, or_raise, lift}
use opentitan_provisioning.Proto.{Bytes, DeviceData, RegistryRecord}
use opentitan_provisioning.Proto.DeviceIdText.{device_id_to_hex_string}
use opentitan_provisioning.Auth.{User, UserStore}
use opentitan_provisioning.Auth.Controller.{
  AuthController, Instance, get_instance, add_user, remove_user,
}
use opentitan_provisioning.Auth.Interceptor.{
  Context, Metadata, metadata_from_incoming_context, get_user_id,
}
use opentitan_provisioning.ProxyBuffer.{DeviceRegistrationRequest, DeviceRegistrationResponse}
use opentitan_provisioning.Spm.Messages.{
  InitSessionRequest, InitSessionResponse, EndorseCertsRequest, EndorseCertsResponse,
  DeriveTokensRequest, DeriveTokensResponse, GetStoredTokensRequest, GetStoredTokensResponse,
  EndorseDataRequest, EndorseDataResponse, RegistrationRequest, SigningKeyParams, ecdsa_params,
  hash_type_sha384,
}

-- pbs.SpmServiceClient
pub record SpmClient (S : Type 0) : Type 0 where
  pub init_session : InitSessionRequest → Exec S InitSessionResponse
  pub endorse_certs : EndorseCertsRequest → Exec S EndorseCertsResponse
  pub derive_tokens : DeriveTokensRequest → Exec S DeriveTokensResponse
  pub get_stored_tokens : GetStoredTokensRequest → Exec S GetStoredTokensResponse
  pub endorse_data : EndorseDataRequest → Exec S EndorseDataResponse

-- proxybuffer.Registry, and `none` for a nil interface.
abbrev pub PbClient : Type 0 → Type 0
PbClient S = Option (DeviceRegistrationRequest → Exec S DeviceRegistrationResponse)

-- The process's controller of sessions, and all that is behind the clients.
pub record Appliance (S : Type 0) : Type 0 where
  pub instance_ : Instance
  pub outside : S

abbrev pub on_outside : {S A : Type 0} → Exec S A → Exec (Appliance S) A
on_outside m p = ((m p.outside).0, record p { outside = (m p.outside).1 })

-- A call of the controller that GetInstance returned, on the store that it points to.
abbrev pub stored :
    {S A : Type 0} → AuthController → Appliance S → Result A × UserStore → Result A × Appliance S
stored c p (r, store) = (r, record p { instance_ = some (record c { user_store = store }) })

abbrev pub on_controller : {S A : Type 0} → AuthController → Exec UserStore A → Exec (Appliance S) A
on_controller c m p = stored c p (m c.user_store)

-- The curve and the encoding that the source asks for are read by no code of the SPM.
abbrev pub endorse_request : String → Bytes → EndorseDataRequest
endorse_request sku device_data_bytes = record {
  sku = sku;
  key_params =
      some (record { key_label = "SigningKey/Identity/v0"; key = ecdsa_params hash_type_sha384 });
  payload = device_data_bytes;
}

-- The record that is sent to the proxy buffer.
unfoldable pub registry_record : DeviceData → Bytes → EndorseDataResponse → RegistryRecord
registry_record device_data device_data_bytes endorsed = record {
  device_id = device_id_to_hex_string device_data.device_id;
  sku = device_data.sku;
  version = 0;
  contents = device_data_bytes;
  auth_pubkey = endorsed.pubkey;
  auth_signature = endorsed.signature;
}

module _ {S : Type 0} (spm : SpmClient S) where
  unfoldable pub init_session :
      Context → InitSessionRequest → Exec (Appliance S) InitSessionResponse
  init_session ctx request p =
      (or_raise (on_outside (spm.init_session request)) (status internal "SPM returned error: %v")
          >>= λ r. lift (get_instance p.instance_) >>= λ auth_controller.
              lift (metadata_from_incoming_context ctx) >>= λ md.
              lift (get_user_id ctx md) >>= λ user_id.
              or_raise
                (on_controller auth_controller
                  (add_user user_id r.sku_session_token request.sku r.auth_methods))
                (status internal "failed to add user: %v")
              >>= λ user. pure (record r { pa_endpoint = "TODO: SET_PA_ENDPOINT" }))
        p

  unfoldable pub close_session : Context → Exec (Appliance S) (Unit {0})
  close_session ctx p =
      (lift (get_instance p.instance_) >>= λ auth_controller.
      lift (metadata_from_incoming_context ctx) >>= λ md. lift (get_user_id ctx md) >>= λ user_id.
      or_raise (on_controller auth_controller (remove_user user_id))
        (status internal "failed to remove user: %v")
      >>= λ user. pure tt)
        p

  unfoldable pub endorse_certs : EndorseCertsRequest → Exec (Appliance S) EndorseCertsResponse
  endorse_certs request =
      or_raise (on_outside (spm.endorse_certs request)) (status internal "SPM returned error: %v")

  unfoldable pub derive_tokens : DeriveTokensRequest → Exec (Appliance S) DeriveTokensResponse
  derive_tokens request =
      or_raise (on_outside (spm.derive_tokens request)) (status internal "SPM returned error: %v")

  unfoldable pub get_stored_tokens :
      GetStoredTokensRequest → Exec (Appliance S) GetStoredTokensResponse
  get_stored_tokens request =
      or_raise (on_outside (spm.get_stored_tokens request))
        (status internal "SPM returned error: %v")

  -- proto.Marshal of the device data is a parameter.
  module _ (marshal : DeviceData → Result Bytes) where
    unfoldable pub registered : PbClient S → DeviceData → Exec S (Unit {0})
    registered none device_data =
        raise (status internal "RegisterDevice ended with error, PA started without ProxyBuffer")
    registered (some register) device_data = do
      device_data_bytes ←
          or_raise (lift (marshal device_data)) (errorf "failed to marshal device data")
      endorsed ←
          or_raise (spm.endorse_data (endorse_request device_data.sku device_data_bytes))
            (status internal "SPM-EndorseData returned error: %v")
      response ←
          or_raise
            (register
              (record { registry_record = registry_record device_data device_data_bytes endorsed }))
            (status internal "RegisterDevice returned error: %v")
      pure tt

    -- A request without device data is a nil pointer.
    unfoldable pub register_device : PbClient S → RegistrationRequest → Exec S (Unit {0})
    unfolding registered
    register_device pb_client request = elim request.device_data [
      | none ↦ raise (panic "nil pointer dereference")
      | some device_data ↦ registered pb_client device_data
    ]
