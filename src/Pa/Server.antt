-- ===== src/Pa/Server.antt =====
-- src/pa/pa_server.go: the start of the appliance's server, and its methods behind the interceptor.
-- Listeners, credentials and connections are the parameter `Startup`. The full names of the methods
-- are those that protobuf generates for src/pa/proto/pa.proto.
use opentitan_provisioning.Base.{
  ℕ, Bool, String, none, Result, errorf, if◌then◌else◌, nat_eq, str_eq,
}
use opentitan_provisioning.Base.Exec.{Exec, ◌>>◌, pure, raise, or_raise, when}
use opentitan_provisioning.Auth.Controller.{Instance, new_auth_controller_instance}
use opentitan_provisioning.Auth.Interceptor.{AuthInterceptor, Context, new_auth_interceptor, unary}
use opentitan_provisioning.Grpconn.{Resolver}
use opentitan_provisioning.Spm.Messages.{
  InitSessionRequest, InitSessionResponse, EndorseCertsRequest, EndorseCertsResponse,
  DeriveTokensRequest, DeriveTokensResponse, RegistrationRequest,
}
use opentitan_provisioning.Proto.{Bytes, DeviceData}
use opentitan_provisioning.Pa.{
  SpmClient, PbClient, Appliance, init_session, close_session, derive_tokens, endorse_certs,
  register_device, on_outside,
}

pub record Flags : Type 0 where
  pub port : ℕ
  pub spm_address : String
  pub enable_proxy_buffer : Bool
  pub pb_address : String
  pub enable_tls : Bool

pub record Startup (W : Type 0) : Type 0 where
  pub listen : ℕ → Exec W (Unit {0})
  pub load_server_credentials : Exec W (Unit {0})
  pub load_client_credentials : Exec W (Unit {0})
  pub dial : String → Exec W (Unit {0})
  pub serve : Exec W (Unit {0})

-- What startPAServer and main set up: the interceptor, the process's controller, and whether there is a
-- client of the proxy buffer.
pub record Serving : Type 0 where
  pub interceptor : AuthInterceptor
  pub instance_ : Instance
  pub has_pb_client : Bool

module _ {W : Type 0} (startup : Startup W) (flags : Flags) where
  unfoldable pub start_pa_server : Bool → Exec W Serving
  start_pa_server has_pb_client = do
    when flags.enable_tls startup.load_server_credentials
    pure (record {
      interceptor = new_auth_interceptor flags.enable_tls;
      instance_ = (new_auth_controller_instance flags.enable_tls none).1;
      has_pb_client = has_pb_client;
    })

  -- startSPMClient, and startProxyBufferClient, which is the same for the other address.
  unfoldable pub start_client : String → Exec W (Unit {0})
  start_client address = do
    when flags.enable_tls startup.load_client_credentials
    startup.dial address

  unfoldable pub required : String → String → Exec W (Unit {0})
  required value message = when (str_eq value "") (raise (errorf message))

  unfoldable pub start_pb_client : Exec W (Unit {0})
  unfolding required start_client
  start_pb_client = do
    required flags.pb_address "`pb_address` parameter missing"
    or_raise (start_client flags.pb_address) (errorf "failed to initialize RegisterBuffer client")

  -- main up to the call of Serve: log.Fatalf ends the program with an error.
  unfoldable pub started : Exec W Serving
  unfolding required start_client start_pb_client start_pa_server
  started = do
    when (nat_eq flags.port 0) (raise (errorf "`port` parameter missing"))
    or_raise (startup.listen flags.port) (errorf "server failed to listen")
    required flags.spm_address "`spm_address` parameter missing"
    or_raise (start_client flags.spm_address) (errorf "failed to initialize SPM client")
    when flags.enable_proxy_buffer start_pb_client
    or_raise (start_pa_server flags.enable_proxy_buffer) (errorf "failed to start PA server")

  unfoldable pub main : Exec W (Unit {0})
  unfolding started
  main = do started; or_raise startup.serve (errorf "PA server fatal error")

abbrev pub init_session_method : String
init_session_method = "/pa.ProvisioningApplianceService/InitSession"

abbrev pub close_session_method : String
close_session_method = "/pa.ProvisioningApplianceService/CloseSession"

abbrev pub derive_tokens_method : String
derive_tokens_method = "/pa.ProvisioningApplianceService/DeriveTokens"

abbrev pub endorse_certs_method : String
endorse_certs_method = "/pa.ProvisioningApplianceService/EndorseCerts"

abbrev pub register_device_method : String
register_device_method = "/pa.ProvisioningApplianceService/RegisterDevice"

-- A method of the server that was started, on a process whose clients are connected.
module _ {S : Type 0} (serving : Serving) (lookup_addr : Resolver) (spm : SpmClient S) where
  unfoldable pub intercepted :
      {A : Type 0} → String → Context → Exec (Appliance S) A → Exec (Appliance S) A
  intercepted method ctx handler =
      unary (λ p. p.instance_) lookup_addr serving.interceptor ctx method handler

  unfoldable pub served_init_session :
      Context → InitSessionRequest → Exec (Appliance S) InitSessionResponse
  unfolding intercepted
  served_init_session ctx request =
      intercepted init_session_method ctx (init_session spm ctx request)

  unfoldable pub served_close_session : Context → Exec (Appliance S) (Unit {0})
  unfolding intercepted
  served_close_session ctx = intercepted close_session_method ctx (close_session spm ctx)

  unfoldable pub served_derive_tokens :
      Context → DeriveTokensRequest → Exec (Appliance S) DeriveTokensResponse
  unfolding intercepted
  served_derive_tokens ctx request =
      intercepted derive_tokens_method ctx (derive_tokens spm request)

  unfoldable pub served_endorse_certs :
      Context → EndorseCertsRequest → Exec (Appliance S) EndorseCertsResponse
  unfolding intercepted
  served_endorse_certs ctx request =
      intercepted endorse_certs_method ctx (endorse_certs spm request)

  -- Without a client of the proxy buffer the handler has a nil one.
  unfoldable pub served_register_device :
      (DeviceData → Result Bytes)
      → PbClient S
      → Context
      → RegistrationRequest
      → Exec (Appliance S) (Unit {0})
  unfolding intercepted
  served_register_device marshal pb_client ctx request = intercepted register_device_method ctx (
      on_outside
        (register_device spm marshal (if serving.has_pb_client then pb_client else none) request))
