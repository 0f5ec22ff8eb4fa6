-- ===== src/ProxyBuffer/Program.antt =====
-- src/proxy_buffer/pb_server.go: the start of the proxy buffer's server, and its method. What the
-- operating system and gRPC do, and filedb.New, are the parameter `Startup`.
use opentitan_provisioning.Base.{
  ℕ, Bool, String, Option, none, some, Result, ok, err, Error, errorf, nat_eq, if◌then◌else◌,
}
use opentitan_provisioning.Base.Exec.{Exec, ◌>>◌, raise, or_raise, when}
use opentitan_provisioning.Proto.{Bytes, RegistryRecord}
use opentitan_provisioning.Grpconn.{Peer, Resolver, check_endpoint_interceptor}
use opentitan_provisioning.ProxyBuffer.{DeviceRegistrationRequest, DeviceRegistrationResponse}
use opentitan_provisioning.ProxyBuffer.Store.{Connector}
use opentitan_provisioning.ProxyBuffer.Service.{register_device}

pub record Flags : Type 0 where
  pub port : ℕ
  pub db_path : String
  pub enable_tls : Bool

pub record Startup (W : Type 0) : Type 0 where
  pub open_database : String → Exec W (Unit {0})
  pub listen : ℕ → Exec W (Unit {0})
  pub load_server_credentials : Exec W (Unit {0})
  pub serve : Exec W (Unit {0})

module _ {W : Type 0} (startup : Startup W) (flags : Flags) where
  -- main up to the call of Serve: log.Fatalf ends the program with an error.
  unfoldable pub started : Exec W (Unit {0})
  started = do
    when (nat_eq flags.port 0) (raise (errorf "`port` parameter missing"))
    or_raise (startup.open_database flags.db_path) (errorf "Failed to initialize database")
    or_raise (startup.listen flags.port) (errorf "Server failed to listen")
    when flags.enable_tls
        (or_raise startup.load_server_credentials (errorf "Failed to load server credentials"))

  -- The error of Serve is dropped.
  unfoldable pub main : Exec W (Unit {0})
  unfolding started
  main = started >> λ w. (ok tt, (startup.serve w).1)

-- gRPC sends an error without the response that the handler returned beside it.
unfoldable pub over_grpc :
    {S : Type 0}
    → (DeviceRegistrationResponse × Option Error) × S
    → Result DeviceRegistrationResponse × S
over_grpc ((response, none), s) = (ok response, s)
over_grpc ((response, some e), s) = (err e, s)

-- The method RegisterDevice of the server.
unfoldable pub served_register_device :
    {S : Type 0}
    → Flags
    → Resolver
    → Option Peer
    → Connector S
    → (RegistryRecord → Result Bytes)
    → (Bytes → Result RegistryRecord)
    → DeviceRegistrationRequest
    → Exec S DeviceRegistrationResponse
unfolding over_grpc
served_register_device flags lookup_addr peer connector marshal unmarshal request =
    let handler : Exec _ DeviceRegistrationResponse =
      λ s. over_grpc (register_device connector marshal unmarshal request s) in
    if flags.enable_tls then check_endpoint_interceptor lookup_addr peer handler else handler
