-- ===== src/Spm/Program.antt =====
-- src/spm/spm_server.go: the start of the SPM's server, and its methods behind the interceptor. What
-- the operating system and gRPC do is the parameter `Startup`; its state is that of the process
-- before it serves.
use opentitan_provisioning.Base.{ℕ, Bool, String, Option, errorf, nat_eq, if◌then◌else◌}
use opentitan_provisioning.Base.Exec.{Exec, ◌>>=◌, ◌>>◌, raise, or_raise, when}
use opentitan_provisioning.Grpconn.{Peer, Resolver, check_endpoint_interceptor}
use opentitan_provisioning.Spm.Server.{World, Server, Deps}
use opentitan_provisioning.Spm.Server.Sessions.{new_spm_server}

pub record Flags : Type 0 where
  pub port : ℕ
  pub hsm_pw_file : String
  pub hsm_so_path : String
  pub enable_tls : Bool
  pub spm_auth_config : String
  pub spm_config_dir : String

pub record Startup (H : Type 0) : Type 0 where
  pub listen : ℕ → Exec (Bool × H) (Unit {0})
  pub load_server_credentials : Exec (Bool × H) (Unit {0})
  pub serve : Server → Exec (Bool × H) (Unit {0})

module _ {H : Type 0} (deps : Deps H) (startup : Startup H) (flags : Flags) where
  unfoldable pub start_spm_server : Exec (Bool × H) Server
  start_spm_server = do
    when flags.enable_tls startup.load_server_credentials
    new_spm_server deps (record {
      hsm_so_lib_path = flags.hsm_so_path;
      spm_auth_config_file = flags.spm_auth_config;
      spm_config_dir = flags.spm_config_dir;
      hsm_pw_file = flags.hsm_pw_file;
    })

  -- main up to the call of Serve: log.Fatalf ends the program with an error.
  unfoldable pub started : Exec (Bool × H) Server
  unfolding start_spm_server
  started = do
    when (nat_eq flags.port 0) (raise (errorf "`port` parameter missing"))
    or_raise (startup.listen flags.port) (errorf "Server failed to listen")
    or_raise start_spm_server (errorf "failed to start SPM server")

  unfoldable pub main : Exec (Bool × H) (Unit {0})
  unfolding started
  main = started >>= λ server. or_raise (startup.serve server) (errorf "SPM server failed to start")

-- A method of the server: with TLS it stands behind the check of the client's address.
unfoldable pub served :
    {H A : Type 0} → Flags → Resolver → Option Peer → Exec (World H) A → Exec (World H) A
served flags lookup_addr peer handler =
    if flags.enable_tls then check_endpoint_interceptor lookup_addr peer handler else handler
