-- ===== src/System/Started.antt =====
-- The two programs src/pa/pa_server.go and src/spm/spm_server.go, as main starts them.
use opentitan_provisioning.Base.{
  ◌≡◌, sym, ap, subst, ◌∙◌, arith, Bool, true, [], none, some, Result, ok, errorf, or_else, nat_eq,
}
use opentitan_provisioning.Base.Exec.{continue-eq-ok, or_raise-eq-ok, raise, when}
use opentitan_provisioning.Proto.{Bytes, DeviceData}
use opentitan_provisioning.Grpconn.{Resolver}
use opentitan_provisioning.Auth.Controller.{new_auth_controller_instance}
use opentitan_provisioning.Auth.Interceptor.{exclude_methods_list, new_auth_interceptor}
use opentitan_provisioning.Spm.SkuConfig.{Auth}
use opentitan_provisioning.Spm.Server
use opentitan_provisioning.Spm.Server.{World, Deps}
use opentitan_provisioning.Spm.Server.Sessions.Started.{new_spm_server-started}
use opentitan_provisioning.Spm.Program
use opentitan_provisioning.Spm.Program.{start_spm_server}
use opentitan_provisioning.Pa.{PbClient}
use opentitan_provisioning.Pa.Server as Appliances
use opentitan_provisioning.Pa.Server.{Serving, start_pa_server}
use opentitan_provisioning.System.{Reachable, start}

-- The SPM's program comes to serve with the authorizations of its file and with no SKU.
spm_started :
    {H : Type 0} (deps : Deps H) (startup : Program.Startup H) (flags : Program.Flags)
    (s t : Bool × H) (server : Server.Server)
    → Program.started deps startup flags s ≡ (ok server, t)
    → (auth_cfg : Auth) × (server.auth_cfg ≡ some auth_cfg) × (server.skus ≡ []) × (t.0 ≡ true)
unfolding Program.started start_spm_server
spm_started deps startup flags s t server e =
    let checked = when (nat_eq flags.port 0) (raise (errorf "`port` parameter missing")) s in
    let (_, _, e1) = continue-eq-ok checked.0 _ _ e in
    let listening = startup.listen flags.port checked.1 in
    let (_, _, e2) = continue-eq-ok (or_else listening.0 _) _ _ e1 in
    let e3 =
      or_raise-eq-ok (start_spm_server deps startup flags) (errorf "failed to start SPM server")
        listening.1 e2 in
    let secured = when flags.enable_tls startup.load_server_credentials listening.1 in
    let (_, _, e4) = continue-eq-ok secured.0 _ _ e3 in
    new_spm_server-started deps
      (record {
        hsm_so_lib_path = flags.hsm_so_path;
        spm_auth_config_file = flags.spm_auth_config;
        spm_config_dir = flags.spm_config_dir;
        hsm_pw_file = flags.hsm_pw_file;
      })
      secured.1 t server e4

-- The appliance's program comes to serve with an empty store of users, behind an interceptor that
-- excludes the methods of the source's list.
appliance_started :
    {W : Type 0} (startup : Appliances.Startup W) (flags : Appliances.Flags) (w t : W)
    (serving : Serving)
    → Appliances.started startup flags w ≡ (ok serving, t)
    → (serving.instance_ ≡ (new_auth_controller_instance flags.enable_tls none).1)
      × (serving.interceptor ≡ new_auth_interceptor flags.enable_tls)
unfolding Appliances.started start_pa_server Appliances.required
appliance_started startup flags w t serving e =
    let checked = when (nat_eq flags.port 0) (raise (errorf "`port` parameter missing")) w in
    let (_, _, e1) = continue-eq-ok checked.0 _ _ e in
    let listening = startup.listen flags.port checked.1 in
    let (_, _, e2) = continue-eq-ok (or_else listening.0 _) _ _ e1 in
    let addressed =
      Appliances.required startup flags flags.spm_address "`spm_address` parameter missing"
        listening.1 in
    let (_, _, e3) = continue-eq-ok addressed.0 _ _ e2 in
    let spm = Appliances.start_client startup flags flags.spm_address addressed.1 in
    let (_, _, e4) = continue-eq-ok (or_else spm.0 _) _ _ e3 in
    let buffer = when flags.enable_proxy_buffer (Appliances.start_pb_client startup flags) spm.1 in
    let (_, _, e5) = continue-eq-ok buffer.0 _ _ e4 in
    let e6 =
      or_raise-eq-ok (start_pa_server startup flags flags.enable_proxy_buffer)
        (errorf "failed to start PA server") buffer.1 e5 in
    let secured = when flags.enable_tls startup.load_server_credentials buffer.1 in
    let (_, _, e7) = continue-eq-ok secured.0 _ _ e6 in (ground (arith, e7), ground (arith, e7))

-- When both programs have come to serve, the two are in a state from which the calls count as
-- Reachable does, under the authorizations that the SPM has loaded.
started-Reachable :
    {H W : Type 0} (deps : Deps H) (spm_startup : Program.Startup H) (spm_flags : Program.Flags)
    (startup : Appliances.Startup W) (flags : Appliances.Flags) (lookup_addr : Resolver)
    (marshal : DeviceData → Result Bytes) (pb_client : PbClient H) (s t : Bool × H)
    (server : Server.Server) (w x : W) (serving : Serving)
    → Program.started deps spm_startup spm_flags s ≡ (ok server, t)
    → Appliances.started startup flags w ≡ (ok serving, x)
    → (auth_cfg : Auth) × Reachable deps serving lookup_addr marshal pb_client auth_cfg (record {
      instance_ = serving.instance_;
      outside = record { server = server; session_token = t.0; outside = t.1 };
    })
      × (serving.interceptor.exclude_methods ≡ exclude_methods_list)
unfolding new_auth_interceptor
started-Reachable deps spm_startup spm_flags startup flags lookup_addr marshal pb_client s t server
      w x serving spm_runs pa_runs =
    let (auth_cfg, loaded, _, _) = spm_started deps spm_startup spm_flags s t server spm_runs in
    let (empty, interceptor) = appliance_started startup flags w x serving pa_runs in
    let tls : flags.enable_tls ≡ serving.interceptor.enable_tls =
      sym (ap (λ i. i.enable_tls) interceptor) in
    let fresh = empty ∙ ap (λ b. (new_auth_controller_instance b none).1) tls in
    (
      auth_cfg,
      subst
          (λ i. Reachable deps serving lookup_addr marshal pb_client auth_cfg (record {
            instance_ = i;
            outside = record { server = server; session_token = t.0; outside = t.1 };
          }))
          (sym fresh)
          (start (record { server = server; session_token = t.0; outside = t.1 }) loaded),
      ap (λ i. i.exclude_methods) interceptor,
    )
