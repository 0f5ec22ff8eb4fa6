-- ===== src/LoadTest/Tests.antt =====
-- Concrete runs of the model of src/pa/loadtest.go.
use opentitan_provisioning.Base.{
  inl, none, some, errorf, ℕ, suc, ◌+◌, ◌≡◌, refl, false, List, [], ◌∷◌, ok, err, errorf, status,
  internal,
}
use opentitan_provisioning.Base.Exec.{Exec}
use opentitan_provisioning.LoadTest.{
  Service, ClientTask, CallFunc, Flags, test_ot_derive_tokens, test_ot_register_device,
  test_ot_endorse_certs, setup, call, renew_device,
}
use opentitan_provisioning.Grpconn.{Resolver}
use opentitan_provisioning.Auth.Controller.{new_auth_controller_instance}
use opentitan_provisioning.Auth.Interceptor.{new_auth_interceptor}
use opentitan_provisioning.Spm.Messages.{InitSessionResponse}
use opentitan_provisioning.Pa.{SpmClient, Appliance, init_session}
use opentitan_provisioning.Pa.Server.{Serving}
use opentitan_provisioning.LoadTest.OnAppliance.{
  context, appliance_service, IsServed, setup-IsServed,
}
use opentitan_provisioning.LoadTest.{new_client_metadata}
use opentitan_provisioning.LoadTest.Run.{
  Console, move, launch, run, new_client_group, setup_clients, play, advance_at, collect, act,
}
use opentitan_provisioning.LoadTest.Progress.{Inevitable, Over}
use opentitan_provisioning.LoadTest.Verdict.{IsVerdict, run-Inevitable, run-IsVerdict}
use opentitan_provisioning.LoadTest.Program.{
  Scheduler, main, run_tests, run_test, run_group, summary, count_failed, failed_with,
}
use opentitan_provisioning.LoadTest.Passed.{Passed, main-Passed}
use opentitan_provisioning.LoadTest.Schedule.{receive_first, first_able, receive_first-IsFair}

-- An appliance that answers every call, and one that derives no tokens. The world counts calls.
abbrev service : Service ℕ
service = record {
  load_client_credentials = λ w. (ok tt, w);
  dial = λ w. (ok tt, w);
  init_session = λ md r w.
      (ok (record { sku_session_token = "token"; pa_endpoint = ""; auth_methods = [] }), w);
  derive_tokens = λ md r w. (ok (record { tokens = [] }), suc w);
  endorse_certs = λ md r w. (ok (record { certs = [] }), suc w);
  register_device = λ md r w. (ok tt, suc w);
  rand_uint64 = λ w. (w + 7, suc w);
}

abbrev failing : Service ℕ
failing = record service {
  derive_tokens = λ md r w. (err (status internal "SPM returned error: %v"), suc w);
}

abbrev flags : Flags
flags = record { enable_tls = false; test_sku_auth = "test_password" }

abbrev started : Console ℕ
started = record { world = 0; logged = [] }

abbrev scheduler : Service ℕ → Scheduler ℕ
scheduler s test n expected = receive_first s test n expected

abbrev two_clients : List ClientTask
two_clients = record { id = 0; auth_token = "token" } ∷ record { id = 1; auth_token = "token" } ∷ []

abbrev derive : CallFunc ℕ
derive = test_ot_derive_tokens service "sival"

-- Two clients with three calls each, all of which fail.
all_fail :
    (run failing
      (receive_first failing (test_ot_derive_tokens failing "sival") 3 6)
      two_clients
      3
      (test_ot_derive_tokens failing "sival")
      started).0
    ≡ err (errorf "detected %d call errors")
unfolding run play receive_first first_able collect advance_at act call move test_ot_derive_tokens
all_fail = refl

run-Inevitable_example :
    Inevitable (move service derive 3 6) (Over 6 0) (launch two_clients started)
run-Inevitable_example = run-Inevitable service derive 3 two_clients started

run-IsVerdict_example :
    IsVerdict started
      (run service (receive_first service derive 3 6) two_clients 3 derive started).1
      (run service (receive_first service derive 3 6) two_clients 3 derive started).0
run-IsVerdict_example =
    run-IsVerdict service derive 2 (receive_first service derive 3 6) two_clients started
      (receive_first-IsFair service derive 3 6)

abbrev read_tbs : Exec ℕ (List ℕ)
read_tbs w = (ok (0x30 ∷ []), w)

main-Passed_example :
    Passed 1 1 started (main service (scheduler service) flags 1 1 read_tbs started).1
unfolding main new_client_group setup_clients setup run_tests run_test run_group summary
    count_failed run play receive_first first_able collect advance_at act call move
    test_ot_derive_tokens test_ot_endorse_certs test_ot_register_device renew_device failed_with
main-Passed_example =
    main-Passed service (scheduler service) flags 1 1
      (λ test n expected. receive_first-IsFair service test n expected) read_tbs started
      (main service (scheduler service) flags 1 1 read_tbs started).1 refl

-- The appliance of these runs: its SPM opens sessions for DeriveTokens.
abbrev spm : SpmClient ℕ
spm = record {
  init_session = λ r s. (
    ok (record {
      sku_session_token = "secret";
      pa_endpoint = "";
      auth_methods = "DeriveTokens" ∷ [];
    }),
    s,
  );
  endorse_certs = λ _ s. (err (errorf "unused"), s);
  derive_tokens = λ _ s. (ok (record { tokens = [] }), suc s);
  get_stored_tokens = λ _ s. (err (errorf "unused"), s);
  endorse_data = λ _ s. (err (errorf "unused"), s);
}

abbrev serving : Serving
serving = record {
  interceptor = new_auth_interceptor false;
  instance_ = (new_auth_controller_instance false none).1;
  has_pb_client = false;
}

abbrev appliance : Appliance ℕ
appliance = record { instance_ = serving.instance_; outside = 0 }

abbrev resolver : Resolver
resolver ip = err (errorf "no name")

abbrev on_appliance : Service (Appliance ℕ)
on_appliance = appliance_service serving resolver spm (λ d. ok []) none none (λ p. (0, p))

abbrev client_seven : ClientTask
client_seven = record { id = 7; auth_token = "" }

abbrev with_token : ClientTask
with_token = record { id = 7; auth_token = "secret" }

setup-IsServed_example :
    (r : InitSessionResponse) × (init_session spm
        (context serving resolver spm
          (λ d. ok [])
          none
          none
          (λ p. (0, p))
          (new_client_metadata client_seven))
        (record { sku = "sival"; sku_auth = "test_password" })
        appliance
      ≡ (ok r, (setup on_appliance flags "sival" client_seven appliance).1))
    × IsServed serving resolver spm
        (λ d. ok [])
        none
        none
        (λ p. (0, p))
        with_token
        (setup on_appliance flags "sival" client_seven appliance).1
        r.auth_methods
unfolding new_auth_interceptor setup appliance_service
    opentitan_provisioning.Pa.Server.served_init_session
    opentitan_provisioning.Auth.Interceptor.unary opentitan_provisioning.Auth.Interceptor.authorize
    opentitan_provisioning.Auth.Interceptor.any_suffix opentitan_provisioning.Base.Text.has_suffix
    init_session opentitan_provisioning.Auth.Controller.get_instance new_auth_controller_instance
    opentitan_provisioning.Auth.Interceptor.metadata_from_incoming_context
    opentitan_provisioning.Auth.Interceptor.get_user_id opentitan_provisioning.Base.Dict.lookup
    opentitan_provisioning.Auth.Controller.add_user
    opentitan_provisioning.Auth.new_in_memory_user_store
setup-IsServed_example =
    setup-IsServed serving resolver spm (λ d. ok []) none none (λ p. (0, p)) flags "sival"
      client_seven with_token appliance (setup on_appliance flags "sival" client_seven appliance).1
      (inl refl) refl refl
