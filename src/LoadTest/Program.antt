-- ===== src/LoadTest/Program.antt =====
-- main of src/pa/loadtest.go: the three tests, one after the other, and the verdict on all of them.
use opentitan_provisioning.Base.{
  ℕ, suc, ◌*◌, Bool, true, false, String, List, [], ◌∷◌, Error, Result, ok, err, errorf, panic,
  hangs, if◌then◌else◌, ltb, length,
}
use opentitan_provisioning.Base.Exec.{Exec, ◌>>=◌, pure, lift}
use opentitan_provisioning.Proto.{Bytes}
use opentitan_provisioning.LoadTest.{
  Service, ClientTask, CallFunc, Flags, test_ot_derive_tokens, test_ot_endorse_certs,
  test_ot_register_device,
}
use opentitan_provisioning.LoadTest.Run.{State, Console, Move, run, new_client_group, on_world}

-- The order of the goroutines' actions in a test with so many calls a client and in all.
abbrev pub Scheduler : Type 0 → Type 0
Scheduler W = CallFunc W → ℕ → ℕ → State W → Move

pub record TestCase (W : Type 0) : Type 0 where
  pub sku_name : String
  pub test_name : String
  pub test_func : CallFunc W

pub record TestResult : Type 0 where
  pub sku_name : String
  pub test_name : String
  pub pass : Bool
  pub msg : String

abbrev pub test_result : {W : Type 0} → TestCase W → Bool → String → TestResult
test_result t pass msg = record {
  sku_name = t.sku_name;
  test_name = t.test_name;
  pass = pass;
  msg = msg;
}

-- result.msg = fmt.Sprintf("...: %v", err); a panic is no error that is returned.
unfoldable pub failed_with : {W : Type 0} → TestCase W → String → Error → Result TestResult
failed_with t msg hangs = err hangs
failed_with t msg (panic m) = err (panic m)
failed_with t msg _ = ok (test_result t false msg)

unfoldable pub count_failed : List TestResult → ℕ
count_failed [] = 0
count_failed (r ∷ rs) = let rest = count_failed rs in if r.pass then rest else suc rest

-- The lines after the loop of main; log.Fatalf ends the program.
unfoldable pub summary : List TestResult → Result (Unit {0})
unfolding count_failed
summary results =
    if ltb 0 (count_failed results) then err (errorf "Test FAIL!. %d tests failed") else ok tt

-- The table of main.
abbrev pub derive_tokens_case : {W : Type 0} → Service W → TestCase W
derive_tokens_case service = record {
  sku_name = "sival";
  test_name = "OT:DeriveTokens";
  test_func = test_ot_derive_tokens service "sival";
}

abbrev pub other_cases : {W : Type 0} → Service W → Bytes → List (TestCase W)
other_cases service dice_tbs =
    record {
      sku_name = "sival";
      test_name = "OT:EndorseCerts";
      test_func = test_ot_endorse_certs service dice_tbs "sival";
    }
    ∷ record {
      sku_name = "sival";
      test_name = "OT:RegisterDevice";
      test_func = test_ot_register_device service "sival";
    }
    ∷ []

abbrev pub test_cases : {W : Type 0} → Service W → Bytes → List (TestCase W)
test_cases service dice_tbs = derive_tokens_case service ∷ other_cases service dice_tbs

module _ {W : Type 0} (service : Service W) (scheduler : Scheduler W) (flags : Flags)
    (parallel_clients total_calls_per_method : ℕ) where
  -- The body of main's loop from `run` on, and the whole of it.
  unfoldable pub run_group : TestCase W → List ClientTask → Exec (Console W) TestResult
  unfolding failed_with
  run_group t clients w =
      let schedule =
        scheduler t.test_func total_calls_per_method (length clients * total_calls_per_method) in
      let (r, after) = run service schedule clients total_calls_per_method t.test_func w in
      (
        elim r [
          | ok _ ↦ ok (test_result t true "PASS")
          | err e ↦ failed_with t "failed to execute test" e
        ],
        after,
      )

  unfoldable pub run_test : TestCase W → Exec (Console W) TestResult
  unfolding run_group
  run_test t w =
      let (r, after) = new_client_group service flags t.sku_name parallel_clients w in
      elim r [
        | ok clients ↦ run_group t clients after
        | err e ↦ (failed_with t "failed to initialize client tasks" e, after)
      ]

  unfoldable pub run_tests : List (TestCase W) → Exec (Console W) (List TestResult)
  unfolding run_test
  run_tests [] = pure []
  run_tests (t ∷ rest) =
      run_test t >>= λ result. run_tests rest >>= λ results. pure (result ∷ results)

  -- `read_tbs` finds and reads the file; where it cannot, the program ends.
  unfoldable pub main : Exec W Bytes → Exec (Console W) (Unit {0})
  unfolding run_tests summary
  main read_tbs = on_world service read_tbs >>= λ dice_tbs.
      run_tests (test_cases service dice_tbs) >>= λ results. lift (summary results)
