-- ===== src/LoadTest/Passed.antt =====
-- When the load test of src/pa/loadtest.go says that it has passed.
use opentitan_provisioning.Base.{
  ℕ, suc, zero, ◌*◌, ◌≡◌, ◌≤◌, inl, inr, ap, true, false, String, List, [], ◌∷◌, Error, ok, errorf,
  panic, hangs, ckr, status, length, arith, Result-cases, sym, ◌∙◌,
}
use opentitan_provisioning.Base.Exec.{Exec, ◌>>=◌, lift, >>=-eq-ok}
use opentitan_provisioning.Proto.{Bytes}
use opentitan_provisioning.LoadTest.{Service, ClientTask, CallFunc, Flags}
use opentitan_provisioning.LoadTest.Run.{Console, run, new_client_group, on_world}
use opentitan_provisioning.LoadTest.Verdict.{IsFair, run-IsVerdict}
use opentitan_provisioning.LoadTest.Program.{
  Scheduler, TestCase, TestResult, failed_with, count_failed, summary, run_group, run_test,
  run_tests, test_cases, derive_tokens_case, other_cases, main,
}

failed_with-pass :
    {W : Type 0} (t : TestCase W) (msg : String) (e : Error) (r : TestResult)
    → failed_with t msg e ≡ ok r
    → r.pass ≡ false
unfolding failed_with
failed_with-pass t msg hangs r h = cc
failed_with-pass t msg (panic m) r h = cc
failed_with-pass t msg (errorf m) r h = ground (arith, h)
failed_with-pass t msg (ckr n) r h = ground (arith, h)
failed_with-pass t msg (status c m) r h = ground (arith, h)

summary-eq-ok : (results : List TestResult) → summary results ≡ ok tt → count_failed results ≡ 0
unfolding summary
summary-eq-ok results h = ground arith

first_passed : (r : TestResult) (rs : List TestResult) → count_failed (r ∷ rs) ≡ 0 → r.pass ≡ true
unfolding count_failed
first_passed r rs h = ground arith

rest_passed :
    (r : TestResult) (rs : List TestResult) → count_failed (r ∷ rs) ≡ 0 → count_failed rs ≡ 0
unfolding count_failed
rest_passed r rs h = ground arith

-- From `before` to `after` no line was logged, in a test with clients and calls.
pub record Passed {W : Type 0} (num_clients num_calls : ℕ) (before after : Console W) : Type 0 where
  pub has_clients : 1 ≤ num_clients
  pub has_calls : 1 ≤ num_calls
  pub no_error : length after.logged ≡ length before.logged

module _ {W : Type 0} (service : Service W) (scheduler : Scheduler W) (flags : Flags)
    (parallel_clients total_calls_per_method : ℕ)
    (fair : (test : CallFunc W) (n expected : ℕ)
      → IsFair service test n expected (scheduler test n expected)) where
  new_client_group-eq-ok :
      (sku : String) (n : ℕ) (w after : Console W) (clients : List ClientTask)
      → new_client_group service flags sku n w ≡ (ok clients, after)
      → (1 ≤ n) × (after.logged ≡ w.logged)
  unfolding new_client_group
  new_client_group-eq-ok sku n w after clients h = ground arith

  run-passes :
      (t : TestCase W) (n : ℕ) (clients : List ClientTask) (w after : Console W)
      → run service (scheduler t.test_func n (length clients * n)) clients n t.test_func w
        ≡ (ok tt, after)
      → (1 ≤ n) × (length after.logged ≡ length w.logged)
  unfolding run
  run-passes t zero clients w after h = cc
  run-passes t (suc n) clients w after h =
      let v =
        run-IsVerdict service t.test_func n (scheduler t.test_func (suc n) (length clients * suc n))
          clients w (fair t.test_func (suc n) (length clients * suc n)) in
      (omega arith, ground (arith, h, v.verdict))

  run_group-pass :
      (t : TestCase W) (clients : List ClientTask) (w after : Console W) (r : TestResult)
      → run_group service scheduler flags parallel_clients total_calls_per_method t clients w
        ≡ (ok r, after)
      → r.pass ≡ true
      → (1 ≤ total_calls_per_method) × (length after.logged ≡ length w.logged)
  unfolding run_group
  run_group-pass t clients w after r h passed =
      let n = total_calls_per_method in
      let ran =
        run service (scheduler t.test_func n (length clients * n)) clients n t.test_func w in
      elim (Result-cases ran.0) [
        | inl (_, e) ↦ run-passes t n clients w after (ground (arith, e, h))
        | inr (x, e) ↦
            absurd (ground (arith, e, h, failed_with-pass t "failed to execute test" x r, passed))
      ]

  run_test-pass :
      (t : TestCase W) (w after : Console W) (r : TestResult)
      → run_test service scheduler flags parallel_clients total_calls_per_method t w ≡ (ok r, after)
      → r.pass ≡ true
      → Passed parallel_clients total_calls_per_method w after
  unfolding run_test
  run_test-pass t w after r h passed =
      elim (Result-cases (new_client_group service flags t.sku_name parallel_clients w).0) [
        | inl (clients, e) ↦
            let mid = (new_client_group service flags t.sku_name parallel_clients w).1 in
            let (some_clients, same) =
              new_client_group-eq-ok t.sku_name parallel_clients w mid clients
                (ground (arith, e)) in
            let (some_calls, none_failed) =
              run_group-pass t clients mid after r (ground (arith, e, h)) passed in
            record {
              has_clients = some_clients;
              has_calls = some_calls;
              no_error = none_failed ∙ ap (λ l. length l) same;
            }
        | inr (x, e) ↦ absurd (
            ground
              (arith, e, h, passed, failed_with-pass t "failed to initialize client tasks" x r))
      ]

  run_tests-unfold :
      (t : TestCase W) (rest : List (TestCase W)) (w after : Console W) (results : List TestResult)
      → run_tests service scheduler flags parallel_clients total_calls_per_method (t ∷ rest) w
        ≡ (ok results, after)
      → (r : TestResult) × (rs : List TestResult) × (mid : Console W) × (run_test service scheduler
            flags parallel_clients total_calls_per_method t w
          ≡ (ok r, mid))
        × (run_tests service scheduler flags parallel_clients total_calls_per_method rest mid
            ≡ (ok rs, after))
        × (results ≡ r ∷ rs)
  unfolding run_tests
  run_tests-unfold t rest w after results h =
      let test = run_test service scheduler flags parallel_clients total_calls_per_method t in
      let tests = run_tests service scheduler flags parallel_clients total_calls_per_method rest in
      let (r, first, h1) = >>=-eq-ok test _ w h in
      let (rs, later, h2) = >>=-eq-ok tests _ (test w).1 h1 in
      (r, rs, (test w).1, ground (arith, first), ground (arith, later, h2), ground (arith, h2))

  -- A list of tests without a failed one has logged nothing.
  run_tests-pass :
      (ts : List (TestCase W)) (w after : Console W) (results : List TestResult)
      → run_tests service scheduler flags parallel_clients total_calls_per_method ts w
        ≡ (ok results, after)
      → count_failed results ≡ 0
      → length after.logged ≡ length w.logged
  unfolding run_tests
  run_tests-pass [] w after results h passed = ground arith
  run_tests-pass (t ∷ rest) w after results h passed =
      let (r, rs, mid, first, later, e) = run_tests-unfold t rest w after results h in
      let p =
        run_test-pass t w mid r first (first_passed r rs (ap count_failed (sym e) ∙ passed)) in
      run_tests-pass rest mid after rs later (rest_passed r rs (ap count_failed (sym e) ∙ passed))
      ∙ p.no_error

  run_tests-Passed :
      (t : TestCase W) (rest : List (TestCase W)) (w after : Console W) (results : List TestResult)
      → run_tests service scheduler flags parallel_clients total_calls_per_method (t ∷ rest) w
        ≡ (ok results, after)
      → count_failed results ≡ 0
      → Passed parallel_clients total_calls_per_method w after
  run_tests-Passed t rest w after results h passed =
      let (r, rs, mid, first, later, e) = run_tests-unfold t rest w after results h in
      let none_failed = ap count_failed (sym e) ∙ passed in
      let p = run_test-pass t w mid r first (first_passed r rs none_failed) in
      let others = run_tests-pass rest mid after rs later (rest_passed r rs none_failed) in
      record {
        has_clients = p.has_clients;
        has_calls = p.has_calls;
        no_error = others ∙ p.no_error;
      }

  -- The load test says that it has passed only if there is a client and a call for each, and no call
  -- of its tests has failed: it has logged no line.
  pub main-Passed :
      (read_tbs : Exec W Bytes) (w after : Console W)
      → main service scheduler flags parallel_clients total_calls_per_method read_tbs w
        ≡ (ok tt, after)
      → Passed parallel_clients total_calls_per_method w after
  unfolding main
  main-Passed read_tbs w after h =
      let read = on_world service read_tbs in
      let tests : Bytes → Exec (Console W) (List TestResult) = λ tbs.
        run_tests service scheduler flags parallel_clients total_calls_per_method
          (test_cases service tbs) in
      let (tbs, found, h1) = >>=-eq-ok read (λ tbs. tests tbs >>= λ r. lift (summary r)) w h in
      let (results, ran, h2) = >>=-eq-ok (tests tbs) (λ r. lift (summary r)) (read w).1 h1 in
      let passed = summary-eq-ok results (ap (λ p. p.0) h2) in
      let p =
        run_tests-Passed (derive_tokens_case service) (other_cases service tbs) (read w).1 after
          results (λ i. (ran i, (h2 i).1)) (summary-eq-ok results (ap (λ p. p.0) h2)) in
      record { has_clients = p.has_clients; has_calls = p.has_calls; no_error = p.no_error }
