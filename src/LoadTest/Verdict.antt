-- ===== src/LoadTest/Verdict.antt =====
-- What run of src/pa/loadtest.go returns, whatever the order in which its goroutines go on.
use opentitan_provisioning.Base.{
  ℕ, zero, suc, ◌*◌, ◌≡◌, ◌≢◌, ◌↔◌, refl, inl, inr, List, none, some, length, ok, err, arith,
  Option-cases, Result, hangs, nat_eq, false,
}
use opentitan_provisioning.LoadTest.{Service, ClientTask, CallFunc}
use opentitan_provisioning.LoadTest.Run.{
  State, Console, Move, move, play, launch, moves, outcome, run,
}
use opentitan_provisioning.LoadTest.Progress.{
  Inevitable, Balanced, Over, ahead_of, move-ahead_of, move-Balanced, Balanced-move,
  Balanced-Inevitable, launch-Balanced, launch-ahead_of,
}

module _ {W : Type 0} (service : Service W) (test : CallFunc W) (num_calls : ℕ) where
  -- However the clients' goroutines and the one that counts take turns, a test comes to an end:
  -- while one of them is not at its end some move is possible, and every choice of moves leads to a
  -- state where all clients are through their calls, clients times calls results were received, and
  -- the errors counted are the calls that were logged as failed.
  pub run-Inevitable :
      (clients : List ClientTask) (w : Console W)
      → Inevitable
          (move service test num_calls (length clients * num_calls))
          (Over (length clients * num_calls) (length w.logged))
          (launch clients w)
  run-Inevitable clients w =
      Balanced-Inevitable service test num_calls (length clients * num_calls) (length w.logged)
        (ahead_of num_calls (launch clients w)) (launch clients w) refl
        (launch-Balanced num_calls clients w)

  -- A schedule that picks a possible move whenever there is one.
  pub record IsFair (expected : ℕ) (schedule : State W → Move) : Type 0 where
    pub picks :
        (s : State W) (m : Move) (t : State W)
        → move service test num_calls expected m s ≡ some t
        → (next : State W) × (move service test num_calls expected (schedule s) s ≡ some next)

  play-next :
      (expected fuel : ℕ) (schedule : State W → Move) (s t : State W)
      → move service test num_calls expected (schedule s) s ≡ some t
      → play service test num_calls expected schedule (suc fuel) s
        ≡ play service test num_calls expected schedule fuel t
  unfolding play
  play-next expected fuel schedule s t e = ground (arith, e)

  play-stuck :
      (expected fuel : ℕ) (schedule : State W → Move) (s : State W)
      → move service test num_calls expected (schedule s) s ≡ none
      → play service test num_calls expected schedule (suc fuel) s ≡ s
  unfolding play
  play-stuck expected fuel schedule s e = ground (arith, e)

  play-Over :
      (expected before fuel : ℕ) (schedule : State W → Move) (s : State W)
      → IsFair expected schedule
      → ahead_of num_calls s ≡ fuel
      → Balanced num_calls expected before s
      → Over expected before (play service test num_calls expected schedule fuel s)
  unfolding play
  play-Over expected before zero schedule s fair e b =
      elim (Balanced-move service test num_calls expected before s b) [
        | inl over ↦ over
        | inr (m, t, can) ↦
            absurd
              (omega (arith, e, move-ahead_of service test num_calls expected before m s t can))
      ]
  play-Over expected before (suc fuel) schedule s fair e b =
      elim (Option-cases (move service test num_calls expected (schedule s) s)) [
        | inr (t, can) ↦ rw (play-next expected fuel schedule s t can) (
            play-Over expected before fuel schedule t fair
              (omega (
                arith,
                e,
                move-ahead_of service test num_calls expected before (schedule s) s t can,
              ))
              (move-Balanced service test num_calls expected before (schedule s) s t can b))
        | inl stuck ↦ elim (Balanced-move service test num_calls expected before s b) [
          | inl over ↦ rw (play-stuck expected fuel schedule s stuck) over
          | inr (m, t, can) ↦ let (next, picked) = fair.picks s m t can in absurd (ground arith)
        ]
      ]

-- A result of run, with the lines logged before and after it.
pub record IsVerdict {W : Type 0} (before after : Console W) (r : Result (Unit {0})) : Type 0 where
  pub returns : r ≢ err hangs
  pub verdict : (r ≡ ok tt) ↔ (length after.logged ≡ length before.logged)

outcome-IsVerdict :
    {W : Type 0} (expected : ℕ) (w : Console W) (s : State W)
    → Over expected (length w.logged) s
    → IsVerdict w (outcome expected s).1 (outcome expected s).0
outcome-IsVerdict expected w s over = record {
  returns = λ h. ground (arith, over.finished, over.received);
  verdict = ground (arith, over.finished, over.received, over.counted);
}

run-suc :
    {W : Type 0} (service : Service W) (test : CallFunc W) (n : ℕ) (schedule : State W → Move)
    (clients : List ClientTask) (w : Console W)
    → run service schedule clients (suc n) test w
      ≡ outcome (length clients * suc n) (
          play service test
            (suc n)
            (length clients * suc n)
            schedule
            (moves (length clients) (suc n))
            (launch clients w))
unfolding run
run-suc service test n schedule clients w =
    let positive : nat_eq (suc n) 0 ≡ false = ground arith in rw positive refl

-- Under every fair schedule of its goroutines, run with at least one call a client returns; and it
-- returns nil exactly when no call has failed, that is when no line was logged.
pub run-IsVerdict :
    {W : Type 0} (service : Service W) (test : CallFunc W) (n : ℕ) (schedule : State W → Move)
    (clients : List ClientTask) (w : Console W)
    → IsFair service test (suc n) (length clients * suc n) schedule
    → IsVerdict w
        (run service schedule clients (suc n) test w).1
        (run service schedule clients (suc n) test w).0
run-IsVerdict service test n schedule clients w fair =
    let end =
      play service test (suc n) (length clients * suc n) schedule (moves (length clients) (suc n))
        (launch clients w) in
    rw (run-suc service test n schedule clients w) (
      outcome-IsVerdict (length clients * suc n) w end (
        play-Over service test (suc n) (length clients * suc n) (length w.logged)
          (moves (length clients) (suc n)) schedule (launch clients w) fair
          (launch-ahead_of (suc n) clients w) (launch-Balanced (suc n) clients w)))
