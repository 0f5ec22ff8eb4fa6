-- ===== src/LoadTest/Conserved.antt =====
-- What a move of src/pa/loadtest.go's goroutines changes: each is one less to come, and no result
-- and no error is lost between a call and the count.
use opentitan_provisioning.Base.{
  ℕ, zero, suc, ◌+◌, ◌*◌, ◌≡◌, refl, inl, inr, List, [], ◌∷◌, ◌++◌, some, length, length-append,
  arith, Option-cases,
}
use opentitan_provisioning.LoadTest.{Service, ClientTask, CallResult, CallFunc, Request, call}
use opentitan_provisioning.LoadTest.Run.{
  Phase, Client, Shared, starting, calling, sending, finished, turn, log_call, count_error, act,
  advance_at,
}

-- The moves that a client has left, with the receive of each of its results.
abbrev pub weight : ℕ → Phase → ℕ
weight num_calls starting = 1 + 3 * num_calls
weight num_calls (calling _ n) = 3 * (n + 1)
weight num_calls (sending _ _ n) = 3 * n + 2
weight num_calls finished = 0

-- The results that a client has yet to send.
abbrev pub pending : ℕ → Phase → ℕ
pending num_calls starting = num_calls
pending num_calls (calling _ n) = suc n
pending num_calls (sending _ _ n) = suc n
pending num_calls finished = 0

-- The errors that a client has seen and not sent.
abbrev pub held : Phase → ℕ
held (sending _ r _) = count_error r 0
held starting = 0
held (calling _ _) = 0
held finished = 0

abbrev pub sum : (Phase → ℕ) → List Client → ℕ
sum f [] = 0
sum f (c ∷ cs) = f c.phase + sum f cs

abbrev pub errors : List CallResult → ℕ
errors [] = 0
errors (r ∷ rs) = count_error r (errors rs)

pub count_error-add : (r : CallResult) (n : ℕ) → count_error r n ≡ count_error r 0 + n
count_error-add r n = ground arith

errors-append : (xs ys : List CallResult) → errors (xs ++ ys) ≡ errors xs + errors ys
errors-append [] ys = omega arith
errors-append (r ∷ xs) ys = omega (
  arith,
  errors-append xs ys,
  count_error-add r (errors (xs ++ ys)),
  count_error-add r (errors xs),
)

log_call-errors :
    (r : CallResult) (lines : List CallResult)
    → length (log_call r lines) ≡ count_error r 0 + length lines
log_call-errors r lines = ground (arith, length-append lines (r ∷ []))

-- A client's action from `p` and `x` to `q` and `y`.
pub record Conserves {W : Type 0} (num_calls : ℕ) (p q : Phase) (x y : Shared W) : Type 0 where
  pub one_less : suc (weight num_calls q + length y.results) ≡ weight num_calls p + length x.results
  pub all_results : pending num_calls q + length y.results ≡ pending num_calls p + length x.results
  pub all_errors :
      held q + errors y.results + length x.logged ≡ held p + errors x.results + length y.logged

-- The same of all clients.
pub record ConservesAll {W : Type 0} (num_calls : ℕ) (cs ds : List Client) (x y : Shared W)
    : Type 0 where
  pub one_less :
      suc (sum (weight num_calls) ds + length y.results)
      ≡ sum (weight num_calls) cs + length x.results
  pub all_results :
      sum (pending num_calls) ds + length y.results ≡ sum (pending num_calls) cs + length x.results
  pub all_errors :
      sum held ds + errors y.results + length x.logged
      ≡ sum held cs + errors x.results + length y.logged

weight-turn : (num_calls : ℕ) (r : Request) (n : ℕ) → weight num_calls (turn r n) ≡ 3 * n
weight-turn num_calls r zero = refl
weight-turn num_calls r (suc n) = omega arith

pending-turn : (num_calls : ℕ) (r : Request) (n : ℕ) → pending num_calls (turn r n) ≡ n
pending-turn num_calls r zero = refl
pending-turn num_calls r (suc n) = refl

held-turn : (r : Request) (n : ℕ) → held (turn r n) ≡ 0
held-turn r zero = refl
held-turn r (suc n) = refl

module _ {W : Type 0} (service : Service W) (test : CallFunc W) (num_calls : ℕ) where
  act-Conserves :
      (c : ClientTask) (p q : Phase) (x y : Shared W)
      → act service test num_calls c p x ≡ some (q, y)
      → Conserves num_calls p q x y
  unfolding act
  act-Conserves c starting q x y h = record {
    one_less = ground (arith, weight-turn num_calls (test.prepare x.world).0 num_calls);
    all_results = ground (arith, pending-turn num_calls (test.prepare x.world).0 num_calls);
    all_errors = ground (arith, held-turn (test.prepare x.world).0 num_calls);
  }
  act-Conserves c (calling request n) q x y h =
      let r : CallResult = record { id = c.id; error = (call service c request x.world).0 } in
      record {
        one_less = ground arith;
        all_results = ground arith;
        all_errors = ground (arith, log_call-errors r x.logged);
      }
  act-Conserves c (sending request r n) q x y h =
      let renewed = (test.renew request x.world).0 in
      record {
        one_less =
            ground (arith, weight-turn num_calls renewed n, length-append x.results (r ∷ []));
        all_results =
            ground (arith, pending-turn num_calls renewed n, length-append x.results (r ∷ []));
        all_errors = ground (arith, held-turn renewed n, errors-append x.results (r ∷ []));
      }
  act-Conserves c finished q x y h = cc

  pub advance_at-ConservesAll :
      (k : ℕ) (cs ds : List Client) (x y : Shared W)
      → advance_at service test num_calls k cs x ≡ some (ds, y)
      → ConservesAll num_calls cs ds x y
  unfolding advance_at
  advance_at-ConservesAll k [] ds x y h = cc
  advance_at-ConservesAll zero (c ∷ cs) ds x y h =
      elim (Option-cases (act service test num_calls c.task c.phase x)) [
        | inl e ↦ absurd (ground arith)
        | inr ((q, z), e) ↦
            let k = act-Conserves c.task c.phase q x z e in
            record {
              one_less = ground (arith, k.one_less);
              all_results = ground (arith, k.all_results);
              all_errors = ground (arith, k.all_errors);
            }
      ]
  advance_at-ConservesAll (suc k) (c ∷ cs) ds x y h =
      elim (Option-cases (advance_at service test num_calls k cs x)) [
        | inl e ↦ absurd (ground arith)
        | inr ((es, z), e) ↦
            let k = advance_at-ConservesAll k cs es x z e in
            record {
              one_less = ground (arith, k.one_less);
              all_results = ground (arith, k.all_results);
              all_errors = ground (arith, k.all_errors);
            }
      ]
