-- ===== src/LoadTest/Progress.antt =====
-- The load test of src/pa/loadtest.go as a whole: while a goroutine is not at its end some move is
-- possible, and every move brings the end nearer.
use native.Mathlib.Nat.{suc-mul}
use opentitan_provisioning.Base.{
  ℕ, zero, suc, ◌+◌, ◌*◌, ◌<◌, ◌≡◌, ◌⊎◌, refl, inl, inr, true, List, [], ◌∷◌, map, Option, some,
  length, arith, Option-cases, List-cases, Bool, false, ◌++◌,
}
use opentitan_provisioning.LoadTest.{Service, ClientTask, CallFunc}
use opentitan_provisioning.LoadTest.Run.{
  Phase, Client, Shared, State, Console, Move, client, collector, starting, calling, sending,
  finished, turn, count_error, act, advance_at, collect, move, all_finished, launch, moves,
}
use opentitan_provisioning.LoadTest.Conserved.{
  weight, pending, held, sum, errors, advance_at-ConservesAll,
}

-- Whatever is done next, and next, a state with the property is reached, and until then something
-- can be done.
pub data Inevitable {M S : Type 0} (move : M → S → Option S) (Goal : S → Type 0) : S → Type 0 where
  reached : {s : S} → Goal s → Inevitable move Goal s
  ahead :
      {s : S}
      → (m : M) × (t : S) × (move m s ≡ some t)
      → ((m : M) (t : S) → move m s ≡ some t → Inevitable move Goal t)
      → Inevitable move Goal s

-- The moves to come, the receives included.
abbrev pub ahead_of : {W : Type 0} → ℕ → State W → ℕ
ahead_of num_calls s = sum (weight num_calls) s.clients + length s.shared.results

-- Every result is counted, in the channel, or yet to be sent, and so is every error that was logged
-- after the first `before` lines.
pub record Balanced {W : Type 0} (num_calls expected before : ℕ) (s : State W) : Type 0 where
  pub results : s.received + length s.shared.results + sum (pending num_calls) s.clients ≡ expected
  pub errors :
      before + s.err_count + errors s.shared.results + sum held s.clients ≡ length s.shared.logged

-- The end of a test: the clients' loops are over, every result was received, and the errors counted
-- are the lines logged.
pub record Over {W : Type 0} (expected before : ℕ) (s : State W) : Type 0 where
  pub finished : all_finished s.clients ≡ true
  pub received : s.received ≡ expected
  pub counted : before + s.err_count ≡ length s.shared.logged

module _ {W : Type 0} (service : Service W) (test : CallFunc W)
    (num_calls expected before : ℕ) where
  pub move-ahead_of :
      (m : Move) (s t : State W)
      → move service test num_calls expected m s ≡ some t
      → suc (ahead_of num_calls t) ≡ ahead_of num_calls s
  unfolding move collect
  move-ahead_of (client k) s t h =
      elim (Option-cases (advance_at service test num_calls k s.clients s.shared)) [
        | inl e ↦ absurd (ground arith)
        | inr ((cs, x), e) ↦
            let kept = advance_at-ConservesAll service test num_calls k s.clients cs s.shared x e in
            ground (arith, kept.one_less)
      ]
  move-ahead_of collector s t h = ground arith

  pub move-Balanced :
      (m : Move) (s t : State W)
      → move service test num_calls expected m s ≡ some t
      → Balanced num_calls expected before s
      → Balanced num_calls expected before t
  unfolding move collect
  move-Balanced (client k) s t h b =
      elim (Option-cases (advance_at service test num_calls k s.clients s.shared)) [
        | inl e ↦ absurd (ground arith)
        | inr ((cs, x), e) ↦
            let kept = advance_at-ConservesAll service test num_calls k s.clients cs s.shared x e in
            record {
              results = ground (arith, kept.all_results, b.results);
              errors = ground (arith, kept.all_errors, b.errors);
            }
      ]
  move-Balanced collector s t h b = record {
    results = ground (arith, b.results);
    errors = ground (arith, b.errors);
  }

-- With an empty channel every client that is not at its end can go on.
module _ {W : Type 0} (service : Service W) (test : CallFunc W) (num_calls : ℕ) where
  act-some :
      (c : ClientTask) (p : Phase) (x : Shared W)
      → x.results ≡ []
      → (p ≡ finished) ⊎ ((q : Phase × Shared W) × (act service test num_calls c p x ≡ some q))
  unfolding act
  act-some c starting x e = inr (_, refl)
  act-some c (calling r n) x e = inr (_, refl)
  act-some c (sending r s n) x e =
      let sent : Shared W = record x {
        world = (test.renew r x.world).1;
        results = x.results ++ s ∷ [];
      } in
      inr ((turn (test.renew r x.world).0 n, sent), ground (arith, e))
  act-some c finished x e = inl refl

  advance_at-some :
      (cs : List Client) (x : Shared W)
      → x.results ≡ []
      → (all_finished cs ≡ true)
        ⊎ ((k : ℕ) × (q : List Client × Shared W) × (advance_at service test num_calls k cs x
              ≡ some q))
  unfolding advance_at
  advance_at-some [] x e = inl refl
  advance_at-some (c ∷ cs) x e = elim (act-some c.task c.phase x e) [
    | inr ((p, y), can) ↦ inr (0, (record c { phase = p } ∷ cs, y), ground (arith, can))
    | inl over ↦ elim (advance_at-some cs x e) [
      | inl all ↦ inl (ground (arith, over, all))
      | inr (k, (ds, y), can) ↦ inr (suc k, (c ∷ ds, y), ground (arith, can))
    ]
  ]

phase-finished :
    (p : Phase) (b : Bool)
    → (elim p [ finished ↦ b | _ ↦ false ]) ≡ true
    → (p ≡ finished) × (b ≡ true)
phase-finished finished b h = (refl, h)
phase-finished starting b h = cc
phase-finished (calling r n) b h = cc
phase-finished (sending r s n) b h = cc

all_finished-cons :
    (c : Client) (cs : List Client)
    → all_finished (c ∷ cs) ≡ true
    → (c.phase ≡ finished) × (all_finished cs ≡ true)
all_finished-cons c cs h = phase-finished c.phase (all_finished cs) h

all_finished-sum :
    (f : Phase → ℕ) (cs : List Client) → f finished ≡ 0 → all_finished cs ≡ true → sum f cs ≡ 0
all_finished-sum f [] zero_ h = refl
all_finished-sum f (c ∷ cs) zero_ h =
    let (first, rest) = all_finished-cons c cs h in
    let later = all_finished-sum f cs zero_ rest in ground (arith, first, later)

module _ {W : Type 0} (service : Service W) (test : CallFunc W)
    (num_calls expected before : ℕ) where
  -- No deadlock: a balanced state is over, or some goroutine can go on.
  pub Balanced-move :
      (s : State W)
      → Balanced num_calls expected before s
      → Over expected before s
        ⊎ ((m : Move) × (t : State W) × (move service test num_calls expected m s ≡ some t))
  unfolding move collect
  Balanced-move s b = elim (List-cases s.shared.results) [
    | inr (r, rest, e) ↦
        let waits : s.received < expected = ground (arith, b.results) in
        let next : State W = record s {
          shared = record s.shared { results = rest };
          received = suc s.received;
          err_count = count_error r s.err_count;
        } in
        inr (collector, next, ground (arith, e, waits))
    | inl e ↦ elim (advance_at-some service test num_calls s.clients s.shared e) [
      | inr (k, (cs, x), can) ↦
          inr (client k, record s { clients = cs; shared = x }, ground (arith, can))
      | inl over ↦ inl (record {
        finished = over;
        received =
            ground (arith, e, b.results, all_finished-sum (pending num_calls) s.clients refl over);
        counted = ground (arith, e, b.errors, all_finished-sum held s.clients refl over);
      })
    ]
  ]

  pub Balanced-Inevitable :
      (fuel : ℕ) (s : State W)
      → ahead_of num_calls s ≡ fuel
      → Balanced num_calls expected before s
      → Inevitable (move service test num_calls expected) (Over expected before) s
  Balanced-Inevitable zero s e b = elim (Balanced-move s b) [
    | inl over ↦ reached over
    | inr (m, t, can) ↦
        absurd (omega (arith, e, move-ahead_of service test num_calls expected before m s t can))
  ]
  Balanced-Inevitable (suc fuel) s e b = elim (Balanced-move s b) [
    | inl over ↦ reached over
    | inr can ↦ ahead can (λ m t h.
        Balanced-Inevitable fuel t
          (omega (arith, e, move-ahead_of service test num_calls expected before m s t h))
          (move-Balanced service test num_calls expected before m s t h b))
  ]

sum-launch :
    (f : Phase → ℕ) (tasks : List ClientTask)
    → sum f (map (λ c. record { task = c; phase = starting }) tasks) ≡ length tasks * f starting
sum-launch f [] = omega arith
sum-launch f (c ∷ tasks) = omega (arith, sum-launch f tasks, suc-mul (length tasks) (f starting))

module _ {W : Type 0} (num_calls : ℕ) where
  pub launch-Balanced :
      (tasks : List ClientTask) (w : Console W)
      → Balanced num_calls (length tasks * num_calls) (length w.logged) (launch tasks w)
  launch-Balanced tasks w = record {
    results = omega (arith, sum-launch (pending num_calls) tasks);
    errors = omega (arith, sum-launch held tasks);
  }

  pub launch-ahead_of :
      (tasks : List ClientTask) (w : Console W)
      → ahead_of num_calls (launch tasks w) ≡ moves (length tasks) num_calls
  launch-ahead_of tasks w = omega (arith, sum-launch (weight num_calls) tasks)
