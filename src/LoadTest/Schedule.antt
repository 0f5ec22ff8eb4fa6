-- ===== src/LoadTest/Schedule.antt =====
-- A fair order of the goroutines of src/pa/loadtest.go, for runs of the model: the results are
-- received as soon as they are there, and else the first client that can go on does.
use opentitan_provisioning.Base.{
  ℕ, zero, suc, ◌≡◌, inl, inr, List, [], ◌∷◌, none, some, Option-cases, arith,
}
use opentitan_provisioning.LoadTest.{Service, CallFunc}
use opentitan_provisioning.LoadTest.Run.{
  Client, Shared, State, Move, client, collector, act, advance_at, collect, move,
}
use opentitan_provisioning.LoadTest.Verdict.{IsFair}

module _ {W : Type 0} (service : Service W) (test : CallFunc W) (num_calls : ℕ) where
  unfoldable pub first_able : List Client → Shared W → ℕ
  unfolding act
  first_able [] x = 0
  first_able (c ∷ cs) x =
      let later = first_able cs x in
      elim (act service test num_calls c.task c.phase x) [ some _ ↦ 0 | none ↦ suc later ]

  unfoldable pub receive_first : ℕ → State W → Move
  unfolding collect first_able
  receive_first expected s = elim (collect service test num_calls expected s) [
    | some _ ↦ collector
    | none ↦ client (first_able s.clients s.shared)
  ]

  first_able-advances :
      (k : ℕ) (cs ds : List Client) (x y : Shared W)
      → advance_at service test num_calls k cs x ≡ some (ds, y)
      → (q : List Client × Shared W) × (advance_at service test num_calls (first_able cs x) cs x
          ≡ some q)
  unfolding first_able advance_at
  first_able-advances k [] ds x y h = cc
  first_able-advances zero (c ∷ cs) ds x y h =
      elim (Option-cases (act service test num_calls c.task c.phase x)) [
        | inr ((p, z), e) ↦ ((record c { phase = p } ∷ cs, z), ground (arith, e))
        | inl stuck ↦ absurd (ground (arith, h, stuck))
      ]
  first_able-advances (suc k) (c ∷ cs) ds x y h =
      elim (Option-cases (act service test num_calls c.task c.phase x)) [
        | inr ((p, z), e) ↦ ((record c { phase = p } ∷ cs, z), ground (arith, e))
        | inl stuck ↦ elim (Option-cases (advance_at service test num_calls k cs x)) [
          | inl none_ ↦ absurd (ground (arith, h, none_))
          | inr ((es, z), e) ↦
              let (q, found) = first_able-advances k cs es x z e in
              ((c ∷ q.0, q.1), ground (arith, stuck, found))
        ]
      ]

  receive_first-picks :
      (expected : ℕ) (s t : State W) (m : Move)
      → move service test num_calls expected m s ≡ some t
      → (next : State W) × (move service test num_calls expected (receive_first expected s) s
          ≡ some next)
  unfolding move receive_first
  receive_first-picks expected s t collector h = (t, ground (arith, h))
  receive_first-picks expected s t (client k) h =
      elim (Option-cases (collect service test num_calls expected s)) [
        | inr (next, e) ↦ (next, ground (arith, e))
        | inl nothing ↦
            elim (Option-cases (advance_at service test num_calls k s.clients s.shared)) [
              | inl none_ ↦ absurd (ground (arith, h, none_))
              | inr ((cs, x), e) ↦
                  let ((ds, y), found) = first_able-advances k s.clients cs s.shared x e in
                  (record s { clients = ds; shared = y }, ground (arith, nothing, found))
            ]
      ]

  pub receive_first-IsFair :
      (expected : ℕ) → IsFair service test num_calls expected (receive_first expected)
  receive_first-IsFair expected = record { picks = λ s m t h. receive_first-picks expected s t m h }
