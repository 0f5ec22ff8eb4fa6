-- ===== src/Spm/Hsm/Opened.antt =====
-- What an instance of src/spm/services/se_pk11.go starts with: its sessions and the identifiers of
-- its keys.
use opentitan_provisioning.Base.{
  ℕ, zero, suc, ◌+◌, ◌≤◌, ◌<◌, ◌≡◌, ap, subst, arith, String, String_eq, List, [], ◌∷◌, ◌++◌,
  length, length-append, some, Result, ok, err, All, or_else, or_else-eq-ok, inl, inr, get_elem?,
  Bool-cases, ◌==◌, ◌∙◌,
}
use opentitan_provisioning.Base.Exec.{continue-eq-ok}
use opentitan_provisioning.Base.Dict.{Dict, lookup, insert, lookup-insert, lookup-insert_self}
use opentitan_provisioning.Proto.{Bytes}
use opentitan_provisioning.Pk11.{Ctx, Session, Attribute}
use opentitan_provisioning.Pk11.Find.{class_secret_key, class_private_key, class_public_key}
use opentitan_provisioning.Pk11.Connect.{load, tokens, open_session, login, normal_user}
use opentitan_provisioning.Spm.SessionQueue.{SessionQueue, new_session_queue, execute_cmd}
use opentitan_provisioning.Spm.SessionQueue.Commands.{execute_cmd-eq-ok}
use opentitan_provisioning.Spm.SessionQueue
use opentitan_provisioning.Spm.Hsm.{
  Hsm, HsmConfig, grown, inserted, or_error, open_loop, open_sessions, with_queue,
  with_queue_result, get_key_id_by_label, key_ids, find_keys, new_hsm,
}

inserted-fits :
    (s : Session) (q : SessionQueue)
    → suc (length q.s) ≤ q.num_sessions
    → inserted s q ≡ ok (record { num_sessions = q.num_sessions; s = q.s ++ s ∷ [] })
unfolding inserted grown SessionQueue.insert
inserted-fits s q room = ground arith

inserted-eq-ok :
    (s : Session) (q q' : SessionQueue)
    → inserted s q ≡ ok q'
    → (q'.num_sessions ≡ q.num_sessions) × (length q'.s ≡ suc (length q.s))
unfolding inserted grown SessionQueue.insert
inserted-eq-ok s q q' h = ground (arith, length-append q.s (s ∷ []))

module _ {H : Type 0} (ctx : Ctx H) where
  open_loop-length :
      (slot : ℕ) (pw : String) (n : ℕ) (q q' : SessionQueue) (h t : H)
      → open_loop ctx slot pw n q h ≡ (ok q', t)
      → (q'.num_sessions ≡ q.num_sessions) × (length q'.s ≡ length q.s + n)
  unfolding open_loop
  open_loop-length slot pw zero q q' h t e = ground arith
  open_loop-length slot pw (suc n) q q' h t e =
      let (s, _, e1) = continue-eq-ok (or_else (open_session ctx slot h).0 _) _ _ e in
      let (_, _, e2) = continue-eq-ok (or_else (login ctx s normal_user pw _).0 _) _ _ e1 in
      let (q1, put, e3) = continue-eq-ok (or_else (inserted s q) _) _ _ e2 in
      let (limit, longer) = inserted-eq-ok s q q1 (or_else-eq-ok _ _ put) in
      let (limit', total) = open_loop-length slot pw n q1 q' _ t e3 in
      (limit' ∙ limit, omega (arith, longer, total))

  open_sessions-full :
      (so_path pw : String) (slot num : ℕ) (q : SessionQueue) (h t : H)
      → open_sessions ctx so_path pw slot num h ≡ (ok q, t)
      → (q.num_sessions ≡ num) × (length q.s ≡ num)
  unfolding open_sessions new_session_queue
  open_sessions-full so_path pw slot num q h t e =
      let (_, _, e1) = continue-eq-ok (or_else (load ctx so_path h).0 _) _ _ e in
      let (toks, _, e2) = continue-eq-ok (or_else (tokens ctx _).0 _) _ _ e1 in
      let (i, _, e3) = continue-eq-ok (or_error (get_elem? toks slot) _) _ _ e2 in
      let (limit, total) = open_loop-length i pw num (new_session_queue num) q _ t e3 in
      (limit, omega (arith, total))

with_queue_result-eq-ok :
    {H A : Type 0} (p : Result A × (H × SessionQueue)) {a : A} {q : SessionQueue} {t : H}
    → with_queue_result p ≡ (ok (a, q), t)
    → p ≡ (ok a, (t, q))
unfolding with_queue_result
with_queue_result-eq-ok (ok a, (h, q)) e = ground arith
with_queue_result-eq-ok (err x, (h, q)) e = cc (ap (λ p. p.0) e)

-- Every label has an identifier.
abbrev pub AllBound : Dict String Bytes → List String → Type 0
AllBound ids = All (λ key. (id : Bytes) × (lookup key ids ≡ some id))

module _ {H : Type 0} (ctx : Ctx H) (fuel : ℕ) where
  key_ids-bound :
      (class : Attribute) (message : String) (keys : List String) (s : Session)
      (ids found : Dict String Bytes) (h t : H)
      → key_ids ctx fuel class message keys s ids h ≡ (ok found, t)
      → AllBound found keys
        × ((k : String) (id : Bytes)
            → lookup k ids ≡ some id
            → (id' : Bytes) × (lookup k found ≡ some id'))
  unfolding key_ids
  key_ids-bound class message [] s ids found h t e = (tt, λ k id b. (id, ground arith))
  key_ids-bound class message (key ∷ keys) s ids found h t e =
      let (id, _, e1) =
        continue-eq-ok (or_else (get_key_id_by_label ctx fuel s class key h).0 _) _ _ e in
      let (bound, kept) = key_ids-bound class message keys s (insert key id ids) found _ t e1 in
      (
        (kept key id (lookup-insert_self key id ids), bound),
        λ k i b. elim (Bool-cases (key == k)) [
          | inl same ↦ kept k id (ground (arith, lookup-insert key k id ids))
          | inr other ↦ kept k i (ground (arith, lookup-insert key k id ids))
        ],
      )

  all_bound :
      (class : Attribute) (message : String) (keys : List String) (s : Session)
      (found : Dict String Bytes) (h : H)
      → (key_ids ctx fuel class message keys s [] h).0 ≡ ok found
      → AllBound found keys
  all_bound class message keys s found h e =
      (key_ids-bound class message keys s [] found h (key_ids ctx fuel class message keys s [] h).1
        (λ i. (e i, (key_ids ctx fuel class message keys s [] h).1))).0

  found_hsm : (a b : Hsm) {h t : H} → ◌≡◌ {A = Result Hsm × H} (ok a, h) (ok b, t) → a ≡ b
  found_hsm a b e = cc (ap (λ p. p.0) e)

  find_keys-bound :
      (cfg : HsmConfig) (s : Session) (hsm : Hsm) (h t : H)
      → find_keys ctx fuel cfg s h ≡ (ok hsm, t)
      → AllBound hsm.symmetric_keys cfg.symmetric_keys
        × AllBound hsm.private_keys cfg.private_keys
        × AllBound hsm.public_keys cfg.public_keys
  unfolding find_keys
  find_keys-bound cfg s hsm h t e =
      let (symmetric, a, e1) =
        continue-eq-ok (key_ids ctx fuel class_secret_key _ cfg.symmetric_keys s [] h).0 _ _ e in
      let (private, b, e2) =
        continue-eq-ok (key_ids ctx fuel class_private_key _ cfg.private_keys s [] _).0 _ _ e1 in
      let (public, c, e3) =
        continue-eq-ok (key_ids ctx fuel class_public_key _ cfg.public_keys s [] _).0 _ _ e2 in
      subst
        (λ x.
          AllBound x.symmetric_keys cfg.symmetric_keys
          × AllBound x.private_keys cfg.private_keys
          × AllBound x.public_keys cfg.public_keys)
        (found_hsm _ _ e3)
        (
          all_bound _ _ _ s symmetric h a,
          all_bound _ _ _ s private _ b,
          all_bound _ _ _ s public _ c,
        )

  -- An instance that NewHSM returns has as many sessions as configured, all of them in the queue,
  -- and an identifier for every configured label of each kind of key. The number is not zero: with
  -- no session configured NewHSM returns no instance.
  pub new_hsm-ready :
      (cfg : HsmConfig) (hsm : Hsm) (q : SessionQueue) (h t : H)
      → new_hsm ctx fuel cfg h ≡ (ok (hsm, q), t)
      → (0 < cfg.num_sessions)
        × (q.num_sessions ≡ cfg.num_sessions)
        × (length q.s ≡ cfg.num_sessions)
        × AllBound hsm.symmetric_keys cfg.symmetric_keys
        × AllBound hsm.private_keys cfg.private_keys
        × AllBound hsm.public_keys cfg.public_keys
  unfolding new_hsm with_queue
  new_hsm-ready cfg hsm q h t e =
      let (sq, opened, e1) =
        continue-eq-ok
          (or_else (open_sessions ctx cfg.so_path cfg.hsm_password cfg.slot_id cfg.num_sessions h).0
            _)
          _ _ e in
      let (limit, total) =
        open_sessions-full ctx cfg.so_path cfg.hsm_password cfg.slot_id cfg.num_sessions sq h _
          (λ i. (
            or_else-eq-ok _ _ opened i,
            (open_sessions ctx cfg.so_path cfg.hsm_password cfg.slot_id cfg.num_sessions h).1,
          )) in
      let (s, ss, front, ran, kept) =
        execute_cmd-eq-ok (find_keys ctx fuel cfg) _ t sq q (omega (arith, limit, total))
          (with_queue_result-eq-ok _ e1) in
      let bound = find_keys-bound cfg s hsm _ t ran in
      (
        omega (arith, total, ap (λ l. length l) front),
        ap (λ r. r.num_sessions) kept ∙ limit,
        omega (
          arith,
          total,
          ap (λ l. length l) front,
          ap (λ r. length r.s) kept,
          length-append ss (s ∷ []),
        ),
        bound.0,
        bound.1,
        bound.2,
      )
