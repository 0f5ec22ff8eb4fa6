-- ===== src/Spm/SessionQueue/Commands.antt =====
-- One command with a session of the queue: ExecuteCmd of src/spm/services/se_pk11.go, and the other
-- methods of the HSM, which take and give back a session in the same way.
use mathlib.Core.List.Perm
use mathlib.Core.List.{Perm, perm_append_singleton}
use opentitan_provisioning.Base.{
  ℕ, suc, ◌≤◌, ◌≡◌, ◌≢◌, ◌∙◌, refl, ap, sym, subst, arith, List, [], ◌∷◌, ◌++◌, length,
  length-append, Result, ok, err, panic, hangs, errorf, status, ckr,
}
use opentitan_provisioning.Base.Exec.{Exec, Restores}
use opentitan_provisioning.Pk11.{Session}
use opentitan_provisioning.Spm.SessionQueue.{
  SessionQueue, insert, get_handle, release, released, execute_cmd,
}

-- The queue after a session from its front went to its back.
abbrev pub rotated : ℕ → Session → List Session → SessionQueue
rotated num s ss = record { num_sessions = num; s = ss ++ s ∷ [] }

-- The second queue has the sessions of the first, in some order.
pub record SameSessions (q q' : SessionQueue) : Type 0 where
  pub limit : q'.num_sessions ≡ q.num_sessions
  pub total : length q'.s ≡ length q.s
  pub perm : Perm q'.s q.s

release-rotated :
    (num : ℕ) (s : Session) (ss : List Session)
    → suc (length ss) ≤ num
    → release s (record { num_sessions = num; s = ss }) ≡ rotated num s ss
unfolding release insert
release-rotated num s ss room = ground arith

module _ {H A : Type 0} where
  released-value :
      (s : Session) (q : SessionQueue) (r : Result A) (h : H)
      → r ≢ err hangs
      → released s q (r, h) ≡ (r, (h, release s q))
  released-value s q (ok a) h ne = refl
  released-value s q (err (status c m)) h ne = refl
  released-value s q (err (errorf m)) h ne = refl
  released-value s q (err (ckr n)) h ne = refl
  released-value s q (err (panic m)) h ne = refl
  released-value s q (err hangs) h ne = absurd (ne refl)

  released-hangs :
      (s : Session) (q : SessionQueue) (r : Result A) (h : H)
      → r ≡ err hangs
      → (released s q (r, h)).0 ≡ err hangs
  released-hangs s q r h e = rw e refl

  -- The command's result and its effect on the device are those of the call.
  pub execute_cmd-value :
      (cmd : Session → Exec H A) (h : H) (num : ℕ) (s : Session) (ss : List Session)
      → suc (length ss) ≤ num
      → (cmd s h).0 ≢ err hangs
      → execute_cmd cmd (h, record { num_sessions = num; s = s ∷ ss })
        ≡ ((cmd s h).0, ((cmd s h).1, rotated num s ss))
  unfolding execute_cmd get_handle
  execute_cmd-value cmd h num s ss room ne =
      released-value s (record { num_sessions = num; s = ss }) (cmd s h).0 (cmd s h).1 ne
      ∙ ap (λ q. ((cmd s h).0, ((cmd s h).1, q))) (release-rotated num s ss room)

  released-eq-ok :
      (s : Session) (q q' : SessionQueue) (p : Result A × H) {a : A} {t : H}
      → released s q p ≡ (ok a, (t, q'))
      → (p ≡ (ok a, t)) × (q' ≡ release s q)
  released-eq-ok s q q' (ok a, h) e = (λ i. ((e i).0, (e i).1.0), ap (λ p. p.1.1) (sym e))
  released-eq-ok s q q' (err (status c m), h) e = cc (ap (λ p. p.0) e)
  released-eq-ok s q q' (err (errorf m), h) e = cc (ap (λ p. p.0) e)
  released-eq-ok s q q' (err (ckr n), h) e = cc (ap (λ p. p.0) e)
  released-eq-ok s q q' (err (panic m), h) e = cc (ap (λ p. p.0) e)
  released-eq-ok s q q' (err hangs, h) e = cc (ap (λ p. p.0) e)

  execute_list-eq-ok :
      (cmd : Session → Exec H A) (h t : H) (num : ℕ) (l : List Session) (q' : SessionQueue) {a : A}
      → length l ≤ num
      → execute_cmd cmd (h, record { num_sessions = num; s = l }) ≡ (ok a, (t, q'))
      → (s : Session) × (ss : List Session) × (l ≡ s ∷ ss)
        × (cmd s h ≡ (ok a, t))
        × (q' ≡ rotated num s ss)
  unfolding execute_cmd get_handle
  execute_list-eq-ok cmd h t num [] q' room e = cc (ap (λ p. p.0) e)
  execute_list-eq-ok cmd h t num (s ∷ ss) q' room e =
      let (ran, kept) = released-eq-ok s (record { num_sessions = num; s = ss }) q' (cmd s h) e in
      (s, ss, refl, ran, kept ∙ release-rotated num s ss room)

  -- A call that returns a result ran the command on the session at the front of the queue.
  pub execute_cmd-eq-ok :
      (cmd : Session → Exec H A) (h t : H) (q q' : SessionQueue) {a : A}
      → length q.s ≤ q.num_sessions
      → execute_cmd cmd (h, q) ≡ (ok a, (t, q'))
      → (s : Session) × (ss : List Session) × (q.s ≡ s ∷ ss)
        × (cmd s h ≡ (ok a, t))
        × (q' ≡ rotated q.num_sessions s ss)
  execute_cmd-eq-ok cmd h t q q' room e = execute_list-eq-ok cmd h t q.num_sessions q.s q' room e

  keeps_list :
      (cmd : Session → Exec H A) (h : H) (num : ℕ) (l : List Session)
      → length l ≤ num
      → (execute_cmd cmd (h, record { num_sessions = num; s = l })).0 ≢ err hangs
      → SameSessions
          (record { num_sessions = num; s = l })
          (execute_cmd cmd (h, record { num_sessions = num; s = l })).1.1
  unfolding execute_cmd get_handle
  keeps_list cmd h num [] room ne = record { limit = refl; total = refl; perm = Perm.refl [] }
  keeps_list cmd h num (s ∷ ss) room ne =
      subst (λ p. SameSessions (record { num_sessions = num; s = s ∷ ss }) p.1.1)
        (sym (
          execute_cmd-value cmd h num s ss room (λ e.
            ne (
              released-hangs s (record { num_sessions = num; s = ss }) (cmd s h).0 (cmd s h).1 e))))
        (record {
          limit = refl;
          total = omega (arith, length-append ss (s ∷ []));
          perm = perm_append_singleton s ss;
        })

  -- Whatever a command does, as long as it returns: the queue has the same sessions afterwards,
  -- also where the command fails or panics.
  pub execute_cmd-SameSessions :
      (cmd : Session → Exec H A) (h : H) (q : SessionQueue)
      → length q.s ≤ q.num_sessions
      → (execute_cmd cmd (h, q)).0 ≢ err hangs
      → SameSessions q (execute_cmd cmd (h, q)).1.1
  execute_cmd-SameSessions cmd h q room ne = keeps_list cmd h q.num_sessions q.s room ne

  -- For actions that run several commands, one after the other.
  pub execute_cmd-Restores :
      (cmd : Session → Exec H A) (q : SessionQueue)
      → length q.s ≤ q.num_sessions
      → Restores (λ x. SameSessions q x.1) (execute_cmd cmd)
  execute_cmd-Restores cmd q room = record {
    at = λ x same ne.
        let next =
          execute_cmd-SameSessions cmd x.0 x.1 (omega (arith, room, same.limit, same.total)) ne in
        record {
          limit = next.limit ∙ same.limit;
          total = next.total ∙ same.total;
          perm = Perm.trans next.perm same.perm;
        };
  }
