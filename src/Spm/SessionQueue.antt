-- ===== src/Spm/SessionQueue.antt =====
-- The `sessionQueue` of src/spm/services/se_pk11.go, a channel of HSM sessions that callers take and
-- give back. A receive from the empty channel blocks; it `hangs` where no other caller runs.
-- SessionQueue/Interleaving.antt has the callers side by side.
pub mod Interleaving
pub mod Commands
use opentitan_provisioning.Base.{
  ℕ, List, [], ◌∷◌, ◌++◌, length, leb, Result, ok, err, errorf, hangs, Error, if◌then◌else◌,
}
use opentitan_provisioning.Base.Exec.{Exec}
use opentitan_provisioning.Pk11.{Session}

-- `s` is the contents of the channel, first in first.
pub record SessionQueue : Type 0 where
  pub num_sessions : ℕ
  pub s : List Session

unfoldable pub new_session_queue : ℕ → SessionQueue
new_session_queue num = record { num_sessions = num; s = [] }

-- The channel's capacity is `num_sessions`, so the send after the test does not block.
unfoldable pub insert : Session → Exec SessionQueue (Unit {0})
insert s q =
    if leb q.num_sessions (length q.s)
    then (err (errorf "Reached maximum session queue capacity."), q)
    else (ok tt, record q { s = q.s ++ s ∷ [] })

-- The first result of getHandle.
unfoldable pub get_handle : Exec SessionQueue Session
get_handle q = elim q.s [ [] ↦ (err hangs, q) | s ∷ ss ↦ (ok s, record q { s = ss }) ]

-- The second result of getHandle, which drops the error of `insert`.
unfoldable pub release : Session → SessionQueue → SessionQueue
unfolding insert
release s q = (insert s q).1

-- A command's result decides nothing, unless it never returns: then the deferred call never runs.
abbrev pub released :
    {H A : Type 0} → Session → SessionQueue → Result A × H → Result A × (H × SessionQueue)
released s q (err hangs, h) = (err hangs, (h, q))
released s q (r, h) = (r, (h, release s q))

abbrev pub taken :
    {H A : Type 0}
    → (Session → Exec H A)
    → H
    → Result Session × SessionQueue
    → Result A × (H × SessionQueue)
taken cmd h (ok s, q) = released s q (cmd s h)
taken cmd h (err e, q) = (err e, (h, q))

-- session, release := h.sessions.getHandle(); defer release(); return cmd(session)
unfoldable pub execute_cmd : {H A : Type 0} → (Session → Exec H A) → Exec (H × SessionQueue) A
execute_cmd cmd (h, q) = taken cmd h (get_handle q)
