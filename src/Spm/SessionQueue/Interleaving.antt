-- ===== src/Spm/SessionQueue/Interleaving.antt =====
-- Several callers of one session queue: each takes a session, works and gives it back.
use mathlib.Core.List.Perm
use mathlib.Core.List.{Perm, perm_middle, append_assoc, append-nil}
use opentitan_provisioning.Base.{
  ◌+◌, ◌≤◌, ◌<◌, ◌≡◌, refl, List, [], ◌∷◌, ◌++◌, length, length-append, ok, arith, ap, subst, ◌∙◌,
}
use opentitan_provisioning.Pk11.{Session}
use opentitan_provisioning.Spm.SessionQueue.{SessionQueue, insert, get_handle, release}

-- The queue and the sessions that callers hold.
pub record Shared : Type 0 where
  pub queue : SessionQueue
  pub held : List Session

-- One caller's call of getHandle that returns, or of the release function it was given.
pub data Step (a b : Shared) : Type 0 where
  takes : (s : Session) → get_handle a.queue ≡ (ok s, b.queue) → b.held ≡ s ∷ a.held → Step a b
  gives_back :
      (before after : List Session) (s : Session)
      → a.held ≡ before ++ s ∷ after
      → b.queue ≡ release s a.queue
      → b.held ≡ before ++ after
      → Step a b

pub data Reachable (first : SessionQueue) : Shared → Type 0 where
  start : (b : Shared) → b.queue ≡ first → b.held ≡ [] → Reachable first b
  then_ : (a b : Shared) → Reachable first a → Step a b → Reachable first b

-- The sessions queued and held are those of the start, in some order.
pub record Conserves (first : SessionQueue) (x : Shared) : Type 0 where
  pub same_limit : x.queue.num_sessions ≡ first.num_sessions
  pub perm : Perm (x.queue.s ++ x.held) first.s
  pub total : length x.queue.s + length x.held ≡ length first.s

get_handle-eq-ok :
    (q q' : SessionQueue) (s : Session)
    → get_handle q ≡ (ok s, q')
    → (q'.num_sessions ≡ q.num_sessions) × (q.s ≡ s ∷ q'.s)
unfolding get_handle
get_handle-eq-ok q q' s h = ground arith

takes-Conserves :
    (first : SessionQueue) (a b : Shared) (s : Session)
    → get_handle a.queue ≡ (ok s, b.queue)
    → b.held ≡ s ∷ a.held
    → Conserves first a
    → Conserves first b
takes-Conserves first a b s h e c =
    let (limit, queued) = get_handle-eq-ok a.queue b.queue s h in
    record {
      same_limit = ground arith;
      perm =
          Perm.trans (rw e (perm_middle b.queue.s a.held))
            (subst (λ l. Perm (l ++ a.held) first.s) queued c.perm);
      total = omega (arith, c.total, ap (λ l. length l) queued, ap (λ l. length l) e);
    }

-- What a caller gives back always fits.
insert-fits :
    (first : SessionQueue) (a : Shared) (before after : List Session) (s : Session)
    → length first.s ≤ first.num_sessions
    → a.held ≡ before ++ s ∷ after
    → Conserves first a
    → insert s a.queue
      ≡ (ok tt, record { num_sessions = a.queue.num_sessions; s = a.queue.s ++ s ∷ [] })
unfolding insert
insert-fits first a before after s fits e c =
    ground
      (arith, fits, c.total, c.same_limit, ap (λ l. length l) e, length-append before (s ∷ after))

regroup :
    (queued before after : List Session) (s : Session)
    → Perm ((queued ++ s ∷ []) ++ (before ++ after)) (queued ++ (before ++ s ∷ after))
regroup queued before after s =
    Perm.trans (rw append_assoc (Perm.refl _))
      (Perm.append (Perm.refl queued) (Perm.symm (perm_middle before after)))

gives_back-Conserves :
    (first : SessionQueue) (a b : Shared) (before after : List Session) (s : Session)
    → length first.s ≤ first.num_sessions
    → a.held ≡ before ++ s ∷ after
    → b.queue ≡ release s a.queue
    → b.held ≡ before ++ after
    → Conserves first a
    → Conserves first b
unfolding release
gives_back-Conserves first a b before after s fits e back left c =
    let kept = ap (λ p. p.1) (insert-fits first a before after s fits e c) in
    let queued : b.queue.s ≡ a.queue.s ++ s ∷ [] = ap (λ q. q.s) (back ∙ kept) in
    record {
      same_limit = ap (λ q. q.num_sessions) (back ∙ kept) ∙ c.same_limit;
      perm = Perm.trans (rw (queued, left) (regroup a.queue.s before after s)) (rw e at c.perm);
      total = omega (
        arith,
        c.total,
        ap (λ l. length l) queued,
        ap (λ l. length l) e,
        ap (λ l. length l) left,
        length-append a.queue.s (s ∷ []),
        length-append before after,
        length-append before (s ∷ after),
      );
    }

Reachable-Conserves :
    (first : SessionQueue) (x : Shared)
    → length first.s ≤ first.num_sessions
    → Reachable first x
    → Conserves first x
Reachable-Conserves first x fits (Reachable.start _ e none_held) = record {
  same_limit = ap (λ q. q.num_sessions) e;
  perm = rw (e, none_held, append-nil) (Perm.refl first.s);
  total = omega (arith, ap (λ q. length q.s) e, ap (λ l. length l) none_held);
}
Reachable-Conserves first x fits (Reachable.then_ a _ r (Step.takes s h e)) =
    takes-Conserves first a x s h e (Reachable-Conserves first a fits r)
Reachable-Conserves first x fits
      (Reachable.then_ a _ r (Step.gives_back before after s e back left)) =
    gives_back-Conserves first a x before after s fits e back left
      (Reachable-Conserves first a fits r)

get_handle-some :
    (q : SessionQueue) (l : List Session)
    → q.s ≡ l
    → 0 < length l
    → (s : Session) × ((get_handle q).0 ≡ ok s)
unfolding get_handle
get_handle-some q [] e some_left = absurd (omega (arith, some_left))
get_handle-some q (s ∷ l) e some_left = (s, ground arith)

-- However many callers take sessions from a queue and give them back, in whatever order: the
-- sessions in the queue and in the callers' hands are together those of the start, none lost and
-- none held twice; the `insert` of a release never fails; and getHandle blocks only while every
-- session is held.
pub Reachable-sessions :
    (first : SessionQueue) (x : Shared)
    → length first.s ≤ first.num_sessions
    → Reachable first x
    → Perm (x.queue.s ++ x.held) first.s
      × ((before after : List Session) (s : Session)
          → x.held ≡ before ++ s ∷ after
          → (insert s x.queue).0 ≡ ok tt)
      × (length x.held < length first.s → (s : Session) × ((get_handle x.queue).0 ≡ ok s))
Reachable-sessions first x fits r =
    let c = Reachable-Conserves first x fits r in
    (
      c.perm,
      λ before after s e. ap (λ p. p.0) (insert-fits first x before after s fits e c),
      λ few. get_handle-some x.queue x.queue.s refl (omega (arith, few, c.total)),
    )
