-- ===== src/Logger/Closed.antt =====
-- What NewLogger and Close of src/logger/logger.go do to the log's file.
use opentitan_provisioning.Base.{
  ◌≡◌, ◌≢◌, refl, inl, inr, sym, false, String, String_eq, List, [], none, some, ok, length, arith,
  if◌then◌else◌, Option-cases, eq_iff, str_eq, nat_eq, subst,
}
use opentitan_provisioning.Base.Exec.{◌>>◌, >>=-eq-ok}
use opentitan_provisioning.Base.Dict.{Dict, lookup, lookup-insert, lookup-delete}
use opentitan_provisioning.Base.Int.{ℤ, pos}
use opentitan_provisioning.Proto.{Bytes}
use opentitan_provisioning.Logger.{ModLogger, World, Seen, log_level_info}
use opentitan_provisioning.Logger.Files.{Host, stat_size, remove, close_file, open_truncated}
use opentitan_provisioning.Logger.Methods.{
  new_logger, set_level, close, released, choose_level, with_file,
}

-- The file is gone where it was empty, and no other file has changed.
pub record IsReleased (name : String) (before after : Dict String Bytes) : Type 0 where
  pub contents : Bytes
  pub found : lookup name before ≡ some contents
  pub left : lookup name after ≡ (if nat_eq (length contents) 0 then none else some contents)
  pub others : (f : String) → f ≢ name → lookup f after ≡ lookup f before

released-IsReleased :
    (name : String) (h : Host)
    → (released name h).0 ≡ ok tt
    → IsReleased name h.files (released name h).1.files
unfolding released close_file stat_size remove
released-IsReleased name h e = elim (Option-cases (lookup name h.files)) [
  | inl gone ↦ absurd (ground (arith, gone, e))
  | inr (b, found) ↦ record {
    contents = b;
    found = found;
    left = ground (arith, found, e, lookup-delete name name h.files, eq_iff name name);
    others = λ f other. ground (arith, found, e, lookup-delete name f h.files, eq_iff name f);
  }
]

closed_again :
    (y : Seen) (l : ModLogger) → y.logger ≡ some l → l.log_file ≡ none → close y ≡ (ok tt, y)
unfolding close
closed_again y l e file = ground (arith, e, file)

with_file-truncates :
    (name : String) (w after : World) (l : ModLogger)
    → with_file name w ≡ (ok l, after)
    → (lookup name after.host.files ≡ some []) × (l.log_file ≡ some name) × (l.ref_count ≡ pos 1)
unfolding with_file open_truncated
with_file-truncates name w after l e =
    ground (arith, e, lookup-insert name name [] w.host.files, eq_iff name name)

-- Close of a logger with a file, to which there is one reference: where it succeeds the logger has no
-- file any more, the file is removed if it was empty and left as it was if not, and no other file
-- has changed; and a second Close succeeds and changes nothing.
pub close-IsReleased :
    (x : Seen) (l : ModLogger) (name : String)
    → x.logger ≡ some l
    → l.log_file ≡ some name
    → l.ref_count ≡ pos 1
    → (close x).0 ≡ ok tt
    → IsReleased name x.world.host.files (close x).1.world.host.files
      × (close (close x).1 ≡ (ok tt, (close x).1))
unfolding close
close-IsReleased x l name e file last closed =
    let r = released name x.world.host in
    let done : r.0 ≡ ok tt = ground (arith, e, file, last, closed) in
    let files : (close x).1.world.host.files ≡ r.1.files = ground (arith, e, file, last) in
    (
      subst (IsReleased name x.world.host.files) (sym files)
          (released-IsReleased name x.world.host done),
      closed_again (close x).1 (record l { log_file = none; ref_count = pos 0 })
          (ground (arith, e, file, last, done)) refl,
    )

-- NewLogger with a name opens that file, and what was in it before is lost, be it the file of another
-- logger of the program: the new logger counts one reference to it.
pub new_logger-truncates :
    (name : String) (levels : List ℤ) (w after : World) (l : ModLogger)
    → name ≢ ""
    → new_logger name levels w ≡ (ok l, after)
    → (lookup name after.host.files ≡ some []) × (l.log_file ≡ some name) × (l.ref_count ≡ pos 1)
unfolding new_logger
new_logger-truncates name levels w after l named e =
    let unnamed : str_eq name "" ≡ false = ground (arith, eq_iff name "", named) in
    let (_, chosen, e1) = >>=-eq-ok (set_level log_level_info >> choose_level levels) _ w e in
    with_file-truncates name ((set_level log_level_info >> choose_level levels) w).1 after l
      (rw unnamed at e1)
