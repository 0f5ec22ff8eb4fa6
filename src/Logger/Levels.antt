-- ===== src/Logger/Levels.antt =====
-- The level of src/logger/logger.go, which all loggers share, and which methods it lets write.
use opentitan_provisioning.Base.{
  ◌≤◌, ◌≡◌, refl, sym, Bool, true, false, String, List, [], ◌∷◌, ok, err, errorf, Error, arith,
  if◌then◌else◌, str_eq, subst, str_eq,
}
use opentitan_provisioning.Base.Exec.{Exec, Keeps, >>=-Keeps, pure-Keeps}
use opentitan_provisioning.Base.Int.{ℤ, pos, negsuc}
use opentitan_provisioning.Logger.{World, Seen, log_level_info}
use opentitan_provisioning.Logger.Files.{Host}
use opentitan_provisioning.Logger.Methods.{
  Message, new_logger, set_log_level, close, fatal, panic_, error_, warn, info, debug, trace,
  choose_level, with_file, out_of_range,
}

abbrev pub IsLevel : ℤ → Type 0
IsLevel (pos n) = n ≤ 6
IsLevel (negsuc n) = ⊥

pub data Method : Type 0 where
  fatal_method panic_method error_method warn_method : Method
  info_method debug_method trace_method : Method

abbrev pub call_method : Method → Message → Exec Seen (Unit {0})
call_method fatal_method = fatal
call_method panic_method = panic_
call_method error_method = error_
call_method warn_method = warn
call_method info_method = info
call_method debug_method = debug
call_method trace_method = trace

-- What the program can do to the package's state, in any order; between its calls the host changes.
pub data Reachable : World → Type 0 where
  start : (h : Host) → Reachable (record { level = pos 0; host = h })
  opened :
      {w : World} (name : String) (levels : List ℤ)
      → Reachable w
      → Reachable (new_logger name levels w).1
  level_set : {w : World} (l : ℤ) → Reachable w → Reachable (set_log_level l w).1
  closed : (x : Seen) → Reachable x.world → Reachable (close x).1.world
  logged :
      (x : Seen) (m : Method) (t : Message)
      → Reachable x.world
      → Reachable (call_method m t x).1.world
  outside : {w : World} (h : Host) → Reachable w → Reachable (record w { host = h })

abbrev HasLevel : World → Type 0
HasLevel w = IsLevel w.level

if-Keeps :
    {A : Type 0} (b : Bool) (m n : Exec World A)
    → Keeps HasLevel m
    → Keeps HasLevel n
    → Keeps HasLevel (if b then m else n)
if-Keeps true m n k l = k
if-Keeps false m n k l = l

choose_level-Keeps : (levels : List ℤ) → Keeps HasLevel (choose_level levels)
unfolding choose_level
choose_level-Keeps [] = pure-Keeps HasLevel tt
choose_level-Keeps (pos n ∷ ls) = record { at = λ w p. ground arith }
choose_level-Keeps (negsuc n ∷ ls) = record { at = λ w p. p }

with_file-Keeps : (name : String) → Keeps HasLevel (with_file name)
unfolding with_file
with_file-Keeps name = record { at = λ w p. ground arith }

reset-Keeps : Keeps HasLevel (λ (w : World). (ok tt, record w { level = log_level_info }))
reset-Keeps = record { at = λ w p. omega arith }

new_logger-Keeps : (name : String) (levels : List ℤ) → Keeps HasLevel (new_logger name levels)
unfolding new_logger
new_logger-Keeps name levels =
    >>=-Keeps HasLevel _ _ (>>=-Keeps HasLevel _ _ reset-Keeps (λ u. choose_level-Keeps levels))
      (λ u. if-Keeps (str_eq name "") _ _ (record { at = λ w p. p }) (with_file-Keeps name))

set_log_level-IsLevel : (l : ℤ) (w : World) → IsLevel w.level → IsLevel (set_log_level l w).1.level
unfolding set_log_level
set_log_level-IsLevel (pos n) w h = ground arith
set_log_level-IsLevel (negsuc n) w h = h

close-level : (x : Seen) → (close x).1.world.level ≡ x.world.level
unfolding close
close-level x = ground arith

call_method-level :
    (m : Method) (t : Message) (x : Seen) → (call_method m t x).1.world.level ≡ x.world.level
unfolding fatal panic_ error_ warn info debug trace
call_method-level fatal_method t x = ground arith
call_method-level panic_method t x = ground arith
call_method-level error_method t x = ground arith
call_method-level warn_method t x = ground arith
call_method-level info_method t x = ground arith
call_method-level debug_method t x = ground arith
call_method-level trace_method t x = ground arith

has_level : (w : World) → Reachable w → IsLevel w.level
has_level _ (Reachable.start h) = omega arith
has_level _ (Reachable.opened {w} name levels r) =
    (new_logger-Keeps name levels).at w (has_level w r)
has_level _ (Reachable.level_set {w} l r) = set_log_level-IsLevel l w (has_level w r)
has_level _ (Reachable.closed x r) = subst IsLevel (sym (close-level x)) (has_level x.world r)
has_level _ (Reachable.logged x m t r) =
    subst IsLevel (sym (call_method-level m t x)) (has_level x.world r)
has_level _ (Reachable.outside {w} h r) = has_level w r

refused : (l : ℤ) → (IsLevel l → ⊥) → out_of_range l ≡ true
refused (pos n) out = ground (arith, out)
refused (negsuc n) out = refl

accepted : (l : ℤ) → IsLevel l → out_of_range l ≡ false
accepted (pos n) level = ground (arith, level)
accepted (negsuc n) level = absurd level

-- Whatever the program does, in whatever order, the level that its loggers share is one of the seven
-- from LogLevelFatal to LogLevelTrace. SetLogLevel sets these and returns, and refuses all other
-- numbers with an error and no change; NewLogger refuses them too, and returns no logger.
pub Reachable-IsLevel :
    (w : World)
    → Reachable w
    → IsLevel w.level
      × ((l : ℤ) → IsLevel l → set_log_level l w ≡ (ok tt, record w { level = l }))
      × ((l : ℤ) → (IsLevel l → ⊥) → (e : Error) × (set_log_level l w ≡ (err e, w)))
      × ((name : String) (l : ℤ) (ls : List ℤ)
          → (IsLevel l → ⊥)
          → (e : Error) × ((new_logger name (l ∷ ls) w).0 ≡ err e))
unfolding set_log_level new_logger choose_level
Reachable-IsLevel w r = (
  has_level w r,
  λ l level. rw (accepted l level) refl,
  λ l out. (errorf "invalid log level, expected from 0 to 6", rw (refused l out) refl),
  λ name l ls out. (errorf "invalid log level, expected from 0 to 6", rw (refused l out) refl),
)
