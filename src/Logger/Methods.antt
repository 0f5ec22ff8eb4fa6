-- ===== src/Logger/Methods.antt =====
-- NewLogger and the methods of src/logger/logger.go.
use opentitan_provisioning.Base.{
  ℕ, Bool, ◌||◌, String, List, [], ◌∷◌, Option, none, some, Result, ok, err, errorf, panic,
  if◌then◌else◌, str_eq, nat_eq,
}
use opentitan_provisioning.Base.Exec.{Exec, ◌>>=◌, ◌>>◌, pure, raise, or_raise}
use opentitan_provisioning.Base.Text.{concat}
use opentitan_provisioning.Base.Int.{ℤ, pos, int_ltb, decrement, is_zero}
use opentitan_provisioning.Logger.{
  ModLogger, World, Seen, Held, Caller, rotate, get_prefix, log_level_fatal, log_level_panic,
  log_level_error, log_level_warn, log_level_info, log_level_debug, log_level_trace,
}
use opentitan_provisioning.Logger.Files.{
  Host, now, stat_size, remove, close_file, open_truncated, append_line, print_line,
}

-- An error's text, `none` for a nil error, the other arguments as fmt.Sprintln prints them, and where the call stands.
pub record Message : Type 0 where
  pub error_text : Option String
  pub intf : String
  pub caller : Option Caller

-- logLevel < LogLevelFatal || logLevel > LogLevelTrace
abbrev pub out_of_range : ℤ → Bool
out_of_range l = int_ltb l log_level_fatal || int_ltb log_level_trace l

abbrev on_host : {A : Type 0} → Exec Host A → Exec World A
on_host m w = let (r, h) = m w.host in (r, record w { host = h })

abbrev pub set_level : ℤ → Exec World (Unit {0})
set_level l w = (ok tt, record w { level = l })

-- The first of the optional levels.
unfoldable pub choose_level : List ℤ → Exec World (Unit {0})
choose_level [] = pure tt
choose_level (l ∷ ls) =
    if out_of_range l then raise (errorf "invalid log level, expected from 0 to 6") else set_level l

abbrev made : Option String → ℤ → Exec World ModLogger
made file count w =
    let (t, h) = now w.host in
    (ok (record { log_file = file; create_time = t; ref_count = count }), record w { host = h })

-- The branch with a name: the map `loggers` that is looked up is a new one, so the name is not in it.
unfoldable pub with_file : String → Exec World ModLogger
with_file log_name w =
    if w.host.dir_missing log_name
    then (err (errorf "log directory does not exist"), w)
    else (or_raise (on_host (open_truncated log_name)) (errorf "cannot create log file")
          >> made (some log_name) (pos 1))
        w

unfoldable pub new_logger : String → List ℤ → Exec World ModLogger
unfolding choose_level with_file
new_logger log_name log_level =
    set_level log_level_info
    >> choose_level log_level
    >> (if str_eq log_name "" then made none (pos 0) else with_file log_name)

-- SetLogLevel reads nothing of its logger, which may be nil.
unfoldable pub set_log_level : ℤ → Exec World (Unit {0})
set_log_level log_level =
    if out_of_range log_level
    then raise (errorf "invalid log level, expected from 0 to 6")
    else set_level log_level

-- The last reference: the file is closed, and removed where it is empty.
removed : String → ℕ → Exec Host (Unit {0})
removed name size =
    if nat_eq size 0
    then or_raise (remove name) (errorf "cannot remove empty log file")
    else pure tt

unfoldable pub released : String → Exec Host (Unit {0})
unfolding removed
released name = do
  or_raise (close_file name) (errorf "cannot close log file")
  size ← or_raise (stat_size name) (errorf "cannot get log file info")
  removed name size

after_release : ModLogger → Result (Unit {0}) → ModLogger
after_release l (ok _) = record l { log_file = none }
after_release l (err _) = l

-- `if l.LogFile != nil` of Close
unfoldable pub close_held : Option String → Exec Held (Unit {0})
unfolding released after_release
close_held none x = (ok tt, x)
close_held (some name) x =
    let l = record x.logger { ref_count = decrement x.logger.ref_count } in
    let (r, h) = released name x.host in
    if is_zero l.ref_count
    then (r, record { logger = after_release l r; host = h })
    else (ok tt, record x { logger = l })

-- A method of a logger that is not nil.
abbrev on_logger : ModLogger → Exec Held (Unit {0}) → Exec Seen (Unit {0})
on_logger l m x =
    let (r, y) = m (record { logger = l; host = x.world.host }) in
    (r, record { logger = some y.logger; world = record x.world { host = y.host } })

unfoldable pub close : Exec Seen (Unit {0})
unfolding close_held
close x = elim x.logger [
  | none ↦ (err (errorf "non-existing logger"), x)
  | some l ↦ on_logger l (close_held l.log_file) x
]

-- Println to the standard error and to the file.
abbrev both : String → String → String → Host → Host
both name s intf h =
    let line = concat s (concat " " intf) in append_line name (concat line "\n") (print_line line h)

-- What the methods do with their prefix; what rotate returns is dropped.
unfoldable pub printed :
    Option String → Message → Held → Result String × Host → Result (Unit {0}) × Held
unfolding rotate
printed file m x (err e, h) = (err e, record x { host = h })
printed none m x (ok s, h) = (ok tt, record x { host = print_line s h })
printed (some name) m x (ok s, h) =
    (ok tt, (rotate name (record x { host = both name s m.intf h })).1)

-- The body of the methods but Panic.
unfoldable pub log_line : ℤ → Message → Option String → Exec Held (Unit {0})
unfolding get_prefix printed
log_line l m file x = printed file m x (get_prefix m.caller m.error_text l x.host)

unfoldable pub panicked :
    Option String → Message → Held → Result String × Host → Result (Unit {0}) × Held
panicked file m x (err e, h) = (err e, record x { host = h })
panicked none m x (ok s, h) = (err (panic s), record x { host = h })
panicked (some name) m x (ok s, h) =
    (err (panic (concat s (concat " " m.intf))), record x { host = both name s m.intf h })

unfoldable pub panic_line : ℤ → Message → Option String → Exec Held (Unit {0})
unfolding get_prefix panicked
panic_line l m file x = panicked file m x (get_prefix m.caller m.error_text l x.host)

-- `if l == nil || level < ... { return }`
abbrev pub guarded : ℤ → (Option String → Exec Held (Unit {0})) → Exec Seen (Unit {0})
guarded least body x = elim x.logger [
  | none ↦ (ok tt, x)
  | some l ↦ if int_ltb x.world.level least then (ok tt, x) else on_logger l (body l.log_file) x
]

unfoldable pub fatal : Message → Exec Seen (Unit {0})
unfolding log_line
fatal m = guarded log_level_fatal (log_line log_level_fatal m)

unfoldable pub panic_ : Message → Exec Seen (Unit {0})
unfolding panic_line
panic_ m = guarded log_level_panic (panic_line log_level_panic m)

unfoldable pub error_ : Message → Exec Seen (Unit {0})
unfolding log_line
error_ m = guarded log_level_error (log_line log_level_error m)

unfoldable pub warn : Message → Exec Seen (Unit {0})
unfolding log_line
warn m = guarded log_level_warn (log_line log_level_warn m)

unfoldable pub info : Message → Exec Seen (Unit {0})
unfolding log_line
info m = guarded log_level_info (log_line log_level_info m)

-- Debug and Trace have the guard of Info.
unfoldable pub debug : Message → Exec Seen (Unit {0})
unfolding log_line
debug m = guarded log_level_info (log_line log_level_debug m)

unfoldable pub trace : Message → Exec Seen (Unit {0})
unfolding log_line
trace m = guarded log_level_info (log_line log_level_trace m)
