-- ===== src/Logger.antt =====
-- src/logger/logger.go. The operating system's files, the clock and the standard error are the state
-- `Host`; which of its calls fail is its oracle. A file's name stands for the file: nothing but the
-- logger renames or replaces the files it writes. A log.Logger of a ModLogger writes to the standard
-- error and to the file, and to nothing else.
pub mod Files
pub mod Methods
pub mod Levels
pub mod Printed
pub mod Rotation
pub mod Closed
mod Tests
use opentitan_provisioning.Base.{
  ℕ, ◌-◌, ◌*◌, Bool, true, false, not, ◌||◌, String, List, [], ◌∷◌, ◌++◌, Option, none, some,
  Result, ok, err, errorf, panic, if◌then◌else◌, ltb, nat_eq, length, str_eq, or_else,
}
use opentitan_provisioning.Base.Exec.{Exec, ◌>>=◌, ◌>>◌, pure, raise, or_raise, lift}
use opentitan_provisioning.Base.Text.{concat, bytes_of}
use opentitan_provisioning.Base.Int.{ℤ, pos, int_ltb, decrement, is_zero, int_text}
use opentitan_provisioning.Proto.{Bytes}
use Files.{
  Host, now, create, stat_size, read_into, seek_start, write_new, truncate, remove, close_file,
  open_truncated, append_line, print_line,
}

-- type LogLevel, an int
abbrev pub log_level_fatal : ℤ
log_level_fatal = pos 0

abbrev pub log_level_panic : ℤ
log_level_panic = pos 1

abbrev pub log_level_error : ℤ
log_level_error = pos 2

abbrev pub log_level_warn : ℤ
log_level_warn = pos 3

abbrev pub log_level_info : ℤ
log_level_info = pos 4

abbrev pub log_level_debug : ℤ
log_level_debug = pos 5

abbrev pub log_level_trace : ℤ
log_level_trace = pos 6

-- (LogLevel).String
unfoldable pub level_string : ℤ → String
level_string (pos n) =
    if nat_eq n 0
    then "FATAL:"
    else if nat_eq n 1
    then "PANIC:"
    else if nat_eq n 2
    then "ERROR:"
    else if nat_eq n 3
    then "WARN: "
    else if nat_eq n 4
    then "INFO: "
    else if nat_eq n 5
    then "DEBUG:"
    else if nat_eq n 6
    then "TRACE:"
    else int_text (pos n)
level_string n = int_text n

-- type ModLogger, but its mutex and its seven log.Loggers; the file is its name.
pub record ModLogger : Type 0 where
  pub log_file : Option String
  pub create_time : ℕ
  pub ref_count : ℤ

-- The package's variable `level`, and the host. The package's map `loggers` stays empty.
pub record World : Type 0 where
  pub level : ℤ
  pub host : Host

-- What a method sees: the logger behind its pointer, `none` where that is nil.
pub record Seen : Type 0 where
  pub logger : Option ModLogger
  pub world : World

-- A logger and the host, for the functions that do not read the level.
pub record Held : Type 0 where
  pub logger : ModLogger
  pub host : Host

abbrev on_host : {A : Type 0} → Exec Host A → Exec Held A
on_host m x = let (r, h) = m x.host in (r, record x { host = h })

abbrev set_create_time : Exec Held (Unit {0})
set_create_time x =
    let (t, h) = now x.host in
    (ok tt, record x { logger = record x.logger { create_time = t }; host = h })

-- time.Hour * 24 * 7 in nanoseconds
abbrev pub week_time : ℕ
week_time = 604800000000000

-- filepath.Join of one name, which is clean.
unfoldable pub old_log : String → String → String
old_log name time = concat name (concat "_" time)

-- The part of rotate that moves the contents. The error of Seek is dropped. A line that another
-- goroutine prints in between, which no lock prevents, is not modelled.
unfoldable pub moved : String → String → Exec Held (Unit {0})
moved name old_name = do
  or_raise (on_host (create old_name)) (errorf "cannot create file")
  start ← on_host (seek_start name)
  size ← or_raise (on_host (stat_size name)) (errorf "cannot get log file info")
  buf ← or_raise (on_host (read_into name start size)) (errorf "cannot read from log file")
  or_raise (on_host (write_new old_name buf)) (errorf "cannot write to log file")
  or_raise (on_host (truncate name)) (errorf "cannot truncate log file")
  set_create_time

-- rotate, of a logger with the file `name`. A difference of times that is negative is below a week.
unfoldable pub rotate : String → Exec Held (Unit {0})
unfolding moved old_log
rotate name x =
    let (time1, h) = now x.host in
    if ltb (time1 - x.logger.create_time) week_time
    then (ok tt, record x { host = h })
    else moved name (old_log name (h.format time1)) (record x { host = h })

-- What runtime.Caller finds.
pub record Caller : Type 0 where
  pub name : String
  pub file : String
  pub line : String

abbrev words : List String → String
words [] = ""
words (w ∷ []) = w
words (w ∷ ws) = concat w (concat " " (words ws))

-- getPrefix; the text is that of err.Error(), and `none` stands for a nil error, on which that call
-- panics.
unfoldable pub get_prefix : Option Caller → Option String → ℤ → Exec Host String
unfolding level_string
get_prefix c none l h = (err (panic "nil pointer dereference"), (now h).1)
get_prefix none (some error_text) l h =
    let (t, next) = now h in (ok (words (h.format t ∷ level_string l ∷ error_text ∷ [])), next)
get_prefix (some c) (some error_text) l h =
    let (t, next) = now h in
    (
      ok (
          words (
            h.format t
            ∷ level_string l
            ∷ concat "[" (concat c.name "()]")
            ∷ concat "[" (concat c.file "]")
            ∷ concat "[" (concat c.line "]")
            ∷ error_text
            ∷ [])),
      next,
    )
