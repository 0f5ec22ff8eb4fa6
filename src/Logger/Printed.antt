-- ===== src/Logger/Printed.antt =====
-- Which methods of src/logger/logger.go write a line, at which level.
use opentitan_provisioning.Base.{
  ◌≡◌, Error, ◌⊎◌, refl, inr, ap, ◌∙◌, Bool, Result, true, false, String, [], ◌∷◌, ◌++◌, Option,
  none, some, ok, err, panic, arith,
}
use opentitan_provisioning.Base.Exec.{Exec}
use opentitan_provisioning.Base.Text.{concat}
use opentitan_provisioning.Base.Int.{ℤ, pos, int_ltb}
use opentitan_provisioning.Logger.{ModLogger, Seen, Held, Caller, rotate, get_prefix}
use opentitan_provisioning.Logger.Files.{
  Host, create, stat_size, read_into, seek_start, write_new, truncate, append_line,
}
use opentitan_provisioning.Logger.Methods.{
  Message, guarded, fatal, panic_, error_, warn, info, debug, trace, log_line, panic_line, printed,
  panicked,
}
use opentitan_provisioning.Logger.Levels.{
  Method, call_method, fatal_method, panic_method, error_method, warn_method, info_method,
  debug_method, trace_method,
}

-- The least level at which a method writes.
abbrev pub least_level : Method → ℤ
least_level fatal_method = pos 0
least_level panic_method = pos 1
least_level error_method = pos 2
least_level warn_method = pos 3
least_level info_method = pos 4
least_level debug_method = pos 4
least_level trace_method = pos 4

-- No logger, or a level below the method's.
abbrev pub IsQuiet : Method → Seen → Type 0
IsQuiet m x = (x.logger ≡ none) ⊎ (int_ltb x.world.level (least_level m) ≡ true)

quiet : (m : Method) (t : Message) (x : Seen) → IsQuiet m x → call_method m t x ≡ (ok tt, x)
unfolding fatal panic_ error_ warn info debug trace
quiet fatal_method t x q = ground arith
quiet panic_method t x q = ground arith
quiet error_method t x q = ground arith
quiet warn_method t x q = ground arith
quiet info_method t x q = ground arith
quiet debug_method t x q = ground arith
quiet trace_method t x q = ground arith

rotate-stderr : (name : String) (x : Held) → (rotate name x).1.host.stderr ≡ x.host.stderr
unfolding rotate create seek_start stat_size read_into write_new truncate
rotate-stderr name x = ground arith

append_line-stderr : (name s : String) (h : Host) → (append_line name s h).stderr ≡ h.stderr
unfolding append_line
append_line-stderr name s h = ground arith

-- One more line on the standard error.
pub record Prints (before after : Host) : Type 0 where
  pub line : String
  pub printed : after.stderr ≡ before.stderr ++ line ∷ []

get_prefix-stderr :
    (c : Option Caller) (text : Option String) (l : ℤ) (h : Host)
    → (get_prefix c text l h).1.stderr ≡ h.stderr
unfolding get_prefix
get_prefix-stderr c none l h = refl
get_prefix-stderr none (some text) l h = refl
get_prefix-stderr (some c) (some text) l h = refl

-- A prefix is a text, but for a nil error.
abbrev IsPrefix : Option String → Result String → Type 0
IsPrefix none r = r ≡ err (panic "nil pointer dereference")
IsPrefix (some text) r = (s : String) × (r ≡ ok s)

get_prefix-IsPrefix :
    (c : Option Caller) (text : Option String) (l : ℤ) (h : Host)
    → IsPrefix text (get_prefix c text l h).0
unfolding get_prefix
get_prefix-IsPrefix c none l h = refl
get_prefix-IsPrefix none (some text) l h = (_, refl)
get_prefix-IsPrefix (some c) (some text) l h = (_, refl)

abbrev pub panics_of : Method → Bool
panics_of panic_method = true
panics_of _ = false

-- What a run at a level that lets it shows, by whether the method is Panic, the logger's file and the
-- text of the error. With a nil error it panics on that and prints nothing. Otherwise a method prints
-- a line and returns; Panic of a logger with a file panics with the line that it has printed, and
-- without a file it panics with its prefix and prints nothing.
abbrev pub Shown :
    Bool → Option String → Option String → Result String → Result (Unit {0}) → Host → Host → Type 0
Shown panics file none prefix r before after =
    (r ≡ err (panic "nil pointer dereference")) × (after.stderr ≡ before.stderr)
Shown false file (some text) prefix r before after = Prints before after × (r ≡ ok tt)
Shown true (some name) (some text) prefix r before after =
    (p : Prints before after) × (r ≡ err (panic p.line))
Shown true none (some text) prefix r before after =
    (s : String) × (prefix ≡ ok s) × (r ≡ err (panic s)) × (after.stderr ≡ before.stderr)

error_eq : {a b : Error} → (◌≡◌ {A = Result String} (err a) (err b)) → a ≡ b
error_eq h = cc

printed-Shown :
    (text file : Option String) (t : Message) (x : Held) (prefix : Result String) (h : Host)
    → h.stderr ≡ x.host.stderr
    → IsPrefix text prefix
    → Shown false file text prefix
        (printed file t x (prefix, h)).0
        x.host
        (printed file t x (prefix, h)).1.host
unfolding printed
printed-Shown none file t x (ok s) h same nil = cc
printed-Shown none file t x (err e) h same nil = (ap err (error_eq nil), same)
printed-Shown (some text) file t x (err e) h same (s, bad) = cc
printed-Shown (some text) none t x (ok s) h same good =
    (record { line = s; printed = ap (λ e. e ++ s ∷ []) same }, refl)
printed-Shown (some text) (some name) t x (ok s) h same good = (
  record {
    line = concat s (concat " " t.intf);
    printed =
        rotate-stderr name _
        ∙ append_line-stderr name _ _
        ∙ ap (λ e. e ++ concat s (concat " " t.intf) ∷ []) same;
  },
  refl,
)

panicked-Shown :
    (text file : Option String) (t : Message) (x : Held) (prefix : Result String) (h : Host)
    → h.stderr ≡ x.host.stderr
    → IsPrefix text prefix
    → Shown true file text prefix
        (panicked file t x (prefix, h)).0
        x.host
        (panicked file t x (prefix, h)).1.host
unfolding panicked
panicked-Shown none file t x (ok s) h same nil = cc
panicked-Shown none file t x (err e) h same nil = (ap err (error_eq nil), same)
panicked-Shown (some text) file t x (err e) h same (s, bad) = cc
panicked-Shown (some text) none t x (ok s) h same good = (s, refl, refl, same)
panicked-Shown (some text) (some name) t x (ok s) h same good = (
  record {
    line = concat s (concat " " t.intf);
    printed = append_line-stderr name _ _ ∙ ap (λ e. e ++ concat s (concat " " t.intf) ∷ []) same;
  },
  refl,
)

-- The level that a method's line names.
abbrev pub own_level : Method → ℤ
own_level fatal_method = pos 0
own_level panic_method = pos 1
own_level error_method = pos 2
own_level warn_method = pos 3
own_level info_method = pos 4
own_level debug_method = pos 5
own_level trace_method = pos 6

abbrev pub IsShown : Method → Option String → Message → Seen → Type 0
IsShown m file t x =
    Shown (panics_of m) file t.error_text
      (get_prefix t.caller t.error_text (own_level m) x.world.host).0 (call_method m t x).0
      x.world.host (call_method m t x).1.world.host

module _ (t : Message) (x : Seen) (l : ModLogger) (e : x.logger ≡ some l) where
  guarded-runs :
      (least : ℤ) (body : Option String → Exec Held (Unit {0}))
      (R : Result (Unit {0}) → Host → Host → Type 0)
      → int_ltb x.world.level least ≡ false
      → (let y : Held = record { logger = l; host = x.world.host } in
          R (body l.log_file y).0 y.host (body l.log_file y).1.host)
      → R (guarded least body x).0 x.world.host (guarded least body x).1.world.host
  guarded-runs least body R loud runs = rw (e, loud) runs

  logged :
      (least level : ℤ)
      → int_ltb x.world.level least ≡ false
      → Shown false l.log_file t.error_text
          (get_prefix t.caller t.error_text level x.world.host).0
          (guarded least (log_line level t) x).0
          x.world.host
          (guarded least (log_line level t) x).1.world.host
  unfolding log_line
  logged least level loud =
      guarded-runs least (log_line level t)
        (Shown false l.log_file t.error_text
          (get_prefix t.caller t.error_text level x.world.host).0)
        loud
        (printed-Shown t.error_text l.log_file t (record { logger = l; host = x.world.host }) _ _
          (get_prefix-stderr t.caller t.error_text level x.world.host)
          (get_prefix-IsPrefix t.caller t.error_text level x.world.host))

  shown : (m : Method) → int_ltb x.world.level (least_level m) ≡ false → IsShown m l.log_file t x
  unfolding fatal panic_ error_ warn info debug trace panic_line
  shown fatal_method loud = logged (pos 0) (pos 0) loud
  shown panic_method loud =
      guarded-runs (pos 1) (panic_line (pos 1) t)
        (Shown true l.log_file t.error_text
          (get_prefix t.caller t.error_text (pos 1) x.world.host).0)
        loud
        (panicked-Shown t.error_text l.log_file t (record { logger = l; host = x.world.host }) _ _
          (get_prefix-stderr t.caller t.error_text (pos 1) x.world.host)
          (get_prefix-IsPrefix t.caller t.error_text (pos 1) x.world.host))
  shown error_method loud = logged (pos 2) (pos 2) loud
  shown warn_method loud = logged (pos 3) (pos 3) loud
  shown info_method loud = logged (pos 4) (pos 4) loud
  shown debug_method loud = logged (pos 4) (pos 5) loud
  shown trace_method loud = logged (pos 4) (pos 6) loud

-- A method of a logger writes nothing, and changes nothing, while the level is below its own: 0 for
-- Fatal, 1 for Panic, 2 for Error, 3 for Warn, and 4, Info's, for Info and for Debug and Trace alike.
-- From that level on it prints exactly one line on the standard error and returns; but Panic panics,
-- with the line that it has printed, or, of a logger without a file, with its prefix and nothing
-- printed; and every method panics on a nil error, with nothing printed.
pub call_method-IsShown :
    (m : Method) (t : Message) (x : Seen) (l : ModLogger)
    → x.logger ≡ some l
    → (int_ltb x.world.level (least_level m) ≡ true → call_method m t x ≡ (ok tt, x))
      × (int_ltb x.world.level (least_level m) ≡ false → IsShown m l.log_file t x)
call_method-IsShown m t x l e = (λ q. quiet m t x (inr q), λ loud. shown t x l e m loud)
