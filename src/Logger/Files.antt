-- ===== src/Logger/Files.antt =====
-- What src/logger/logger.go calls of the operating system and of Go's os, time and log packages.
use opentitan_provisioning.Base.{
  ℕ, ◌+◌, Bool, String, String_eq, List, [], ◌∷◌, ◌++◌, Option, none, some, Result, ok, err, errorf,
  length, take, drop, replicate, ◌-◌,
}
use opentitan_provisioning.Base.Exec.{Exec}
use opentitan_provisioning.Base.Dict.{Dict, lookup, insert, delete}
use opentitan_provisioning.Base.Text.{bytes_of}
use opentitan_provisioning.Proto.{Bytes}

-- The calls that may fail.
pub data Call : Type 0 where
  creates opens seeks stats reads writes truncates removes closes : String → Call

-- `outcome` is `none` where a call succeeds; a write that fails may have written some bytes, and after
-- a Seek that fails the file is at the place that the number gives. One Read returns at most `read_max`
-- bytes. Between two readings of the clock some time passes. `dir_missing` tells of the directory of a name.
pub record Host : Type 0 where
  pub files : Dict String Bytes
  pub stderr : List String
  pub clock : ℕ
  pub delay : ℕ
  pub format : ℕ → String
  pub dir_missing : String → Bool
  pub read_max : ℕ
  pub outcome : Call → Option ℕ

-- time.Now
abbrev pub now : Host → ℕ × Host
now h = (h.clock, record h { clock = h.clock + h.delay })

abbrev failed : {A : Type 0} → Result A
failed = err (errorf "the system call failed")

-- A call that succeeds changes the files.
abbrev attempted : Option ℕ → Dict String Bytes → Exec Host (Unit {0})
attempted none files h = (ok tt, record h { files = files })
attempted (some _) files h = (failed, h)

-- os.Create
unfoldable pub create : String → Exec Host (Unit {0})
create name h = attempted (h.outcome (creates name)) (insert name [] h.files) h

-- os.OpenFile with O_APPEND, O_CREATE, O_RDWR and O_TRUNC
unfoldable pub open_truncated : String → Exec Host (Unit {0})
open_truncated name h = attempted (h.outcome (opens name)) (insert name [] h.files) h

-- os.Truncate(name, 0), which creates no file.
unfoldable pub truncate : String → Exec Host (Unit {0})
truncate name h = elim (lookup name h.files) [
  | none ↦ (failed, h)
  | some _ ↦ attempted (h.outcome (truncates name)) (insert name [] h.files) h
]

-- os.Remove
unfoldable pub remove : String → Exec Host (Unit {0})
remove name h = elim (lookup name h.files) [
  | none ↦ (failed, h)
  | some _ ↦ attempted (h.outcome (removes name)) (delete name h.files) h
]

-- os.Stat, of which the size is read.
unfoldable pub stat_size : String → Exec Host ℕ
stat_size name h = elim (lookup name h.files) [
  | none ↦ (failed, h)
  | some b ↦ elim (h.outcome (stats name)) [ none ↦ (ok (length b), h) | some _ ↦ (failed, h) ]
]

-- (*os.File).Seek to the start: where the file is after it. The error is for the caller to read.
unfoldable pub seek_start : String → Exec Host ℕ
seek_start name h = elim (h.outcome (seeks name)) [ none ↦ (ok 0, h) | some at ↦ (ok at, h) ]

-- The buffer of `size` zeros after the bytes `got` were read into it.
unfoldable pub filled : ℕ → Bytes → Bytes
filled size got = got ++ replicate (size - length got) 0

-- One (*os.File).Read from the place `from` into a new buffer; the end of the file is no error, and how
-- many bytes were read is not looked at.
unfoldable pub read_into : String → ℕ → ℕ → Exec Host Bytes
unfolding filled
read_into name from size h = elim (lookup name h.files) [
  | none ↦ (failed, h)
  | some b ↦ elim (h.outcome (reads name)) [
    | none ↦ (ok (filled size (take h.read_max (take size (drop from b)))), h)
    | some _ ↦ (failed, h)
  ]
]

-- Write to a file that was created just before.
unfoldable pub write_new : String → Bytes → Exec Host (Unit {0})
write_new name b h = elim (h.outcome (writes name)) [
  | none ↦ (ok tt, record h { files = insert name b h.files })
  | some n ↦ (failed, record h { files = insert name (take n b) h.files })
]

-- (*os.File).Close
unfoldable pub close_file : String → Exec Host (Unit {0})
close_file name h = attempted (h.outcome (closes name)) h.files h

-- A line for the standard error.
abbrev pub print_line : String → Host → Host
print_line s h = record h { stderr = h.stderr ++ s ∷ [] }

-- Write of a file opened with O_APPEND; after the file was removed nobody sees what is written.
abbrev grown : Option ℕ → Bytes → Bytes → Bytes
grown none old b = old ++ b
grown (some n) old b = old ++ take n b

unfoldable pub append_line : String → String → Host → Host
append_line name s h = elim (lookup name h.files) [
  | none ↦ h
  | some old ↦ record h {
    files = insert name (grown (h.outcome (writes name)) old (bytes_of s)) h.files;
  }
]
