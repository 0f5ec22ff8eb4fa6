-- ===== src/Logger/Tests.antt =====
-- Concrete runs of the model of src/logger/logger.go.
use opentitan_provisioning.Base.{
  ◌≡◌, refl, List, String, Error, true, false, String_eq, [], ◌∷◌, none, some, ok, err, errorf,
}
use opentitan_provisioning.Base.Dict.{lookup, insert, delete}
use opentitan_provisioning.Base.Text.{concat}
use opentitan_provisioning.Base.Int.{ℤ, pos, int_ltb}
use opentitan_provisioning.Logger.{ModLogger, World, Seen, rotate}
use opentitan_provisioning.Logger.Files.{
  Host, create, seek_start, filled, stat_size, read_into, write_new, truncate, remove, close_file,
  open_truncated,
}
use opentitan_provisioning.Logger.Methods.{
  Message, new_logger, set_log_level, close, choose_level, with_file,
}
use opentitan_provisioning.Logger.Levels.{
  IsLevel, Reachable, call_method, debug_method, Reachable-IsLevel,
}
use opentitan_provisioning.Logger.Printed.{IsShown, least_level, call_method-IsShown}
use opentitan_provisioning.Logger.Closed.{IsReleased, close-IsReleased}

abbrev host : Host
host = record {
  files = ("log", 1 ∷ 2 ∷ []) ∷ ("other", 3 ∷ []) ∷ [];
  stderr = [];
  clock = 700000000000000;
  delay = 1;
  format = λ t. "20240101";
  dir_missing = λ n. false;
  read_max = 1024;
  outcome = λ c. none;
}

abbrev world : World
world = record { level = pos 4; host = host }

abbrev logger : ModLogger
logger = record { log_file = some "log"; create_time = 5; ref_count = pos 1 }

abbrev seen : Seen
seen = record { logger = some logger; world = world }

abbrev message : Message
message = record { error_text = some "failed"; intf = "[]"; caller = none }

-- An invalid level is refused, and the level is Info's afterwards.
reset :
    new_logger "log" (pos 7 ∷ []) (record world { level = pos 1 })
    ≡ (err (errorf "invalid log level, expected from 0 to 6"), world)
unfolding new_logger choose_level
reset = refl

-- The state of the run of SetLogLevel.
abbrev traced : World
traced = (set_log_level (pos 6) (record { level = pos 0; host = host })).1

Reachable-IsLevel_example :
    IsLevel traced.level
    × ((l : ℤ) → IsLevel l → set_log_level l traced ≡ (ok tt, record traced { level = l }))
    × ((l : ℤ) → (IsLevel l → ⊥) → (e : Error) × (set_log_level l traced ≡ (err e, traced)))
    × ((name : String) (l : ℤ) (ls : List ℤ)
        → (IsLevel l → ⊥)
        → (e : Error) × ((new_logger name (l ∷ ls) traced).0 ≡ err e))
Reachable-IsLevel_example =
    Reachable-IsLevel traced (Reachable.level_set (pos 6) (Reachable.start host))

call_method-IsShown_example :
    (int_ltb (pos 4) (least_level debug_method) ≡ true
      → call_method debug_method message seen ≡ (ok tt, seen))
    × (int_ltb (pos 4) (least_level debug_method) ≡ false
        → IsShown debug_method (some "log") message seen)
call_method-IsShown_example = call_method-IsShown debug_method message seen logger refl

-- A week later the two bytes are in the new file, and where the truncation fails they are in both.
rotated :
    (rotate "log" (record { logger = logger; host = host })).1.host.files
    ≡ ("log", []) ∷ ("other", 3 ∷ []) ∷ ("log_20240101", 1 ∷ 2 ∷ []) ∷ []
unfolding rotate create seek_start stat_size read_into filled write_new truncate lookup insert
    concat
rotated = refl

-- One Read of a single byte: the other byte is lost, and rotate returns no error.
lost : (rotate "log" (record { logger = logger; host = record host { read_max = 1 } })).0 ≡ ok tt
unfolding rotate create seek_start stat_size read_into filled write_new truncate lookup insert
    concat
lost = refl

lost_byte :
    (rotate "log" (record { logger = logger; host = record host { read_max = 1 } })).1.host.files
    ≡ ("log", []) ∷ ("other", 3 ∷ []) ∷ ("log_20240101", 1 ∷ 0 ∷ []) ∷ []
unfolding rotate create seek_start stat_size read_into filled write_new truncate lookup insert
    concat
lost_byte = refl

close-IsReleased_example :
    IsReleased "log" host.files (close seen).1.world.host.files
    × (close (close seen).1 ≡ (ok tt, (close seen).1))
unfolding close close_file stat_size remove lookup delete
close-IsReleased_example = close-IsReleased seen logger "log" refl refl refl refl

-- The other logger's two bytes are lost.
truncated : lookup "log" (new_logger "log" [] world).1.host.files ≡ some []
unfolding new_logger choose_level with_file open_truncated insert lookup
truncated = refl
