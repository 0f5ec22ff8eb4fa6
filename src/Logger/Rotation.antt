-- ===== src/Logger/Rotation.antt =====
-- What rotate of src/logger/logger.go does to the files, also where a call of the system fails.
use opentitan_provisioning.Base.{
  ◌≡◌, ◌≢◌, ◌⊎◌, String, String_eq, [], some, none, Result, ok, length, ◌≤◌, ◌∷◌,
}
use opentitan_provisioning.Base.Dict.{Dict, lookup}
use opentitan_provisioning.Proto.{Bytes}
use opentitan_provisioning.Logger.{Held}
use opentitan_provisioning.Logger.Files.{seeks}

tail : String → String
tail String.[] = String.[]
tail (String.◌∷◌ c s) = s

-- From `before` to `after`, only the file `name` and the file `old` may have changed: all that was in
-- `name` is in `old` and `name` is empty, or, where the result `r` is an error, it is where it was.
pub record NothingLost (name old : String) (before after : Dict String Bytes)
    (r : Result (Unit {0})) : Type 0 where
  pub others : (f : String) → f ≢ name → f ≢ old → lookup f after ≡ lookup f before
  pub kept :
      ((r ≢ ok tt) × (lookup name after ≡ lookup name before))
      ⊎ ((lookup name after ≡ some []) × (lookup old after ≡ lookup name before))

-- Seek finds the start of the file, and one Read can return all of it.
pub record IsRead (name : String) (x : Held) : Type 0 where
  pub seeks_start : x.host.outcome (seeks name) ≡ none
  pub fits : (b : Bytes) → lookup name x.host.files ≡ some b → length b ≤ x.host.read_max
