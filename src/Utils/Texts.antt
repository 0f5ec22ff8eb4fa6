-- ===== src/Utils/Texts.antt =====
-- The texts, the numbers and the written files of src/utils/utils.go.
use Prim.Native.Char.{Char}
use opentitan_provisioning.Base.{
  ℕ, suc, ◌+◌, ◌*◌, ◌/◌, ◌%◌, ◌^◌, ◌<◌, ◌≡◌, ◌↔◌, refl, arith, Bool, true, false, String, [], ◌∷◌,
  map, Result, ok, err, errorf, if◌then◌else◌, ltb, nat_eq, All, Bool-cases, inl, inr,
}
use opentitan_provisioning.Base.Exec.{Exec, ◌>>=◌, ◌>>◌, or_raise, lift}
use opentitan_provisioning.Base.Text.{concat}
use opentitan_provisioning.Base.Int.{ℤ, pos, negsuc, itoa}
use opentitan_provisioning.Proto.{Bytes}
use opentitan_provisioning.Utils.{Os, read_file}

-- Abs of a 64-bit int: the least one has no positive counterpart, and -x is x.
unfoldable pub abs : ℤ → ℤ
abs (pos n) = pos n
abs (negsuc n) = if nat_eq (suc n) (2 ^ 63) then negsuc n else pos (suc n)

-- BytesToStr
unfoldable pub bytes_to_str : Bytes → String → String
bytes_to_str [] delimiter = ""
bytes_to_str (v ∷ []) delimiter = itoa v
bytes_to_str (v ∷ w ∷ rest) delimiter =
    concat (itoa v) (concat delimiter (bytes_to_str (w ∷ rest) delimiter))

-- `%X` of a number below 16
unfoldable pub upper_hex : ℕ → Char
upper_hex d =
    if ltb d 8
    then (if nat_eq d 0
        then "0"
        else if nat_eq d 1
        then "1"
        else if nat_eq d 2
        then "2"
        else if nat_eq d 3
        then "3"
        else if nat_eq d 4
        then "4"
        else if nat_eq d 5
        then "5"
        else if nat_eq d 6
        then "6"
        else "7")
    else if nat_eq d 8
    then "8"
    else if nat_eq d 9
    then "9"
    else if nat_eq d 10
    then "A"
    else if nat_eq d 11
    then "B"
    else if nat_eq d 12
    then "C"
    else if nat_eq d 13
    then "D"
    else if nat_eq d 14
    then "E"
    else "F"

-- NumToStr: val >> 4 and val & 0x0F
unfoldable pub num_to_str : Bytes → Bool → String
unfolding upper_hex
num_to_str [] is_big_endian = ""
num_to_str (val ∷ rest) is_big_endian =
    let high = upper_hex (val / 16) in
    let low = upper_hex (val % 16) in
    let later = num_to_str rest is_big_endian in
    if is_big_endian
    then String.◌∷◌ high (String.◌∷◌ low later)
    else String.◌∷◌ low (String.◌∷◌ high later)

-- The calls of a file that is written, and of crypto/rand.
pub record Writer (H : Type 0) : Type 0 where
  pub open_append : String → Exec H (Unit {0})
  pub write : String → Bytes → Exec H (Unit {0})
  pub close : String → Exec H (Unit {0})
  pub rand_read : ℕ → Exec H Bytes

module _ {H : Type 0} (os : Os H) (writer : Writer H) where
  -- `if err1 := f.Close(); err1 != nil && err == nil { err = err1 }`
  unfoldable pub first_error : Result (Unit {0}) → Result (Unit {0}) → Result (Unit {0})
  first_error (ok _) closed = closed
  first_error (err e) closed = err e

  unfoldable pub write_and_close : String → Bytes → Exec H (Unit {0})
  unfolding first_error
  write_and_close name data_ h =
      let written = writer.write name data_ h in
      let closed = writer.close name written.1 in (first_error written.0 closed.0, closed.1)

  unfoldable pub write_file : String → Bytes → Exec H (Unit {0})
  unfolding write_and_close
  write_file name data_ = writer.open_append name >> write_and_close name data_

  unfoldable pub write_file_to_dir : String → String → Bytes → Exec H (Unit {0})
  unfolding write_file
  write_file_to_dir config_dir filename data_ =
      or_raise (write_file (os.join config_dir filename) data_)
        (errorf "failed to write data to path")

  unfoldable pub generate_random : ℕ → Exec H Bytes
  generate_random length = or_raise (writer.rand_read length) (errorf "fail to generate data")

  -- The JSON decoder is that of the wanted type.
  unfoldable pub load_json_config : {A : Type 0} → (Bytes → Result A) → String → Exec H A
  load_json_config unmarshal config_path = do
    data_ ← or_raise (read_file os config_path) (errorf "failed to load configuration file")
    or_raise (lift (unmarshal data_)) (errorf "failed to unmarshal configuration file")

-- The two halves of a byte exchanged.
abbrev pub swapped : ℕ → ℕ
swapped b = b % 16 * 16 + b / 16

-- NumToStr for the little-endian order writes the digits of each byte in the wrong order: it is the
-- big-endian text of the bytes with their halves exchanged, not that of the bytes in reverse.
pub num_to_str-swapped :
    (bs : Bytes) → All (λ b. b < 256) bs → num_to_str bs false ≡ num_to_str (map swapped bs) true
unfolding num_to_str
num_to_str-swapped [] h = refl
num_to_str-swapped (b ∷ bs) (small, rest) =
    let high : swapped b / 16 ≡ b % 16 = omega (arith, small) in
    let low : swapped b % 16 ≡ b / 16 = omega (arith, small) in
    rw (high, low, num_to_str-swapped bs rest) refl

-- Abs returns no negative number but for the least int, which it returns as it is.
pub abs-negative_iff :
    (x : ℤ) (n : ℕ) → n < 2 ^ 63 → (abs x ≡ negsuc n) ↔ ((x ≡ negsuc n) × (suc n ≡ 2 ^ 63))
unfolding abs
abs-negative_iff (pos m) n h = (λ e. cc, λ e. cc)
abs-negative_iff (negsuc m) n h = elim (Bool-cases (nat_eq (suc m) (2 ^ 63))) [
  | inl least ↦ (λ e. ground (arith, least, e), λ e. ground (arith, least, e))
  | inr other ↦ (λ e. absurd (ground (arith, other, e)), λ e. absurd (ground (arith, other, e)))
]
