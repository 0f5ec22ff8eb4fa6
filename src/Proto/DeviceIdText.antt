-- ===== src/Proto/DeviceIdText.antt =====
-- src/proto/device_id_utils.go: the text of a device identifier, which is its key in the registry.
-- `%x` writes a byte string as two lower-case digits a byte, `%08x` pads a number to 8 digits.
pub mod Injective
use Prim.Native.Char.{Char, code}
use native.Mathlib.Nat.{pow-suc}
use opentitan_provisioning.Base.{
  ℕ, zero, suc, ◌+◌, ◌-◌, ◌/◌, ◌%◌, ◌^◌, ◌<◌, ◌≡◌, refl, ap, sym, ◌∙◌, true, List, [], ◌∷◌, ◌++◌,
  String, arith, if◌then◌else◌, nat_eq, ltb, length, length-append, ok, All, all_below,
  all_below_sound, nat_eq_iff,
}
use opentitan_provisioning.Proto.{Bytes, HardwareOrigin, DeviceId}
use opentitan_provisioning.Proto.Validators.{
  validate_device_id, validate_device_id_iff, IsKnownDevice,
}

-- The digits of fmt's `%x`.
pub hex_char : ℕ → Char
hex_char d =
    if nat_eq d 0
    then "0"
    else if nat_eq d 1
    then "1"
    else if nat_eq d 2
    then "2"
    else if nat_eq d 3
    then "3"
    else if nat_eq d 4
    then "4"
    else if nat_eq d 5
    then "5"
    else if nat_eq d 6
    then "6"
    else if nat_eq d 7
    then "7"
    else if nat_eq d 8
    then "8"
    else if nat_eq d 9
    then "9"
    else if nat_eq d 10
    then "a"
    else if nat_eq d 11
    then "b"
    else if nat_eq d 12
    then "c"
    else if nat_eq d 13
    then "d"
    else if nat_eq d 14
    then "e"
    else "f"

-- `%0kx` of a number below 16^k: k digits, the most significant first.
pub hex : ℕ → ℕ → List Char
unfolding hex_char
hex zero n = []
hex (suc k) n = hex k (n / 16) ++ (hex_char (n % 16) ∷ [])

-- `%x` of a byte string.
pub hex_bytes : Bytes → List Char
unfolding hex
hex_bytes [] = []
hex_bytes (b ∷ bs) = hex 2 b ++ hex_bytes bs

pub of_chars : List Char → String
of_chars [] = String.[]
of_chars (c ∷ cs) = String.◌∷◌ c (of_chars cs)

abbrev reserved_device_id_field : ℕ
reserved_device_id_field = 0

-- The numeric fields, of fixed width: %08x%016x%08x%08x.
pub numeric_fields : HardwareOrigin → List Char
unfolding hex
numeric_fields ho =
    hex 8 reserved_device_id_field
    ++ (hex 16 ho.device_identification_number
        ++ (hex 8 (ho.product_id % 2 ^ 16) ++ hex 8 (ho.silicon_creator_id % 2 ^ 16)))

pub device_id_chars : DeviceId → List Char
unfolding hex_bytes numeric_fields
device_id_chars di = "0" ∷ "x" ∷ (hex_bytes di.sku_specific ++ numeric_fields di.hardware_origin)

unfoldable pub device_id_to_hex_string : DeviceId → String
unfolding device_id_chars of_chars
device_id_to_hex_string di = of_chars (device_id_chars di)
