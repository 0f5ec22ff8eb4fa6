-- ===== src/Proto/DeviceIdText/Injective.antt =====
-- The text of a device identifier determines it: what src/proto/device_id_utils.go keeps of it.
use Prim.Native.Char.{Char, code}
use native.Mathlib.Nat.{pow-suc}
use opentitan_provisioning.Base.{
  ℕ, zero, suc, ◌+◌, ◌-◌, ◌/◌, ◌%◌, ◌^◌, ◌<◌, ◌≡◌, refl, ap, sym, ◌∙◌, true, List, [], ◌∷◌, ◌++◌,
  arith, if◌then◌else◌, nat_eq, ltb, length, length-append, ok, All, all_below, all_below_sound,
  nat_eq_iff,
}
use opentitan_provisioning.Proto.{Bytes, HardwareOrigin, DeviceId}
use opentitan_provisioning.Proto.Validators.{
  validate_device_id, validate_device_id_iff, IsKnownDevice,
}
use opentitan_provisioning.Proto.DeviceIdText.{
  hex_char, hex, hex_bytes, of_chars, numeric_fields, device_id_chars, device_id_to_hex_string,
}

hex_value : Char → ℕ
hex_value c = if ltb (code c) 58 then code c - 48 else code c - 87

hex_value-table : all_below 16 (λ d. nat_eq (hex_value (hex_char d)) d) ≡ true
unfolding all_below hex_value hex_char
hex_value-table = refl

hex_value-hex_char : (d : ℕ) → d < 16 → hex_value (hex_char d) ≡ d
hex_value-hex_char d h = (nat_eq_iff _ d).0 (all_below_sound 16 _ d hex_value-table h)

hex_char-injective : (m n : ℕ) → m < 16 → n < 16 → hex_char m ≡ hex_char n → m ≡ n
hex_char-injective m n h k e =
    sym (hex_value-hex_char m h) ∙ ap hex_value e ∙ hex_value-hex_char n k

hex-length : (k n : ℕ) → length (hex k n) ≡ k
unfolding hex
hex-length zero n = refl
hex-length (suc k) n =
    omega (arith, hex-length k (n / 16), length-append (hex k (n / 16)) (hex_char (n % 16) ∷ []))

hex_width : (k m n : ℕ) → length (hex k m) ≡ length (hex k n)
hex_width k m n = hex-length k m ∙ sym (hex-length k n)

append_inj {ℓ} :
    {A : Type ℓ} (xs ys us vs : List A)
    → length xs ≡ length ys
    → xs ++ us ≡ ys ++ vs
    → (xs ≡ ys) × (us ≡ vs)
append_inj [] [] us vs h e = (refl, e)
append_inj [] (y ∷ ys) us vs h e = absurd (omega arith)
append_inj (x ∷ xs) [] us vs h e = absurd (omega arith)
append_inj (x ∷ xs) (y ∷ ys) us vs h e =
    let (same, rest) = append_inj xs ys us vs (omega arith) (cc) in (cc, rest)

hex-injective : (k m n : ℕ) → m < 16 ^ k → n < 16 ^ k → hex k m ≡ hex k n → m ≡ n
unfolding hex
hex-injective zero m n h l e = omega arith
hex-injective (suc k) m n h l e =
    let (high, low) =
      append_inj (hex k (m / 16)) (hex k (n / 16)) _ _ (hex_width k (m / 16) (n / 16)) e in
    let same_low : m % 16 ≡ n % 16 =
      hex_char-injective (m % 16) (n % 16) (omega arith) (omega arith) (cc) in
    let same_high : m / 16 ≡ n / 16 =
      hex-injective k (m / 16) (n / 16) (omega (arith, pow-suc 16 k)) (omega (arith, pow-suc 16 k))
        high in
    omega arith

hex_bytes-length : (bs : Bytes) → length (hex_bytes bs) ≡ length bs + length bs
unfolding hex_bytes
hex_bytes-length [] = refl
hex_bytes-length (b ∷ bs) =
    omega (arith, length-append (hex 2 b) (hex_bytes bs), hex-length 2 b, hex_bytes-length bs)

hex_bytes-injective :
    (bs cs : Bytes)
    → All (λ b. b < 256) bs
    → All (λ b. b < 256) cs
    → hex_bytes bs ≡ hex_bytes cs
    → bs ≡ cs
unfolding hex_bytes
hex_bytes-injective [] [] h k e = refl
hex_bytes-injective [] (c ∷ cs) h k e =
    absurd (omega (arith, hex_bytes-length (c ∷ cs), ap length e))
hex_bytes-injective (b ∷ bs) [] h k e =
    absurd (omega (arith, hex_bytes-length (b ∷ bs), ap length e))
hex_bytes-injective (b ∷ bs) (c ∷ cs) h k e =
    let (first, rest) = append_inj (hex 2 b) (hex 2 c) _ _ (hex_width 2 b c) e in
    cc (hex-injective 2 b c h.0 k.0 first, hex_bytes-injective bs cs h.1 k.1 rest)

of_chars-injective : (xs ys : List Char) → of_chars xs ≡ of_chars ys → xs ≡ ys
unfolding of_chars
of_chars-injective [] [] e = refl
of_chars-injective [] (y ∷ ys) e = cc
of_chars-injective (x ∷ xs) [] e = cc
of_chars-injective (x ∷ xs) (y ∷ ys) e = cc (of_chars-injective xs ys (cc))

-- What the text of a device identifier keeps of it.
pub record SameIdentity (a b : DeviceId) : Type 0 where
  pub sku_specific : a.sku_specific ≡ b.sku_specific
  pub number :
      a.hardware_origin.device_identification_number
      ≡ b.hardware_origin.device_identification_number
  pub product : a.hardware_origin.product_id % 65536 ≡ b.hardware_origin.product_id % 65536
  pub creator :
      a.hardware_origin.silicon_creator_id % 65536 ≡ b.hardware_origin.silicon_creator_id % 65536

-- The identifiers that a protobuf message can hold: bytes below 256 and a 64-bit number.
pub record IsMessage (a : DeviceId) : Type 0 where
  pub bytes : All (λ b. b < 256) a.sku_specific
  pub number : a.hardware_origin.device_identification_number < 2 ^ 64

numeric_fields-length : (ho : HardwareOrigin) → length (numeric_fields ho) ≡ 40
unfolding numeric_fields
numeric_fields-length ho = omega (arith, length-append {0}, hex-length)

-- Equal texts have equal parts, since the numeric fields have a fixed width.
device_id_chars_parts :
    (a b : DeviceId)
    → device_id_chars a ≡ device_id_chars b
    → (hex_bytes a.sku_specific ≡ hex_bytes b.sku_specific)
      × (numeric_fields a.hardware_origin ≡ numeric_fields b.hardware_origin)
unfolding device_id_chars
device_id_chars_parts a b e =
    append_inj (hex_bytes a.sku_specific) (hex_bytes b.sku_specific) _ _
      (omega (
        arith,
        ap length e,
        length-append (hex_bytes a.sku_specific) (numeric_fields a.hardware_origin),
        length-append (hex_bytes b.sku_specific) (numeric_fields b.hardware_origin),
        numeric_fields-length a.hardware_origin,
        numeric_fields-length b.hardware_origin,
      ))
      (cc)

numeric_fields_parts :
    (a b : HardwareOrigin)
    → numeric_fields a ≡ numeric_fields b
    → (hex 16 a.device_identification_number ≡ hex 16 b.device_identification_number)
      × (hex 8 (a.product_id % 2 ^ 16) ≡ hex 8 (b.product_id % 2 ^ 16))
      × (hex 8 (a.silicon_creator_id % 2 ^ 16) ≡ hex 8 (b.silicon_creator_id % 2 ^ 16))
unfolding numeric_fields
numeric_fields_parts a b e =
    let (_, rest) = append_inj (hex 8 0) (hex 8 0) _ _ refl e in
    let (number, ids) =
      append_inj (hex 16 a.device_identification_number) (hex 16 b.device_identification_number) _ _
        (hex_width 16 a.device_identification_number b.device_identification_number) rest in
    let (product, creator) =
      append_inj (hex 8 (a.product_id % 2 ^ 16)) (hex 8 (b.product_id % 2 ^ 16)) _ _
        (hex_width 8 (a.product_id % 2 ^ 16) (b.product_id % 2 ^ 16)) ids in
    (number, product, creator)

low_bound : (n : ℕ) → n % 2 ^ 16 < 16 ^ 8
low_bound n = omega arith

-- Two device identifiers, within the ranges of their messages' fields, with the same text have the
-- same SKU-specific bytes, the same 64-bit number, and product and silicon creator that agree in
-- their low 16 bits.
pub device_id_to_hex_string-SameIdentity :
    (a b : DeviceId)
    → IsMessage a
    → IsMessage b
    → device_id_to_hex_string a ≡ device_id_to_hex_string b
    → SameIdentity a b
unfolding device_id_to_hex_string
device_id_to_hex_string-SameIdentity a b ha hb e =
    let (bytes, fields) = device_id_chars_parts a b (of_chars-injective _ _ e) in
    let (number, product, creator) =
      numeric_fields_parts a.hardware_origin b.hardware_origin fields in
    record {
      sku_specific = hex_bytes-injective _ _ ha.bytes hb.bytes bytes;
      number = hex-injective 16 _ _ ha.number hb.number number;
      product =
          hex-injective 8 _ _ (low_bound a.hardware_origin.product_id)
            (low_bound b.hardware_origin.product_id) product;
      creator =
          hex-injective 8 _ _ (low_bound a.hardware_origin.silicon_creator_id)
            (low_bound b.hardware_origin.silicon_creator_id) creator;
    }

small_equal : (m n : ℕ) → m < 65536 → n < 65536 → m % 65536 ≡ n % 65536 → m ≡ n
small_equal m n h k e = omega arith

known_creator : (a : DeviceId) → IsKnownDevice a → a.hardware_origin.silicon_creator_id < 65536
known_creator a k = omega (arith, k.creator)

known_product : (a : DeviceId) → IsKnownDevice a → a.hardware_origin.product_id < 65536
known_product a k = omega (arith, k.product)

-- Two valid device identifiers with the same registry text are the same identifier: no two
-- devices that pass ValidateDeviceId share a key in the registry.
valid_device_id-injective :
    (a b : DeviceId)
    → IsMessage a
    → IsMessage b
    → validate_device_id a ≡ ok tt
    → validate_device_id b ≡ ok tt
    → device_id_to_hex_string a ≡ device_id_to_hex_string b
    → a ≡ b
valid_device_id-injective a b ha hb va vb e =
    let same : SameIdentity a b = device_id_to_hex_string-SameIdentity a b ha hb e in
    let ka : IsKnownDevice a = (validate_device_id_iff a).0 va in
    let kb : IsKnownDevice b = (validate_device_id_iff b).0 vb in
    λ i. record {
      hardware_origin = record {
        silicon_creator_id =
            small_equal _ _ (known_creator a ka) (known_creator b kb) same.creator i;
        product_id = small_equal _ _ (known_product a ka) (known_product b kb) same.product i;
        device_identification_number = same.number i;
      };
      sku_specific = same.sku_specific i;
    }
