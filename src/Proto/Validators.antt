-- ===== src/Proto/Validators.antt =====
-- src/proto/validators.go: what a device identifier and a device record must satisfy beyond the
-- protobuf syntax.
use opentitan_provisioning.Base.{
  ℕ, ◌%◌, ◌^◌, ◌≤◌, ◌≡◌, ◌↔◌, ◌⊎◌, not, ◌&&◌, ◌||◌, Result, ok, err, errorf, ◌>>◌, arith,
  if◌then◌else◌, nat_eq, ltb, length,
}
use opentitan_provisioning.Proto.{
  HardwareOrigin, DeviceId, DeviceData, silicon_creator_id_opensource, silicon_creator_id_nuvoton,
  product_id_earlgrey_z1, product_id_earlgrey_a1, device_life_cycle_raw,
  device_life_cycle_test_locked, device_life_cycle_test_unlocked, device_life_cycle_dev,
  device_life_cycle_prod, device_life_cycle_prod_end, device_life_cycle_rma,
  device_life_cycle_scrap,
}

abbrev pub device_id_sku_specific_len_in_bytes : ℕ
device_id_sku_specific_len_in_bytes = 16

abbrev pub wrapped_rma_token_len_in_bytes : ℕ
wrapped_rma_token_len_in_bytes = 27

abbrev pub max_perso_tlv_data_len_in_bytes : ℕ
max_perso_tlv_data_len_in_bytes = 8192

-- val != uint32(uint16(val))
pub validate16_bits : ℕ → Result (Unit {0})
validate16_bits val =
    if not (nat_eq val (val % 2 ^ 16)) then err (errorf "Value outside 16-bit range") else ok tt

pub validate_silicon_creator_id : ℕ → Result (Unit {0})
unfolding validate16_bits
validate_silicon_creator_id sc = do
  validate16_bits sc
  if nat_eq sc silicon_creator_id_opensource || nat_eq sc silicon_creator_id_nuvoton
      then ok tt
      else err (errorf "Invalid SiliconCreatorId")

pub validate_product_id : ℕ → Result (Unit {0})
unfolding validate16_bits
validate_product_id pi = do
  validate16_bits pi
  if nat_eq pi product_id_earlgrey_z1 || nat_eq pi product_id_earlgrey_a1
      then ok tt
      else err (errorf "Invalid ProductId")

pub validate_hardware_origin : HardwareOrigin → Result (Unit {0})
unfolding validate_silicon_creator_id validate_product_id
validate_hardware_origin ho = do
  validate_silicon_creator_id ho.silicon_creator_id
  validate_product_id ho.product_id
  ok tt

unfoldable pub validate_device_id : DeviceId → Result (Unit {0})
unfolding validate_hardware_origin
validate_device_id di = do
  validate_hardware_origin di.hardware_origin
  if not (nat_eq (length di.sku_specific) 0)
        && not (nat_eq (length di.sku_specific) device_id_sku_specific_len_in_bytes)
      then err (errorf "Invalid SkuSpecific string length")
      else ok tt

pub validate_device_life_cycle : ℕ → Result (Unit {0})
validate_device_life_cycle lc =
    if nat_eq lc device_life_cycle_raw
      || nat_eq lc device_life_cycle_test_locked
      || nat_eq lc device_life_cycle_test_unlocked
      || nat_eq lc device_life_cycle_dev
      || nat_eq lc device_life_cycle_prod
      || nat_eq lc device_life_cycle_prod_end
      || nat_eq lc device_life_cycle_rma
      || nat_eq lc device_life_cycle_scrap
    then ok tt
    else err (errorf "Invalid DeviceLifeCycle")

unfoldable pub validate_device_data : DeviceData → Result (Unit {0})
unfolding validate_device_life_cycle
validate_device_data dd =
    if ltb wrapped_rma_token_len_in_bytes (length dd.wrapped_rma_unlock_token)
    then err (errorf "Invalid Wrapped RMA Unlock Token length")
    else if ltb max_perso_tlv_data_len_in_bytes (length dd.perso_tlv_data)
    then err (errorf "Invalid Perso TLV Data length")
    else validate_device_life_cycle dd.device_life_cycle

-- The identifiers that the provisioning flow knows, independently of the order of the checks.
pub record IsKnownDevice (di : DeviceId) : Type 0 where
  pub creator :
      (di.hardware_origin.silicon_creator_id ≡ 0x0001)
      ⊎ (di.hardware_origin.silicon_creator_id ≡ 0x4001)
  pub product : (di.hardware_origin.product_id ≡ 1) ⊎ (di.hardware_origin.product_id ≡ 2)
  pub sku : (length di.sku_specific ≡ 0) ⊎ (length di.sku_specific ≡ 16)

-- ValidateDeviceId accepts a device identifier exactly when its silicon creator is OpenSource or
-- Nuvoton, its product is Earlgrey Z1 or A1, and its SKU-specific field has 0 or 16 bytes.
pub validate_device_id_iff : (di : DeviceId) → (validate_device_id di ≡ ok tt) ↔ IsKnownDevice di
unfolding validate_device_id
validate_device_id_iff di = (
  λ h. record { creator = ground arith; product = ground arith; sku = ground arith },
  λ k. ground arith,
)

-- ValidateDeviceData accepts exactly the records whose wrapped token has at most 27 bytes, whose
-- personalization data has at most 8192 bytes, and whose life cycle state is one of 1 to 8.
pub validate_device_data_iff :
    (dd : DeviceData)
    → (validate_device_data dd ≡ ok tt) ↔ (
        (length dd.wrapped_rma_unlock_token ≤ 27)
        × (length dd.perso_tlv_data ≤ 8192)
        × (1 ≤ dd.device_life_cycle)
        × (dd.device_life_cycle ≤ 8))
unfolding validate_device_data
validate_device_data_iff dd = ground arith
