-- ===== src/Proto.antt =====
-- src/proto/device_id.proto and registry_record.proto as Go sees them, the validators of
-- src/proto/validators.go and the identifier text of src/proto/device_id_utils.go. A protobuf enum
-- is an open int32 in Go: its value here is the 32-bit pattern. Bytes are numbers below 256.
pub mod Validators
pub mod DeviceIdText
mod Tests
use opentitan_provisioning.Base.{ℕ, List, String}

abbrev pub Bytes : Type 0
Bytes = List ℕ

-- enum SiliconCreatorId
abbrev pub silicon_creator_id_opensource : ℕ
silicon_creator_id_opensource = 0x0001

abbrev pub silicon_creator_id_nuvoton : ℕ
silicon_creator_id_nuvoton = 0x4001

-- enum ProductId
abbrev pub product_id_earlgrey_z1 : ℕ
product_id_earlgrey_z1 = 0x0001

abbrev pub product_id_earlgrey_a1 : ℕ
product_id_earlgrey_a1 = 0x0002

-- A message that the source reaches through a pointer is always there: the panics of validators.go and
-- proxybuffer.go on a nil HardwareOrigin, DeviceId or Record are not in the model.
pub record HardwareOrigin : Type 0 where
  pub silicon_creator_id : ℕ
  pub product_id : ℕ
  pub device_identification_number : ℕ

pub record DeviceId : Type 0 where
  pub hardware_origin : HardwareOrigin
  pub sku_specific : Bytes

-- enum DeviceLifeCycle
abbrev pub device_life_cycle_raw : ℕ
device_life_cycle_raw = 1

abbrev pub device_life_cycle_test_locked : ℕ
device_life_cycle_test_locked = 2

abbrev pub device_life_cycle_test_unlocked : ℕ
device_life_cycle_test_unlocked = 3

abbrev pub device_life_cycle_dev : ℕ
device_life_cycle_dev = 4

abbrev pub device_life_cycle_prod : ℕ
device_life_cycle_prod = 5

abbrev pub device_life_cycle_prod_end : ℕ
device_life_cycle_prod_end = 6

abbrev pub device_life_cycle_rma : ℕ
device_life_cycle_rma = 7

abbrev pub device_life_cycle_scrap : ℕ
device_life_cycle_scrap = 8

-- The metadata and the firmware hash of a DeviceData are read by no code of the repository but the
-- protobuf encoder; `rest` stands for them.
pub record DeviceData : Type 0 where
  pub sku : String
  pub device_id : DeviceId
  pub device_life_cycle : ℕ
  pub wrapped_rma_unlock_token : Bytes
  pub perso_tlv_data : Bytes
  pub rest : Bytes

pub record RegistryRecord : Type 0 where
  pub device_id : String
  pub sku : String
  pub version : ℕ
  pub contents : Bytes
  pub auth_pubkey : Bytes
  pub auth_signature : Bytes
