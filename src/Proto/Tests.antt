-- ===== src/Proto/Tests.antt =====
-- Concrete runs of the models of src/proto.
use opentitan_provisioning.Base.{◌≡◌, ◌↔◌, refl, arith, [], ◌∷◌, ok}
use opentitan_provisioning.Proto.{DeviceId, DeviceData}
use opentitan_provisioning.Proto.Validators.{
  validate_device_id, IsKnownDevice, validate_device_id_iff,
}
use opentitan_provisioning.Proto.DeviceIdText.{device_id_to_hex_string}
use opentitan_provisioning.Proto.DeviceIdText.Injective.{
  SameIdentity, IsMessage, device_id_to_hex_string-SameIdentity,
}

abbrev earlgrey : DeviceId
earlgrey = record {
  hardware_origin = record {
    silicon_creator_id = 0x4001;
    product_id = 2;
    device_identification_number = 0xbeef;
  };
  sku_specific = [];
}

-- The same device, seen by a client that writes the product in the upper bits too.
abbrev odd_product : DeviceId
odd_product = record {
  hardware_origin = record {
    silicon_creator_id = 0x4001;
    product_id = 0x10002;
    device_identification_number = 0xbeef;
  };
  sku_specific = [];
}

abbrev device_data : DeviceData
device_data = record {
  sku = "sival";
  device_id = earlgrey;
  device_life_cycle = 5;
  wrapped_rma_unlock_token = 1 ∷ [];
  perso_tlv_data = [];
  rest = [];
}

earlgrey_text : device_id_to_hex_string earlgrey ≡ "0x00000000000000000000beef0000000200004001"
unfolding device_id_to_hex_string
earlgrey_text = refl

same_text : device_id_to_hex_string earlgrey ≡ device_id_to_hex_string odd_product
unfolding device_id_to_hex_string
same_text = refl

earlgrey-IsMessage : IsMessage earlgrey
earlgrey-IsMessage = record { bytes = tt; number = omega arith }

odd_product-IsMessage : IsMessage odd_product
odd_product-IsMessage = record { bytes = tt; number = omega arith }

earlgrey_valid : validate_device_id earlgrey ≡ ok tt
unfolding validate_device_id
earlgrey_valid = refl

device_id_to_hex_string-SameIdentity_example : SameIdentity earlgrey odd_product
device_id_to_hex_string-SameIdentity_example =
    device_id_to_hex_string-SameIdentity earlgrey odd_product earlgrey-IsMessage
      odd_product-IsMessage same_text

validate_device_id_iff_example : (validate_device_id earlgrey ≡ ok tt) ↔ IsKnownDevice earlgrey
validate_device_id_iff_example = validate_device_id_iff earlgrey
