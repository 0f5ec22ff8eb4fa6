-- ===== src/Utils/Tests.antt =====
-- Concrete runs of the model of src/utils.
use opentitan_provisioning.Base.{◌≡◌, refl, false, true, [], ◌∷◌, ok}
use opentitan_provisioning.Base.Int.{negsuc, pos}
use opentitan_provisioning.Utils.{calc_xor_byte_arrays}
use opentitan_provisioning.Utils.Texts.{abs, num_to_str}

xor_run : calc_xor_byte_arrays (0x0f ∷ 0xff ∷ []) (0xf1 ∷ 0x0f ∷ []) ≡ ok (0xfe ∷ 0xf0 ∷ [])
unfolding calc_xor_byte_arrays opentitan_provisioning.Utils.Bits.xor
xor_run = refl

little_endian : num_to_str (0x12 ∷ 0xab ∷ []) false ≡ "21BA"
unfolding num_to_str
little_endian = refl

big_endian : num_to_str (0x12 ∷ 0xab ∷ []) true ≡ "12AB"
unfolding num_to_str
big_endian = refl

absolute : abs (negsuc 6) ≡ pos 7
unfolding abs
absolute = refl
