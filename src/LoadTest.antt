-- ===== src/LoadTest.antt =====
-- src/pa/loadtest.go: the load test of the provisioning appliance. The appliance behind gRPC, the
-- random numbers and the credentials are the parameter `Service`, on a state `W` of the world.
pub mod Run
pub mod Conserved
pub mod Progress
pub mod Verdict
pub mod Program
pub mod Passed
pub mod Schedule
pub mod Accepted
pub mod OnAppliance
mod Tests
use Prim.Native.Char.{Char}
use opentitan_provisioning.Base.{
  ℕ, zero, suc, ◌/◌, ◌%◌, Bool, false, true, String, List, [], ◌∷◌, Option, none, some, Error,
  Result, ok, err, if◌then◌else◌, ltb, replicate,
}
use opentitan_provisioning.Base.Exec.{Exec, ◌>>=◌, ◌>>◌, pure}
use opentitan_provisioning.Proto.{
  Bytes, DeviceData, silicon_creator_id_opensource, product_id_earlgrey_z1, device_life_cycle_prod,
}
use opentitan_provisioning.Base.Int.{itoa}
use opentitan_provisioning.Auth.Interceptor.{Metadata}
use opentitan_provisioning.Spm.Messages.{
  InitSessionRequest, InitSessionResponse, EndorseCertsRequest, EndorseCertsResponse,
  DeriveTokensRequest, DeriveTokensResponse, RegistrationRequest, TokenParams,
  token_seed_low_security, token_seed_high_security, token_seed_keygen, token_type_raw,
  token_type_hashed_ot_lc_token, token_size_128_bits, token_size_256_bits, ecdsa_params,
  hash_type_sha256,
}

abbrev pub max_buffered_call_results : ℕ
max_buffered_call_results = 100000

-- src/proto/device_testdata
abbrev pub sku_specific_len : ℕ
sku_specific_len = 16

abbrev pub wrapped_rma_token_len : ℕ
wrapped_rma_token_len = 27

abbrev pub max_perso_tlv_data_len : ℕ
max_perso_tlv_data_len = 8192

-- pbp.ProvisioningApplianceServiceClient with the connection to it, and math/rand.
pub record Service (W : Type 0) : Type 0 where
  pub load_client_credentials : Exec W (Unit {0})
  pub dial : Exec W (Unit {0})
  pub init_session : Metadata → InitSessionRequest → Exec W InitSessionResponse
  pub derive_tokens : Metadata → DeriveTokensRequest → Exec W DeriveTokensResponse
  pub endorse_certs : Metadata → EndorseCertsRequest → Exec W EndorseCertsResponse
  pub register_device : Metadata → RegistrationRequest → Exec W (Unit {0})
  pub rand_uint64 : W → ℕ × W

-- type clientTask, without the channel and the delay, which are the same for all.
pub record ClientTask : Type 0 where
  pub id : ℕ
  pub auth_token : String

pub record CallResult : Type 0 where
  pub id : ℕ
  pub error : Option Error

-- The flags that the clients read.
pub record Flags : Type 0 where
  pub enable_tls : Bool
  pub test_sku_auth : String

-- metadata.Pairs, for a new client and for one that has a session.
unfoldable pub new_client_metadata : ClientTask → Metadata
new_client_metadata c = ("user_id", itoa c.id ∷ []) ∷ []

unfoldable pub call_metadata : ClientTask → Metadata
call_metadata c = ("user_id", itoa c.id ∷ []) ∷ ("authorization", c.auth_token ∷ []) ∷ []

-- The request that a test's loop sends, and the call that sends it. RegisterDevice's has device data.
pub data Request : Type 0 where
  derive_tokens_request : DeriveTokensRequest → Request
  endorse_certs_request : EndorseCertsRequest → Request
  registration_request : DeviceData → Request

-- `skuName`'s tests: the request that is prepared before the loop, and what the loop makes of it
-- after a call was sent to the results.
pub record CallFunc (W : Type 0) : Type 0 where
  pub prepare : W → Request × W
  pub renew : Request → W → Request × W

abbrev pub token_params : ℕ → ℕ → ℕ → String → Bool → TokenParams
token_params seed typ size diversifier wrap_seed = record {
  seed = seed;
  typ = typ;
  size = size;
  diversifier = diversifier;
  wrap_seed = wrap_seed;
}

unfoldable pub derive_request : String → DeriveTokensRequest
derive_request sku_name = record {
  sku = sku_name;
  params =
      token_params token_seed_low_security token_type_raw token_size_128_bits "test_unlock" false
      ∷ token_params token_seed_low_security token_type_raw token_size_128_bits "test_exit" false
      ∷ token_params token_seed_keygen token_type_hashed_ot_lc_token token_size_128_bits
          "rma,device_id" true
      ∷ token_params token_seed_high_security token_type_raw token_size_256_bits "was,device_id"
          false
      ∷ [];
}

unfoldable pub endorse_request : String → Bytes → EndorseCertsRequest
endorse_request sku_name tbs = record {
  sku = sku_name;
  bundles =
      record {
        key_params =
            some (record { key_label = "SigningKey/Dice/v0"; key = ecdsa_params hash_type_sha256 });
        tbs = tbs;
      }
      ∷ [];
}

unfoldable pub registration_data : String → ℕ → DeviceData
registration_data sku_name number = record {
  sku = sku_name;
  device_id = record {
    hardware_origin = record {
      silicon_creator_id = silicon_creator_id_opensource;
      product_id = product_id_earlgrey_z1;
      device_identification_number = number;
    };
    sku_specific = replicate sku_specific_len 0;
  };
  device_life_cycle = device_life_cycle_prod;
  wrapped_rma_unlock_token = replicate wrapped_rma_token_len 0;
  perso_tlv_data = replicate max_perso_tlv_data_len 0;
  rest = [];
}

-- request.DeviceData.DeviceId.HardwareOrigin.DeviceIdentificationNumber = number
unfoldable pub renumbered : ℕ → DeviceData → DeviceData
renumbered number d = record d {
  device_id = record d.device_id {
    hardware_origin = record d.device_id.hardware_origin { device_identification_number = number };
  };
}

module _ {W : Type 0} (service : Service W) where
  -- (c *clientTask) setup
  unfoldable pub setup : Flags → String → ClientTask → Exec W ClientTask
  unfolding new_client_metadata
  setup flags sku_name c =
      (if flags.enable_tls then service.load_client_credentials else pure tt)
      >> service.dial
      >> service.init_session (new_client_metadata c)
          (record { sku = sku_name; sku_auth = flags.test_sku_auth })
      >>= λ response. pure (record c { auth_token = response.sku_session_token })

  -- What is left of a response: the error, if any.
  abbrev pub error_of : {A : Type 0} → Result A × W → Option Error × W
  error_of (ok _, w) = (none, w)
  error_of (err e, w) = (some e, w)

  -- One call of a test's loop.
  unfoldable pub call : ClientTask → Request → W → Option Error × W
  unfolding call_metadata
  call c (derive_tokens_request r) w = error_of (service.derive_tokens (call_metadata c) r w)
  call c (endorse_certs_request r) w = error_of (service.endorse_certs (call_metadata c) r w)
  call c (registration_request d) w =
      error_of (service.register_device (call_metadata c) (record { device_data = some d }) w)

  unfoldable pub test_ot_derive_tokens : String → CallFunc W
  unfolding derive_request
  test_ot_derive_tokens sku_name = record {
    prepare = λ w. (derive_tokens_request (derive_request sku_name), w);
    renew = λ r w. (r, w);
  }

  -- testOTEndorseCerts, with the file that NewEndorseCertTest has read.
  unfoldable pub test_ot_endorse_certs : Bytes → String → CallFunc W
  unfolding endorse_request
  test_ot_endorse_certs tbs sku_name = record {
    prepare = λ w. (endorse_certs_request (endorse_request sku_name tbs), w);
    renew = λ r w. (r, w);
  }

  unfoldable pub renew_device : Request → W → Request × W
  unfolding renumbered
  renew_device (registration_request d) w =
      let (number, next) = service.rand_uint64 w in
      (registration_request (renumbered number d), next)
  renew_device r w = (r, w)

  unfoldable pub test_ot_register_device : String → CallFunc W
  unfolding registration_data renew_device
  test_ot_register_device sku_name = record {
    prepare = λ w.
        let (number, next) = service.rand_uint64 w in
        (registration_request (registration_data sku_name number), next);
    renew = renew_device;
  }
