-- ===== src/Pa/Tests.antt =====
-- Concrete runs of the models of src/pa.
use opentitan_provisioning.Base.{
  ◌≡◌, ◌↔◌, refl, arith, String, String_eq, Bool, false, List, [], ◌∷◌, none, some, Result, ok, err,
  errorf, status, internal, str_eq, eq_iff, nat_eq, ◌&&◌, if◌then◌else◌,
}
use opentitan_provisioning.Base.Dict.{lookup, insert, delete}
use opentitan_provisioning.Base.Text.{has_suffix}
use opentitan_provisioning.Proto.{Bytes, DeviceData, RegistryRecord}
use opentitan_provisioning.Proto.DeviceIdText.{device_id_to_hex_string}
use opentitan_provisioning.Auth.{User, new_user_object, save, clone, delete_user}
use opentitan_provisioning.Auth.Controller.{
  get_instance, find_user, add_user, create_user, remove_user,
}
use opentitan_provisioning.Auth.Interceptor.{
  Context, Metadata, AuthInterceptor, exclude_methods_list, metadata_from_incoming_context,
  get_user_id, any_suffix, authorize,
}
use opentitan_provisioning.Auth.Authorized.{EndsWithOneOf}
use opentitan_provisioning.Base.{bytes_beq, bytes_beq_iff}
use opentitan_provisioning.ProxyBuffer.Validators.{validate_device_registration_request}
use opentitan_provisioning.ProxyBuffer.Store.{insert_device, get_device}
use opentitan_provisioning.ProxyBuffer.Store.FakeDb.{
  FakeDb, new, fake_db, fake_db-IsFaithful, insert_fake, next_version,
}
use opentitan_provisioning.ProxyBuffer.Service
use opentitan_provisioning.Spm.Messages.{
  ecdsa_params, hash_type_sha384, InitSessionResponse, EndorseDataResponse,
}
use opentitan_provisioning.Pa.{
  SpmClient, Appliance, init_session, close_session, registry_record, register_device,
}
use opentitan_provisioning.Pa.Sessions.{init_session-authorize, close_session-authorize}
use opentitan_provisioning.Pa.Registered.{buffer_client, register_device-get_device}

abbrev response : InitSessionResponse
response = record {
  sku_session_token = "secret";
  pa_endpoint = "";
  auth_methods = "DeriveTokens" ∷ [];
}

-- An SPM that answers without changing the database behind the proxy buffer.
abbrev spm : SpmClient FakeDb
spm = record {
  init_session = λ _ s. (ok response, s);
  endorse_certs = λ _ s. (err (errorf "unused"), s);
  derive_tokens = λ _ s. (err (errorf "unused"), s);
  get_stored_tokens = λ _ s. (err (errorf "unused"), s);
  endorse_data = λ _ s. (ok (record { pubkey = 4 ∷ []; signature = 5 ∷ [] }), s);
}

abbrev old_user : User
old_user = record { user_id = "ate"; sku = "sival"; auth_methods = []; session_token = "old" }

abbrev new_user : User
new_user = record {
  user_id = "ate";
  sku = "sival";
  auth_methods = "DeriveTokens" ∷ [];
  session_token = "secret";
}

abbrev appliance : List (String × User) → Appliance FakeDb
appliance users = record {
  instance_ = some (record { enable_tls = false; user_store = record { users = users } });
  outside = new;
}

abbrev metadata : Metadata
metadata = ("user_id", "ate" ∷ []) ∷ ("authorization", "secret" ∷ []) ∷ []

abbrev ctx : Context
ctx = record { peer = none; metadata = some metadata }

abbrev interceptor : AuthInterceptor
interceptor = record { enable_tls = false; exclude_methods = exclude_methods_list }

identified : get_user_id ctx metadata ≡ ok "ate"
unfolding get_user_id lookup
identified = refl

presented : lookup "authorization" metadata ≡ some ("secret" ∷ [])
unfolding lookup
presented = refl

included : any_suffix "/pa/DeriveTokens" exclude_methods_list ≡ false
unfolding any_suffix has_suffix
included = refl

init_run :
    init_session spm ctx
      (record { sku = "sival"; sku_auth = "password" })
      (appliance (("ate", old_user) ∷ []))
    ≡ (
      ok (record response { pa_endpoint = "TODO: SET_PA_ENDPOINT" }),
      appliance (("ate", new_user) ∷ []),
    )
unfolding init_session get_instance metadata_from_incoming_context get_user_id add_user find_user
    clone remove_user delete_user delete create_user save insert new_user_object lookup
init_run = refl

init_session-authorize_example :
    (authorize interceptor (appliance (("ate", new_user) ∷ [])).instance_ ctx "/pa/DeriveTokens"
      ≡ ok tt)
    ↔ ((◌≡◌ {A = String} "secret" "secret")
        × EndsWithOneOf "/pa/DeriveTokens" ("DeriveTokens" ∷ []))
init_session-authorize_example =
    init_session-authorize spm ctx (record { sku = "sival"; sku_auth = "password" })
      (appliance (("ate", old_user) ∷ [])) (appliance (("ate", new_user) ∷ []))
      (record response { pa_endpoint = "TODO: SET_PA_ENDPOINT" }) interceptor ctx metadata metadata
      "ate" "secret" "/pa/DeriveTokens" [] init_run refl identified refl identified presented
      included

close_run : close_session spm ctx (appliance (("ate", new_user) ∷ [])) ≡ (ok tt, appliance [])
unfolding close_session get_instance metadata_from_incoming_context get_user_id remove_user
    new_user_object delete_user delete lookup
close_run = refl

close_session-authorize_example :
    authorize interceptor (appliance []).instance_ ctx "/pa/DeriveTokens"
    ≡ err (status internal "user not found")
close_session-authorize_example =
    close_session-authorize spm ctx (appliance (("ate", new_user) ∷ [])) (appliance []) interceptor
      ctx metadata metadata "ate" "/pa/DeriveTokens" close_run refl identified refl identified
      included

abbrev device_data : DeviceData
device_data = record {
  sku = "sival";
  device_id = record {
    hardware_origin = record {
      silicon_creator_id = 0x4001;
      product_id = 2;
      device_identification_number = 0xbeef;
    };
    sku_specific = [];
  };
  device_life_cycle = 5;
  wrapped_rma_unlock_token = [];
  perso_tlv_data = [];
  rest = [];
}

abbrev marshal : DeviceData → Result Bytes
marshal _ = ok (7 ∷ [])

abbrev text : String
text = "0x00000000000000000000beef0000000200004001"

abbrev a_record : RegistryRecord
a_record = record {
  device_id = text;
  sku = "sival";
  version = 0;
  contents = 7 ∷ [];
  auth_pubkey = 4 ∷ [];
  auth_signature = 5 ∷ [];
}

-- The encoding of records knows the one record of this run.
abbrev is_a_record : RegistryRecord → Bool
is_a_record r =
    str_eq r.device_id text
    && str_eq r.sku "sival"
    && nat_eq r.version 0
    && bytes_beq r.contents (7 ∷ [])
    && bytes_beq r.auth_pubkey (4 ∷ [])
    && bytes_beq r.auth_signature (5 ∷ [])

abbrev marshal_record : RegistryRecord → Result Bytes
marshal_record r = if is_a_record r then ok (9 ∷ []) else err (errorf "unknown record")

abbrev unmarshal_record : Bytes → Result RegistryRecord
unmarshal_record _ = ok a_record

decodes : (r : RegistryRecord) (b : Bytes) → marshal_record r ≡ ok b → unmarshal_record b ≡ ok r
decodes r b h = ground (
  arith,
  eq_iff r.device_id text,
  eq_iff r.sku "sival",
  bytes_beq_iff r.contents (7 ∷ []),
  bytes_beq_iff r.auth_pubkey (4 ∷ []),
  bytes_beq_iff r.auth_signature (5 ∷ []),
)

abbrev after : FakeDb
after = record {
  key_versions = (text, 0) ∷ [];
  db = (record { key = text; version = 0 }, 9 ∷ []) ∷ [];
}

registered_run :
    register_device spm marshal
      (buffer_client spm marshal fake_db marshal_record unmarshal_record)
      (record { device_data = some device_data })
      new
    ≡ (ok tt, after)
unfolding register_device buffer_client registry_record device_id_to_hex_string
    Service.register_device insert_device insert_fake next_version
    validate_device_registration_request lookup insert
registered_run = refl

register_device-get_device_example :
    (contents : Bytes) × (endorsed : EndorseDataResponse) × (marshal device_data ≡ ok contents)
    × ((spm.endorse_data
          (record {
            sku = "sival";
            key_params = some (record {
              key_label = "SigningKey/Identity/v0";
              key = ecdsa_params hash_type_sha384;
            });
            payload = contents;
          })
          new).0
        ≡ ok endorsed)
    × (get_device fake_db marshal_record unmarshal_record
          (device_id_to_hex_string device_data.device_id)
          after
        ≡ ok (record {
          device_id = device_id_to_hex_string device_data.device_id;
          sku = "sival";
          version = 0;
          contents = contents;
          auth_pubkey = endorsed.pubkey;
          auth_signature = endorsed.signature;
        }))
register_device-get_device_example =
    register_device-get_device spm marshal fake_db marshal_record unmarshal_record
      fake_db-IsFaithful.0 decodes device_data new after registered_run
