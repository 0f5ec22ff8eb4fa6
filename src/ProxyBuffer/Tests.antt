-- ===== src/ProxyBuffer/Tests.antt =====
-- Concrete runs of the models of src/proxy_buffer.
use opentitan_provisioning.Base.{
  ◌≡◌, ◌≢◌, ◌↔◌, refl, List, Error, arith, String, String_eq, [], ◌∷◌, none, some, Option-cases,
  inl, inr, Result, ok, err, errorf, status, invalid_argument, eq_iff, str_eq, nat_eq, Bool, ◌&&◌,
  if◌then◌else◌,
}
use opentitan_provisioning.Base.Exec.{Exec}
use opentitan_provisioning.Base.{bytes_beq, bytes_beq_iff}
use opentitan_provisioning.Base.Dict.{lookup, insert}
use opentitan_provisioning.Proto.{Bytes, RegistryRecord}
use opentitan_provisioning.ProxyBuffer.{
  DeviceRegistrationRequest, DeviceRegistrationResponse, device_registration_status_success,
}
use opentitan_provisioning.ProxyBuffer.Validators.{
  validate_device_registration_request, validate_device_registration_response,
}
use opentitan_provisioning.ProxyBuffer.Store.{insert_device, get_device}
use opentitan_provisioning.ProxyBuffer.Store.FakeDb.{
  FakeDb, new, fake_db, fake_db-IsFaithful, insert_fake, next_version,
}
use opentitan_provisioning.ProxyBuffer.Store.FileDb.{
  DeviceSchema, Gorm, IsTable, select, insert_file, file_db, file_db-IsFaithful,
}
use opentitan_provisioning.ProxyBuffer.Store.{IsFaithful}
use opentitan_provisioning.ProxyBuffer.Service.{
  register_device, register_device-response, register_device-stored,
}

-- The one record of these runs, and a marshaller that knows it.
abbrev a_record : RegistryRecord
a_record = record {
  device_id = "0x01";
  sku = "sival";
  version = 0;
  contents = 7 ∷ [];
  auth_pubkey = [];
  auth_signature = [];
}

abbrev is_a_record : RegistryRecord → Bool
is_a_record r =
    str_eq r.device_id "0x01"
    && str_eq r.sku "sival"
    && nat_eq r.version 0
    && bytes_beq r.contents (7 ∷ [])
    && bytes_beq r.auth_pubkey []
    && bytes_beq r.auth_signature []

abbrev marshal : RegistryRecord → Result Bytes
marshal r = if is_a_record r then ok (9 ∷ []) else err (errorf "unknown record")

abbrev unmarshal : Bytes → Result RegistryRecord
unmarshal b = ok a_record

decodes : (r : RegistryRecord) (b : Bytes) → marshal r ≡ ok b → unmarshal b ≡ ok r
decodes r b h = ground (
  arith,
  eq_iff r.device_id "0x01",
  eq_iff r.sku "sival",
  bytes_beq_iff r.contents (7 ∷ []),
  bytes_beq_iff r.auth_pubkey [],
  bytes_beq_iff r.auth_signature [],
)

abbrev request : DeviceRegistrationRequest
request = record { registry_record = a_record }

abbrev empty_request : DeviceRegistrationRequest
empty_request = record { registry_record = record a_record { contents = [] } }

abbrev accepted : DeviceRegistrationResponse
accepted = record { status = 1; device_id = "0x01" }

abbrev rejected : DeviceRegistrationResponse
rejected = record { status = 2; device_id = "0x01" }

abbrev after : FakeDb
after = record {
  key_versions = ("0x01", 0) ∷ [];
  db = (record { key = "0x01"; version = 0 }, 9 ∷ []) ∷ [];
}

accepted_run : register_device fake_db marshal unmarshal request new ≡ ((accepted, none), after)
unfolding register_device insert_device insert_fake next_version
    validate_device_registration_request lookup insert
accepted_run = refl

rejected_run :
    register_device fake_db marshal unmarshal empty_request new
    ≡ ((rejected, some (status invalid_argument "failed request validation")), new)
unfolding register_device validate_device_registration_request
rejected_run = refl

register_device-response_example :
    ((register_device fake_db marshal unmarshal request new).0.0.device_id ≡ "0x01")
    × (◌≢◌ {A = String} "0x01" ""
        → validate_device_registration_response
            (register_device fake_db marshal unmarshal request new).0.0
          ≡ ok tt)
    × (((register_device fake_db marshal unmarshal request new).0.0.status
          ≡ device_registration_status_success)
        ↔ ((register_device fake_db marshal unmarshal request new).0.1 ≡ none))
register_device-response_example = register_device-response fake_db marshal unmarshal request new

register_device-stored_example :
    (get_device fake_db marshal unmarshal "0x01" after ≡ ok a_record)
    × ((k : String)
        → ◌≢◌ {A = String} "0x01" k
        → get_device fake_db marshal unmarshal k after ≡ get_device fake_db marshal unmarshal k new)
register_device-stored_example =
    register_device-stored fake_db marshal unmarshal fake_db-IsFaithful.0 decodes request new after
      accepted accepted_run

-- gorm's table, as the list of its rows.
abbrev table_create : DeviceSchema → Exec (List DeviceSchema) (Unit {0})
table_create row s = elim (select row.device_id s) [
  | some _ ↦ (err (errorf "UNIQUE constraint failed"), s)
  | none ↦ (ok tt, row ∷ s)
]

abbrev table_last : String → List DeviceSchema → Result DeviceSchema
table_last k s = elim (select k s) [ none ↦ err (errorf "record not found") | some row ↦ ok row ]

abbrev table : Gorm (List DeviceSchema)
table = record { create = table_create; last = table_last }

created :
    (row : DeviceSchema) (s t : List DeviceSchema) → table_create row s ≡ (ok tt, t) → t ≡ row ∷ s
created row s t h = elim (Option-cases (select row.device_id s)) [
  | inl absent ↦ ground (arith, absent, h)
  | inr (old, present) ↦ absurd (ground (arith, present, h))
]

unchanged :
    (row : DeviceSchema) (s t : List DeviceSchema) (e : Error)
    → table_create row s ≡ (err e, t)
    → t ≡ s
unchanged row s t e h = elim (Option-cases (select row.device_id s)) [
  | inl absent ↦ absurd (ground (arith, absent, h))
  | inr (old, present) ↦ ground (arith, present, h)
]

table-IsTable : IsTable table
table-IsTable = record {
  rows = λ s. s;
  added = created;
  unique = λ row old s h. ("UNIQUE constraint failed", s, ground (arith, h));
  rolled_back = unchanged;
  no_row = λ k s h. ground (arith, h);
  a_row = λ k s row h. ground (arith, h);
}

abbrev stored_row : List DeviceSchema
stored_row = record { device_id = "0x01"; sku = "sival"; device = 7 ∷ []; sync_state = 0 } ∷ []

stored_run : insert_file table "0x01" "sival" (7 ∷ []) [] ≡ (ok tt, stored_row)
unfolding insert_file
stored_run = refl

file_db-IsFaithful_example : IsFaithful (file_db table)
file_db-IsFaithful_example = file_db-IsFaithful table table-IsTable
