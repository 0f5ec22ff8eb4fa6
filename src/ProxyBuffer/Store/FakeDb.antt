-- ===== src/ProxyBuffer/Store/FakeDb.antt =====
-- src/proxy_buffer/store/db_fake.go: every insertion of a key is kept under a version of its own.
use opentitan_provisioning.Base.{
  ℕ, ◌+◌, ◌%◌, ◌^◌, String, String_eq, ◌==◌, Eq, ◌≡◌, ◌↔◌, Bool, true, ◌&&◌, [], Option, none, some,
  Result, ok, err, errorf, arith, nat_eq, str_eq, eq_iff, nat_eq_iff, refl, if◌then◌else◌,
  Option-cases, ap, inl, inr,
}
use opentitan_provisioning.Base.Exec.{Exec}
use opentitan_provisioning.Base.Dict.{Dict, lookup, insert, lookup-insert}
use opentitan_provisioning.Proto.{Bytes}
use opentitan_provisioning.ProxyBuffer.Store.{Connector, IsFaithful}

pub record VersionedKey : Type 0 where
  pub key : String
  pub version : ℕ

abbrev pub versioned_key_beq : VersionedKey → VersionedKey → Bool
versioned_key_beq a b = str_eq a.key b.key && nat_eq a.version b.version

pub versioned_key_beq_iff : (a b : VersionedKey) → (versioned_key_beq a b ≡ true) ↔ (a ≡ b)
versioned_key_beq_iff a b = ground (arith, eq_iff a.key b.key)

-- Go compares the struct keys of a map field by field.
instance abbrev pub VersionedKey_eq : Eq VersionedKey
VersionedKey_eq = record { beq = versioned_key_beq; beq_iff = versioned_key_beq_iff }

pub record FakeDb : Type 0 where
  pub key_versions : Dict String ℕ
  pub db : Dict VersionedKey Bytes

abbrev pub new : FakeDb
new = record { key_versions = []; db = [] }

-- `ver + 1` is a uint32.
unfoldable pub next_version : Option ℕ → ℕ
next_version none = 0
next_version (some ver) = (ver + 1) % 2 ^ 32

unfoldable pub insert_fake : String → String → Bytes → Exec FakeDb (Unit {0})
insert_fake key sku value c =
    let ver_k : VersionedKey = record {
      key = key;
      version = next_version (lookup key c.key_versions);
    } in
    (
      ok tt,
      record {
        key_versions = insert key ver_k.version c.key_versions;
        db = insert ver_k value c.db;
      },
    )

-- c.db[verK] is nil where the key is missing.
bytes_or_nil : Option Bytes → Bytes
bytes_or_nil none = []
bytes_or_nil (some value) = value

unfoldable pub get_fake : String → FakeDb → Result Bytes
unfolding bytes_or_nil
get_fake key c = elim (lookup key c.key_versions) [
  | none ↦ err (errorf "record not found key")
  | some ver ↦ ok (bytes_or_nil (lookup (record { key = key; version = ver }) c.db))
]

abbrev pub fake_db : Connector FakeDb
fake_db = record { insert = insert_fake; get = get_fake }

abbrev inserted_version : String → FakeDb → ℕ
inserted_version key c = next_version (lookup key c.key_versions)

get_fake-insert_fake :
    (key sku k : String) (value : Bytes) (c : FakeDb)
    → get_fake k (insert_fake key sku value c).1 ≡ (if key == k then ok value else get_fake k c)
unfolding get_fake insert_fake
get_fake-insert_fake key sku k value c = elim (Option-cases (lookup k c.key_versions)) [
  | inl absent ↦ ground (
    arith,
    lookup-insert key k (inserted_version key c) c.key_versions,
    lookup-insert (record { key = key; version = inserted_version key c })
        (record { key = k; version = inserted_version key c }) value c.db,
    eq_iff key k,
    nat_eq_iff (inserted_version key c) (inserted_version key c),
  )
  | inr (ver, present) ↦ ground (
    arith,
    lookup-insert key k (inserted_version key c) c.key_versions,
    lookup-insert (record { key = key; version = inserted_version key c })
        (record { key = k; version = inserted_version key c }) value c.db,
    lookup-insert (record { key = key; version = inserted_version key c })
        (record { key = k; version = ver }) value c.db,
    eq_iff key k,
    nat_eq_iff (inserted_version key c) (inserted_version key c),
  )
]

fake_db_keeps : IsFaithful fake_db
unfolding insert_fake
fake_db_keeps = record {
  get_inserted = λ key sku value s t h.
      rw (← ap (λ x. x.1) h)
        (ground (arith, get_fake-insert_fake key sku key value s, eq_iff key key));
  get_other = λ key sku value s t k h ne.
      rw (← ap (λ x. x.1) h) (ground (arith, get_fake-insert_fake key sku k value s, eq_iff key k));
  failed_keeps = λ key sku value s t e h k. cc (ap (λ x. x.0) h);
}

-- The fake database keeps the contract of a connector: what was inserted last under a key is read
-- back, and other keys are untouched. And no insertion fails, whatever the state: each one is read
-- back at once.
pub fake_db-IsFaithful :
    IsFaithful fake_db
    × ((key sku : String) (value : Bytes) (s : FakeDb)
        → (t : FakeDb) × (insert_fake key sku value s ≡ (ok tt, t)) × (get_fake key t ≡ ok value))
unfolding insert_fake
fake_db-IsFaithful = (
  fake_db_keeps,
  λ key sku value s. (
    (insert_fake key sku value s).1,
    refl,
    fake_db_keeps.get_inserted key sku value s (insert_fake key sku value s).1 refl,
  ),
)
