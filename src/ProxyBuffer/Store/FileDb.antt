-- ===== src/ProxyBuffer/Store/FileDb.antt =====
-- src/proxy_buffer/store/filedb.go: the SQLite connector. gorm is a parameter: a table with `Create`
-- and `Last`, whose primary key is the device identifier. The write lock makes an insertion one
-- step. The two time stamps of a row are gorm's.
use opentitan_provisioning.Base.{
  ℕ, String, String_eq, ◌==◌, ◌≡◌, Result, ok, err, errorf, Error, or_else, arith, List, [], ◌∷◌,
  Option, none, some, if◌then◌else◌, eq_iff, refl, ap, ◌∙◌, Option-cases, inl, inr,
}
use opentitan_provisioning.Base.{◌>>=◌ as ◌>>=R◌}
use opentitan_provisioning.Base.Exec.{Exec, or_raise, or_raise-eq-ok, or_raise-eq-err}
use opentitan_provisioning.Proto.{Bytes}
use opentitan_provisioning.ProxyBuffer.Store.{Connector, IsFaithful}

abbrev pub unsynced : ℕ
unsynced = 0

abbrev pub synced : ℕ
synced = 1

pub record DeviceSchema : Type 0 where
  pub device_id : String
  pub sku : String
  pub device : Bytes
  pub sync_state : ℕ

-- What the connector calls of gorm.
pub record Gorm (T : Type 0) : Type 0 where
  pub create : DeviceSchema → Exec T (Unit {0})
  pub last : String → T → Result DeviceSchema

-- The first row of a list with a primary key.
abbrev pub select : String → List DeviceSchema → Option DeviceSchema
select k [] = none
select k (row ∷ rest) = if row.device_id == k then some row else select k rest

-- A table of SQLite behind gorm: Create is one transaction, which adds the row, or fails and adds
-- nothing, and must fail on a primary key that is there; Last with a condition on the primary key is a
-- query of the rows.
pub record IsTable {T : Type 0} (g : Gorm T) : Type 0 where
  pub rows : T → List DeviceSchema
  pub added : (row : DeviceSchema) (s t : T) → g.create row s ≡ (ok tt, t) → rows t ≡ row ∷ rows s
  pub unique :
      (row old : DeviceSchema) (s : T)
      → select row.device_id (rows s) ≡ some old
      → (m : String) × (t : T) × (g.create row s ≡ (err (errorf m), t))
  pub rolled_back :
      (row : DeviceSchema) (s t : T) (e : Error) → g.create row s ≡ (err e, t) → rows t ≡ rows s
  pub no_row :
      (k : String) (s : T) → select k (rows s) ≡ none → g.last k s ≡ err (errorf "record not found")
  pub a_row :
      (k : String) (s : T) (row : DeviceSchema) → select k (rows s) ≡ some row → g.last k s ≡ ok row

module _ {T : Type 0} (g : Gorm T) where
  abbrev new_row : String → String → Bytes → DeviceSchema
  new_row key sku value = record {
    device_id = key;
    sku = sku;
    device = value;
    sync_state = unsynced;
  }

  unfoldable pub insert_file : String → String → Bytes → Exec T (Unit {0})
  insert_file key sku value =
      or_raise (g.create (new_row key sku value)) (errorf "failed to insert data with key")

  unfoldable pub get_file : String → T → Result Bytes
  get_file key s =
      or_else (g.last key s) (errorf "failed to get data associated with key") >>=R λ device.
      ok device.device

  abbrev pub file_db : Connector T
  file_db = record { insert = insert_file; get = get_file }

  module _ (table : IsTable g) where
    insert_file-eq-ok :
        (key sku : String) (value : Bytes) (s t : T)
        → insert_file key sku value s ≡ (ok tt, t)
        → g.create (new_row key sku value) s ≡ (ok tt, t)
    unfolding insert_file
    insert_file-eq-ok key sku value s t h = or_raise-eq-ok (g.create (new_row key sku value)) _ s h

    -- What is read depends on the rows under the key alone.
    get_file-select :
        (k : String) (s t : T)
        → select k (table.rows t) ≡ select k (table.rows s)
        → get_file k t ≡ get_file k s
    unfolding get_file
    get_file-select k s t same = elim (Option-cases (select k (table.rows s))) [
      | inl absent ↦ ground (arith, table.no_row k s absent, table.no_row k t (same ∙ absent))
      | inr (row, present) ↦
          ground (arith, table.a_row k s row present, table.a_row k t row (same ∙ present))
    ]

    inserted :
        (key sku : String) (value : Bytes) (s t : T)
        → insert_file key sku value s ≡ (ok tt, t)
        → table.rows t ≡ new_row key sku value ∷ table.rows s
    inserted key sku value s t h =
        table.added (new_row key sku value) s t (insert_file-eq-ok key sku value s t h)

    -- The SQLite connector keeps the contract of a connector, if gorm's table has rows that Create
    -- adds to and Last selects from: what was inserted is read back, other keys are untouched, and a
    -- failed insertion leaves what is read under every key as it was.
    pub file_db-IsFaithful : IsFaithful file_db
    unfolding get_file insert_file
    file_db-IsFaithful = record {
      get_inserted = λ key sku value s t h.
          let there : select key (table.rows t) ≡ some (new_row key sku value) =
            rw (inserted key sku value s t h) (ground (arith, eq_iff key key)) in
          ground (arith, table.a_row key t (new_row key sku value) there);
      get_other = λ key sku value s t k h ne.
          get_file-select k s t (rw (inserted key sku value s t h) (ground (arith, eq_iff key k)));
      failed_keeps = λ key sku value s t e h k.
          let (raw, refused) = or_raise-eq-err (g.create (new_row key sku value)) _ s h in
          get_file-select k s t
            (ap (select k) (table.rolled_back (new_row key sku value) s t raw refused));
    }

    -- If gorm's table behaves as documented, a second insertion under a key that is there fails and
    -- leaves the rows as they were: unlike the fake database, the SQLite connector never replaces a
    -- record.
    pub insert_file_twice :
        (key sku sku' : String) (value value' : Bytes) (s t : T)
        → insert_file key sku value s ≡ (ok tt, t)
        → (u : T) × (insert_file key sku' value' t
            ≡ (err (errorf "failed to insert data with key"), u))
          × (table.rows u ≡ table.rows t)
    unfolding insert_file
    insert_file_twice key sku sku' value value' s t h =
        let there : select key (table.rows t) ≡ some (new_row key sku value) =
          rw (inserted key sku value s t h) (ground (arith, eq_iff key key)) in
        let (m, u, refused) =
          table.unique (new_row key sku' value') (new_row key sku value) t there in
        (u, rw refused refl, table.rolled_back (new_row key sku' value') t u (errorf m) refused)
