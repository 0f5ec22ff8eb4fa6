-- ===== src/ProxyBuffer/Store.antt =====
-- src/proxy_buffer/store: the connector interface (connector.go) with what a client relies on, and
-- the record store over it (db.go). `proto.Marshal` and `proto.Unmarshal` are the generated code.
pub mod FakeDb
pub mod FileDb
pub mod Inserted
use opentitan_provisioning.Base.{
  String, ◌≡◌, ◌≢◌, Result, ok, err, errorf, Error, or_else, arith, refl, ◌>>=◌ as ◌>>=R◌,
}
use opentitan_provisioning.Base.Exec.{Exec, ◌>>=◌, lift}
use opentitan_provisioning.Proto.{Bytes, RegistryRecord}

-- type Connector interface, over the state `S` of the database. A read does not change it.
pub record Connector (S : Type 0) : Type 0 where
  pub insert : String → String → Bytes → Exec S (Unit {0})
  pub get : String → S → Result Bytes

-- What the clients of a connector rely on.
pub record IsFaithful {S : Type 0} (c : Connector S) : Type 0 where
  pub get_inserted :
      (key sku : String) (value : Bytes) (s t : S)
      → c.insert key sku value s ≡ (ok tt, t)
      → c.get key t ≡ ok value
  pub get_other :
      (key sku : String) (value : Bytes) (s t : S) (k : String)
      → c.insert key sku value s ≡ (ok tt, t)
      → key ≢ k
      → c.get k t ≡ c.get k s
  pub failed_keeps :
      (key sku : String) (value : Bytes) (s t : S) (e : Error)
      → c.insert key sku value s ≡ (err e, t)
      → (k : String) → c.get k t ≡ c.get k s

module _ {S : Type 0} (c : Connector S) (marshal : RegistryRecord → Result Bytes)
    (unmarshal : Bytes → Result RegistryRecord) where
  unfoldable pub insert_device : RegistryRecord → Exec S (Unit {0})
  insert_device rr = do
    contents ← lift (or_else (marshal rr) (errorf "failed to marshal registry record"))
    c.insert rr.device_id rr.sku contents

  unfoldable pub get_device : String → S → Result RegistryRecord
  get_device di s = c.get di s >>=R λ rr_bytes.
      or_else (unmarshal rr_bytes) (errorf "failed to unmarshal registry record")
