-- ===== src/Spm/Server.antt =====
-- src/spm/services/spm.go: the gRPC server. This file has its state; the children have sessions and
-- SKUs, the parameters of tokens, and the handlers. A handler holds the lock `muSKU`, so that it is
-- one step on the table of SKUs; what handlers that run together share is the queue of HSM sessions,
-- for which see SessionQueue/Interleaving.antt.
pub mod Sessions
pub mod Params
pub mod Handlers
pub mod Frame
pub mod Found
use opentitan_provisioning.Base.{
  ℕ, String, String_eq, Bool, List, Option, none, some, Result, ok, err, errorf, status, not_found,
}
use opentitan_provisioning.Base.Exec.{Exec}
use opentitan_provisioning.Base.Dict.{Dict, lookup, insert}
use opentitan_provisioning.Proto.{Bytes}
use opentitan_provisioning.Pk11.{Ctx}
use opentitan_provisioning.Pk11.Ecdsa.{Crypto}
use opentitan_provisioning.Utils.{Os}
use opentitan_provisioning.Spm.SkuConfig.{Config, Auth}
use opentitan_provisioning.Spm.SessionQueue.{SessionQueue}
use opentitan_provisioning.Spm.Hsm.{Hsm}
use opentitan_provisioning.Spm.Hsm.Tokens.{CShake128}
use opentitan_provisioning.Spm.Hsm.Endorse.{Asn1}

-- `sessions` is the queue that the instance of the HSM points to, and nothing else does.
pub record SkuState : Type 0 where
  pub config : Config
  pub certs : Dict String Bytes
  pub se_handle : Hsm
  pub sessions : SessionQueue

pub record Server : Type 0 where
  pub config_dir : String
  pub hsm_so_lib_path : String
  pub hsm_password_file : String
  pub skus : Dict String SkuState
  pub auth_cfg : Option Auth

-- The server, whether the process has its session token generator, and all that is outside.
pub record World (H : Type 0) : Type 0 where
  pub server : Server
  pub session_token : Bool
  pub outside : H

-- What the server calls of other code. The fuel is for searches on the HSM. `intn` is
-- rand.Intn, and `seed` is rand.Seed with the time.
pub record Deps (H : Type 0) : Type 0 where
  pub ctx : Ctx H
  pub fuel : ℕ
  pub os : Os H
  pub intn : ℕ → H → ℕ × H
  pub seed : H → H
  pub unmarshal_config : Bytes → Result Config
  pub unmarshal_auth : Bytes → Result Auth
  pub parse_certificate : Bytes → Result Bytes
  pub compare : Bytes → Bytes → Result (Unit {0})
  pub cshake : CShake128
  pub crypto : Crypto
  pub asn1 : Asn1

-- An action on the outside alone.
abbrev pub on_outside : {H A : Type 0} → Exec H A → Exec (World H) A
on_outside m w = ((m w.outside).0, record w { outside = (m w.outside).1 })

abbrev pub kept :
    {H A : Type 0}
    → String
    → SkuState
    → World H
    → Result A × (H × SessionQueue)
    → Result A × World H
kept name sku w (r, (h, q)) = (
  r,
  record w {
    server = record w.server { skus = insert name (record sku { sessions = q }) w.server.skus };
    outside = h;
  },
)

-- `sku, ok := s.skus[request.Sku]`, and what a handler does with the entry and its HSM.
unfoldable pub with_sku :
    {H A : Type 0} → String → (SkuState → Exec (H × SessionQueue) A) → Exec (World H) A
with_sku name f w = elim (lookup name w.server.skus) [
  | none ↦ (err (status not_found "unable to find sku %q. Try calling InitSession first"), w)
  | some sku ↦ kept name sku w (f sku (w.outside, sku.sessions))
]
