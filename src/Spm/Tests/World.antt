-- ===== src/Spm/Tests/World.antt =====
-- The SKU and the server of the concrete runs.
use opentitan_provisioning.Base.{
  ℕ, ℕ_eq, nat_eq_iff, Option, none, Option-cases, sym, ◌≤◌, ◌≡◌, refl, subst, arith, inl, inr,
  Bool-cases, take, drop, ◌/◌, String, String_eq, str_eq, true, false, [], ◌∷◌, replicate, some, ok,
  length, length-replicate,
}
use opentitan_provisioning.Base.Exec.{Keeps}
use opentitan_provisioning.Base.Dict.{Dict, lookup, lookup-insert_self, lookup-delete}
use opentitan_provisioning.Proto.{Bytes}
use opentitan_provisioning.Pk11.Octets.{set_bytes}
use opentitan_provisioning.Pk11.SoftToken.{
  Token, soft_token, soft_crypto, soft_search, soft_searching, soft_find_init, soft_find,
  soft_find_final, soft_sign_init, soft_sign, idle, mac, first_session, second_session,
}
use opentitan_provisioning.Utils.{Os}
use opentitan_provisioning.Spm.SkuConfig.{Config, Auth}
use opentitan_provisioning.Spm.SessionQueue.{SessionQueue}
use opentitan_provisioning.Spm.Hsm.{Hsm}
use opentitan_provisioning.Spm.Hsm.Tokens.{CShake128}
use opentitan_provisioning.Spm.Hsm.Tokens.Shape.{IsHmac, IsSized}
use opentitan_provisioning.Spm.Hsm.Tokens.KeyStore.{IsKeyStore}
use opentitan_provisioning.Spm.Hsm.Endorse.{Asn1}
use opentitan_provisioning.Spm.Hsm.Endorse.Signed.{IsSigner}
use opentitan_provisioning.Spm.Server
use opentitan_provisioning.Spm.Server.{SkuState, Deps}
use opentitan_provisioning.Spm.Server.Frame.{WellFormed}

abbrev pub config : Config
config = record {
  sku = "sival";
  slot_id = 0;
  num_sessions = 2;
  symmetric_keys = record { name = "hi" } ∷ record { name = "lo" } ∷ [];
  private_keys = record { name = "KCAPriv"; endorsing_cert = "" } ∷ [];
  public_keys = record { name = "wk" } ∷ [];
  certs = [];
  attributes =
      ("SeedSecHi", "hi")
      ∷ ("SeedSecLo", "lo")
      ∷ ("WrappingMechanism", "RsaOaep")
      ∷ ("WrappingKeyLabel", "wk")
      ∷ ("SigningKey/Identity/v0", "sign")
      ∷ [];
}

abbrev pub hsm : Hsm
hsm = record {
  symmetric_keys = ("hi", 1 ∷ []) ∷ ("lo", 1 ∷ []) ∷ [];
  private_keys = ("KCAPriv", 1 ∷ []) ∷ [];
  public_keys = ("wk", 1 ∷ []) ∷ [];
}

abbrev pub queue : SessionQueue
queue = record { num_sessions = 2; s = first_session ∷ second_session ∷ [] }

abbrev pub turned : SessionQueue
turned = record { num_sessions = 2; s = second_session ∷ first_session ∷ [] }

abbrev pub sival : SkuState
sival = record { config = config; certs = []; se_handle = hsm; sessions = queue }

abbrev pub cshake : CShake128
cshake = λ n s message size. replicate size 8

pub cshake-IsSized : IsSized cshake
cshake-IsSized n s message size = length-replicate size 8

abbrev pub asn1 : Asn1
asn1 = record {
  marshal_pair = λ r s. ok (1 ∷ []);
  marshal_certificate = λ tbs oid sig. ok (2 ∷ []);
}

abbrev pub os : Os Token
os = record {
  not_exist = λ _ _. false;
  read_file = λ _ h. (ok (0 ∷ []), h);
  lookup_env = λ _ _. some "pin";
  join = λ dir file. file;
  text_of = λ _. "pw";
}

abbrev pub auth_cfg : Auth
auth_cfg = record {
  sku_auth_cfg_list = ("siv", record { sku_auth = "hash"; methods = "DeriveTokens" ∷ [] }) ∷ [];
}

abbrev pub deps : Deps Token
deps = record {
  ctx = soft_token;
  fuel = 2;
  os = os;
  intn = λ n h. (0, h);
  seed = λ h. h;
  unmarshal_config = λ _. ok config;
  unmarshal_auth = λ _. ok auth_cfg;
  parse_certificate = λ b. ok b;
  compare = λ _ _. ok tt;
  cshake = cshake;
  crypto = soft_crypto;
  asn1 = asn1;
}

abbrev pub world : Dict String SkuState → Server.World Token
world skus = record {
  server = record {
    config_dir = "/etc";
    hsm_so_lib_path = "pkcs11.so";
    hsm_password_file = "";
    skus = skus;
    auth_cfg = some auth_cfg;
  };
  session_token = true;
  outside = idle;
}

abbrev pub running : Server.World Token
running = world (("sival", sival) ∷ [])

pub running-WellFormed : WellFormed running
unfolding lookup
running-WellFormed = record {
  room = λ name sku found. elim (Bool-cases (str_eq "sival" name)) [
    | inl same ↦
        let it : sival ≡ sku = ground arith in
        subst (λ x. length x.sessions.s ≤ x.sessions.num_sessions) it (omega arith)
    | inr other ↦ absurd (ground arith)
  ];
}

halves : set_bytes (take 16 mac) ≡ set_bytes (drop 16 mac)
unfolding set_bytes
halves = refl

signed_mac : (s : ℕ) (b : Bytes) (h h' : Token) → soft_sign s h ≡ (ok b, h') → b ≡ mac
signed_mac s b h h' e = elim (Option-cases (lookup s h.signatures)) [
  | inl free ↦ absurd (ground (arith, free, e))
  | inr (key, busy) ↦ ground (arith, busy, e)
]

pub soft_token-IsHmac : IsHmac soft_token
soft_token-IsHmac = record {
  size = λ s key message m h h' h'' i signed.
      subst (λ x. length x ≡ 32) (sym (signed_mac s m h' h'' signed)) refl;
}

abbrev pub Halves : ℕ → Bytes → ℕ → ℕ → Type 0
Halves key digest r s = r ≡ s

pub soft_token-IsSigner : IsSigner soft_token Halves
soft_token-IsSigner = record {
  correct = λ s key digest contents h h' h'' i signed.
      subst (λ x. set_bytes (take (length x / 2) x) ≡ set_bytes (drop (length x / 2) x))
        (sym (signed_mac s contents h' h'' signed)) halves;
}

abbrev pub soft_signing : Token → ℕ → Option ℕ
soft_signing h s = lookup s h.signatures

pub soft_begins :
    (s : ℕ) (h : Token)
    → soft_searching h s ≡ none
    → ((soft_find_init s h).0 ≡ ok tt) × (soft_searching (soft_find_init s h).1 s ≡ some (7 ∷ []))
soft_begins s h free =
    (ground (arith, free), ground (arith, free, lookup-insert_self s (7 ∷ []) h.searches))

pub soft_starts :
    (s key : ℕ) (h : Token)
    → soft_signing h s ≡ none
    → ((soft_sign_init s key h).0 ≡ ok tt) × (soft_signing (soft_sign_init s key h).1 s ≡ some key)
soft_starts s key h free =
    (ground (arith, free), ground (arith, free, lookup-insert_self s key h.signatures))

pub soft_signs :
    (s key : ℕ) (h : Token)
    → soft_signing h s ≡ some key
    → ((soft_sign s h).0 ≡ ok mac) × (soft_signing (soft_sign s h).1 s ≡ none)
soft_signs s key h busy =
    (ground (arith, busy), ground (arith, busy, lookup-delete s s h.signatures, nat_eq_iff s s))

pub apart_init : (s : ℕ) → Keeps (λ h. soft_signing h s ≡ none) (soft_find_init s)
apart_init s = record { at = λ h e. ground (arith, e) }

pub apart_find : (s n : ℕ) → Keeps (λ h. soft_signing h s ≡ none) (soft_find s n)
apart_find s n = record { at = λ h e. ground (arith, e) }

pub apart_final : (s : ℕ) → Keeps (λ h. soft_signing h s ≡ none) (soft_find_final s)
apart_final s = record { at = λ h e. ground (arith, e) }

pub apart_sign_init : (s key : ℕ) → Keeps (λ h. soft_searching h s ≡ none) (soft_sign_init s key)
apart_sign_init s key = record { at = λ h e. ground (arith, e) }

pub apart_sign : (s : ℕ) → Keeps (λ h. soft_searching h s ≡ none) (soft_sign s)
apart_sign s = record { at = λ h e. ground (arith, e) }

abbrev pub soft_store : IsKeyStore soft_token
soft_store = record {
  search = soft_search;
  signing = soft_signing;
  Usable = λ s h. Unit;
  Known = λ uid. Unit;
  handle = λ uid. 7;
  mac = λ uid message. mac;
  mac_size = λ uid message. refl;
  begins = λ s uid h u free quiet k. soft_begins s h free;
  starts = λ s uid h u free quiet k. soft_starts s 7 h quiet;
  signs = λ s uid message h u busy k. soft_signs s 7 h busy;
  init_keeps = λ s attributes. record { at = λ h u. tt };
  find_keeps = λ s n. record { at = λ h u. tt };
  final_keeps = λ s. record { at = λ h u. tt };
  sign_init_keeps = λ s key. record { at = λ h u. tt };
  sign_keeps = λ s message. record { at = λ h u. tt };
  init_apart = λ s attributes. apart_init s;
  find_apart = apart_find;
  final_apart = apart_final;
  sign_init_apart = apart_sign_init;
  sign_apart = λ s message. apart_sign s;
}
