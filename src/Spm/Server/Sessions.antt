-- ===== src/Spm/Server/Sessions.antt =====
-- The sessions of src/spm/services/spm.go: session tokens (src/transport/auth_service/session_token.go),
-- the search for a SKU's authorization, the initialization of a SKU and the handler InitSession.
pub mod Authorized
pub mod Initialized
pub mod Opened
pub mod Started
use opentitan_provisioning.Base.{
  ℕ, zero, suc, ◌+◌, String, String_eq, Bool, true, false, List, [], ◌∷◌, map, Option, none, some,
  Result, ok, err, errorf, status, internal, panic, Error, wrapped, if◌then◌else◌, str_eq, or_else,
  get_elem?, not,
}
use opentitan_provisioning.Base.Exec.{Exec, ◌>>=◌, ◌>>◌, pure, raise, or_raise, lift}
use opentitan_provisioning.Base.Dict.{Dict, lookup}
use opentitan_provisioning.Base.Dict
use opentitan_provisioning.Base.Text.{concat, has_prefix, bytes_of}
use opentitan_provisioning.Proto.{Bytes}
use opentitan_provisioning.Utils.{
  Os, read_file, load_config, load_cert_from_file, compare_hash_and_password,
}
use opentitan_provisioning.Spm.SkuConfig.{Config, Auth, SkuAuth, Certificate}
use opentitan_provisioning.Spm.SessionQueue.{SessionQueue}
use opentitan_provisioning.Spm.Hsm.{Hsm, HsmConfig, new_hsm, or_error}
use opentitan_provisioning.Spm.Messages.{InitSessionRequest, InitSessionResponse}
use opentitan_provisioning.Spm.Server.{World, Server, Deps, SkuState, on_outside}

abbrev pub token_size : ℕ
token_size = 16

-- Options
pub record Options : Type 0 where
  pub hsm_so_lib_path : String
  pub spm_auth_config_file : String
  pub spm_config_dir : String
  pub hsm_pw_file : String

-- DictionaryBytes: the bytes are ASCII letters and digits, so a byte is a text of one letter.
abbrev pub dictionary_bytes : List String
dictionary_bytes =
    "a" ∷ "b" ∷ "c" ∷ "d" ∷ "e" ∷ "f" ∷ "g" ∷ "h" ∷ "i" ∷ "j" ∷ "k" ∷ "l" ∷ "m" ∷ "n" ∷ "o" ∷ "p"
    ∷ "q" ∷ "r" ∷ "s" ∷ "t" ∷ "u" ∷ "v" ∷ "w" ∷ "x" ∷ "y" ∷ "z" ∷ "A" ∷ "B" ∷ "C" ∷ "D" ∷ "E" ∷ "F"
    ∷ "G" ∷ "H" ∷ "I" ∷ "J" ∷ "K" ∷ "L" ∷ "M" ∷ "N" ∷ "O" ∷ "P" ∷ "Q" ∷ "R" ∷ "S" ∷ "T" ∷ "U" ∷ "V"
    ∷ "W" ∷ "X" ∷ "Y" ∷ "Z" ∷ "1" ∷ "2" ∷ "3" ∷ "4" ∷ "5" ∷ "6" ∷ "7" ∷ "8" ∷ "9" ∷ "0" ∷ []

-- The first key of the map, in the order in which it is iterated over, that is a prefix.
unfoldable pub family_sku : String → List String → Option String
family_sku sku [] = none
family_sku sku (family ∷ families) =
    let later = family_sku sku families in if has_prefix sku family then some family else later

-- `order` is the order in which Go iterates over the map.
unfoldable pub find_sku_auth : Auth → List String → String → Option SkuAuth
find_sku_auth auth_cfg order sku = elim (lookup sku auth_cfg.sku_auth_cfg_list) [
  | some auth ↦ some auth
  | none ↦ elim (family_sku sku order) [
    | none ↦ none
    | some family ↦ lookup family auth_cfg.sku_auth_cfg_list
  ]
]

module _ {H : Type 0} (deps : Deps H) where
  -- The loop of Generate, over the bytes of the token.
  unfoldable pub generate_token : ℕ → Exec H String
  unfolding or_error
  generate_token zero h = (ok "", h)
  generate_token (suc n) h =
      let (i, h') = deps.intn 62 h in
      ((lift (or_error (get_elem? dictionary_bytes i) (panic "index out of range")) >>= λ c.
      generate_token n >>= λ token. pure (concat c token))
        h')

  unfoldable pub generate_session_token : ℕ → Exec (World H) String
  generate_session_token n w =
      if w.session_token
      then on_outside (generate_token n) w
      else (err (status internal "No instance of AuthController"), w)

  -- Both parts of the choice of the HSM's password.
  unfoldable pub file_password : String → Exec H String
  file_password file =
      if not (str_eq file "")
      then or_raise (read_file deps.os file) (errorf "unable to read file")
        >>= (λ val. pure (deps.os.text_of val))
      else pure ""

  unfoldable pub env_password : String → Exec H String
  env_password password h =
      if str_eq password ""
      then elim (deps.os.lookup_env "SPM_HSM_PIN_USER" h) [
        | none ↦ (err (errorf "initializeSKU failed"), h)
        | some val ↦ (ok val, h)
      ]
      else (ok password, h)

  unfoldable pub load_certs :
      String → List Certificate → Dict String Bytes → Exec H (Dict String Bytes)
  load_certs config_dir [] certs = pure certs
  load_certs config_dir (cert ∷ rest) certs =
      or_raise (load_cert_from_file deps.os deps.parse_certificate config_dir cert.path)
        (errorf "could not load cert")
      >>= λ c. load_certs config_dir rest (Dict.insert cert.name c certs)

  abbrev pub hsm_config : String → Config → String → HsmConfig
  hsm_config so_path cfg password = record {
    so_path = so_path;
    slot_id = cfg.slot_id;
    hsm_password = password;
    num_sessions = cfg.num_sessions;
    symmetric_keys = map (λ key. key.name) cfg.symmetric_keys;
    private_keys = map (λ key. key.name) cfg.private_keys;
    public_keys = map (λ key. key.name) cfg.public_keys;
  }

  -- What initializeSKU makes for a SKU that is not in the table.
  unfoldable pub new_sku : Server → String → Exec H SkuState
  unfolding concat
  new_sku s sku_name = do
    cfg ←
        or_raise
          (load_config deps.os deps.unmarshal_config s.config_dir
            (concat "sku_" (concat sku_name ".yml")))
          (errorf "could not load config")
    file ← file_password s.hsm_password_file
    password ← env_password file
    hsm ←
        or_raise (new_hsm deps.ctx deps.fuel (hsm_config s.hsm_so_lib_path cfg password))
          (errorf "fail to create an instance of HSM")
    certs ← load_certs s.config_dir cfg.certs []
    pure (record { config = cfg; certs = certs; se_handle = hsm.0; sessions = hsm.1 })

  add_sku : String → SkuState → Exec (World H) (Unit {0})
  add_sku sku_name sku w = (
    ok tt,
    record w { server = record w.server { skus = Dict.insert sku_name sku w.server.skus } },
  )

  unfoldable pub initialize_sku : String → Exec (World H) (Unit {0})
  unfolding add_sku
  initialize_sku sku_name w = elim (lookup sku_name w.server.skus) [
    | some _ ↦ (ok tt, w)
    | none ↦ (on_outside (new_sku w.server sku_name) >>= add_sku sku_name) w
  ]

  unfoldable pub init_sku : String → Exec (World H) String
  init_sku sku = do
    token ← or_raise (generate_session_token token_size) (errorf "failed to generate session token")
    or_raise (initialize_sku sku) (errorf "failed to initialize sku")
    pure token

  -- The part of InitSession before the SKU is initialized.
  unfoldable pub check_auth : Option Auth → List String → InitSessionRequest → Result SkuAuth
  check_auth none order request = err (status internal "authentication config pointer is nil")
  check_auth (some auth_cfg) order request = elim (find_sku_auth auth_cfg order request.sku) [
    | none ↦ err (status internal "unknown sku: %q")
    | some auth ↦ elim (compare_hash_and_password deps.compare auth.sku_auth request.sku_auth) [
      | err _ ↦ err (status internal "incorrect sku authentication %q")
      | ok _ ↦ ok auth
    ]
  ]

  unfoldable pub init_session :
      List String → InitSessionRequest → Exec (World H) InitSessionResponse
  init_session order request w =
      (lift (check_auth w.server.auth_cfg order request) >>= λ auth.
      or_raise (init_sku request.sku) (status internal "failed to initialize sku: %v") >>= λ token.
      pure (record { sku_session_token = token; pa_endpoint = ""; auth_methods = auth.methods }))
        w

  -- The state is whether there is a generator, and the outside.
  unfoldable pub new_session_token_instance : Bool × H → Bool × H
  new_session_token_instance (instance_, h) =
      if instance_ then (instance_, h) else (true, deps.seed h)

  configured : Options → Bool × H → Result Auth → Result Server × (Bool × H)
  unfolding new_session_token_instance
  configured opts s (err e) = (err (wrapped e (errorf "could not load sku auth config")), s)
  configured opts s (ok config) = (
    ok (record {
      config_dir = opts.spm_config_dir;
      hsm_so_lib_path = opts.hsm_so_lib_path;
      hsm_password_file = opts.hsm_pw_file;
      skus = [];
      auth_cfg = some (record { sku_auth_cfg_list = config.sku_auth_cfg_list });
    }),
    new_session_token_instance s,
  )

  unfoldable pub new_spm_server : Options → Exec (Bool × H) Server
  unfolding configured
  new_spm_server opts (instance_, h) =
      if deps.os.not_exist opts.spm_config_dir h
      then (err (errorf "config directory does not exist"), (instance_, h))
      else let (config, h') =
          load_config deps.os deps.unmarshal_auth opts.spm_config_dir opts.spm_auth_config_file h in
        configured opts (instance_, h') config
