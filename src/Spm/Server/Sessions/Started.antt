-- ===== src/Spm/Server/Sessions/Started.antt =====
-- What NewSpmServer of src/spm/services/spm.go starts from.
use opentitan_provisioning.Base.{
  ◌≡◌, arith, Bool, true, [], some, ok, Result-cases, Bool-cases, inl, inr,
}
use opentitan_provisioning.Utils.{load_config}
use opentitan_provisioning.Spm.SkuConfig.{Auth}
use opentitan_provisioning.Spm.Server.{Server, Deps}
use opentitan_provisioning.Spm.Server.Sessions.{
  Options, configured, new_spm_server, new_session_token_instance,
}

module _ {H : Type 0} (deps : Deps H) where
  -- A server that NewSpmServer returns has no SKU and the authorizations of its file, and the process
  -- has its generator of session tokens.
  pub new_spm_server-started :
      (opts : Options) (s t : Bool × H) (server : Server)
      → new_spm_server deps opts s ≡ (ok server, t)
      → (auth_cfg : Auth) × (server.auth_cfg ≡ some auth_cfg) × (server.skus ≡ []) × (t.0 ≡ true)
  unfolding new_spm_server configured new_session_token_instance
  new_spm_server-started opts (instance_, h) t server e =
      elim (Bool-cases (deps.os.not_exist opts.spm_config_dir h)) [
        | inl missing ↦ absurd (ground (arith, missing, e))
        | inr there ↦
            let loaded =
              load_config deps.os deps.unmarshal_auth opts.spm_config_dir opts.spm_auth_config_file
                h in
            elim (Result-cases loaded.0) [
              | inr (x, unread) ↦ absurd (ground (arith, there, unread, e))
              | inl (config, read) ↦ elim (Bool-cases instance_) [
                | inl old ↦ (
                  record { sku_auth_cfg_list = config.sku_auth_cfg_list },
                  ground (arith, there, read, old, e),
                  ground (arith, there, read, old, e),
                  ground (arith, there, read, old, e),
                )
                | inr fresh ↦ (
                  record { sku_auth_cfg_list = config.sku_auth_cfg_list },
                  ground (arith, there, read, fresh, e),
                  ground (arith, there, read, fresh, e),
                  ground (arith, there, read, fresh, e),
                )
              ]
            ]
      ]
