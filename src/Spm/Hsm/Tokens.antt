-- ===== src/Spm/Hsm/Tokens.antt =====
-- GenerateTokens of src/spm/services/se_pk11.go: tokens from stored seeds and from fresh ones. The
-- hash cSHAKE128 of golang.org/x/crypto/sha3 is a parameter.
pub mod Shape
pub mod KeyStore
pub mod Reproducible
use opentitan_provisioning.Base.{
  ℕ, String, String_eq, List, [], ◌∷◌, ◌++◌, length, take, ltb, nat_eq, Option, none, some, Result,
  ok, err, errorf, panic, Bool, true, false, if◌then◌else◌, ◌&&◌,
}
use opentitan_provisioning.Base.Exec.{Exec, ◌>>=◌, ◌>>◌, pure, raise, or_raise, lift}
use opentitan_provisioning.Base.Dict.{lookup}
use opentitan_provisioning.Base.Text.{bytes_of}
use opentitan_provisioning.Proto.{Bytes}
use opentitan_provisioning.Pk11.{Ctx, Session, Object, KeyOptions}
use opentitan_provisioning.Pk11.Find.{find_secret_key, find_public_key}
use opentitan_provisioning.Pk11.Secret.{
  GenSecretWrapMechanism, rsa_pcks, rsa_oaep, generate, sign_hmac256, wrap,
}
use opentitan_provisioning.Spm.SecureElement.{
  TokenParams, TokenResult, TokenOp, TokenType, WrappingMechanism, token_op_raw,
  token_op_hashed_ot_lc_token, token_type_security_hi, token_type_security_lo, token_type_key_gen,
  other_token_type, wrapping_none, wrapping_rsa_pcks, wrapping_rsa_oaep, wrapping_aes_kwp,
  wrapping_aes_gcm,
}
use opentitan_provisioning.Spm.SessionQueue.{SessionQueue, execute_cmd}
use opentitan_provisioning.Spm.Hsm.{Hsm, or_error}

-- cSHAKE128 with its function name and customization string, on a message, to a number of bytes.
abbrev pub CShake128 : Type 0
CShake128 = String → String → Bytes → ℕ → Bytes

-- The seed options of GenerateTokens.
abbrev pub seed_options : KeyOptions
seed_options = record {
  extractable = true;
  sensitive = true;
  token = false;
  encryption = false;
  wrapping = false;
}

-- p.Type != TokenTypeKeyGen && p.Wrap != WrappingMechanismNone
unfoldable pub unsupported : TokenType → WrappingMechanism → Bool
unsupported token_type_key_gen w = false
unsupported t wrapping_none = false
unsupported t w = true

-- if p.SizeInBits == 128 { tBytes = tBytes[:16] }; the slice has no spare capacity.
unfoldable pub truncated : ℕ → Bytes → Result Bytes
truncated size_in_bits t_bytes =
    if nat_eq size_in_bits 128
    then if ltb (length t_bytes) 16
      then err (panic "slice bounds out of range")
      else ok (take 16 t_bytes)
    else ok t_bytes

-- The hasher reads back as many bytes as it was given.
unfoldable pub hashed : CShake128 → TokenOp → Bytes → Bytes
hashed cshake token_op_raw t_bytes = t_bytes
hashed cshake token_op_hashed_ot_lc_token t_bytes = cshake "" "LC_CTRL" t_bytes (length t_bytes)

-- `switch p.Wrap`, and `none` where the seed is not wrapped.
unfoldable pub wrap_choice : WrappingMechanism → Option GenSecretWrapMechanism
wrap_choice wrapping_rsa_pcks = some rsa_pcks
wrap_choice wrapping_rsa_oaep = some rsa_oaep
wrap_choice wrapping_none = none
wrap_choice wrapping_aes_kwp = none
wrap_choice wrapping_aes_gcm = none

-- []byte(p.Sku) followed by []byte(p.Diversifier)
unfoldable pub raw_data : TokenParams → Bytes
unfolding bytes_of
raw_data p = bytes_of p.sku ++ bytes_of p.diversifier

module _ {H : Type 0} (ctx : Ctx H) (fuel : ℕ) (cshake : CShake128) (h : Hsm) where
  stored_seed : Session → String → String → Exec H Object
  unfolding or_error
  stored_seed session seed_label message = do
    k ← lift (or_error (lookup seed_label h.symmetric_keys) (errorf "failed to find %q key UID"))
    or_raise (find_secret_key ctx fuel session k) (errorf message)

  unfoldable pub seed_of : Session → TokenType → String → Exec H Object
  unfolding stored_seed
  seed_of session token_type_security_hi seed_label =
      stored_seed session seed_label "failed to get KHsks key object"
  seed_of session token_type_security_lo seed_label =
      stored_seed session seed_label "failed to get KLsks key object"
  seed_of session token_type_key_gen seed_label =
      or_raise (generate ctx session 256 (some seed_options))
        (errorf "failed to generate random key")
  seed_of session other_token_type seed_label = raise (errorf "unsupported key type")

  unfoldable pub wrapped_seed :
      Session → Object → Option GenSecretWrapMechanism → String → Exec H Bytes
  unfolding or_error
  wrapped_seed session seed none wrap_key_label = pure []
  wrapped_seed session seed (some m) wrap_key_label = do
    wk ← lift (or_error (lookup wrap_key_label h.public_keys) (errorf "failed to find %q key UID"))
    wk_obj ← or_raise (find_public_key ctx fuel session wk) (errorf "failed to find %q key object")
    or_raise (wrap ctx seed wk_obj m) (errorf "failed to wrap seed")

  -- The part of the loop's body after the test of the type.
  unfoldable pub supported_token : Session → TokenParams → Exec H TokenResult
  unfolding truncated hashed wrap_choice raw_data
  supported_token session p = do
    seed ← seed_of session p.typ p.seed_label
    mac ← or_raise (sign_hmac256 ctx seed (raw_data p)) (errorf "failed to hash seed")
    t_bytes ← lift (truncated p.size_in_bits mac)
    wkey ← wrapped_seed session seed (wrap_choice p.wrap) p.wrap_key_label
    pure (record {
      token = hashed cshake p.op t_bytes;
      wrapped_key = wkey;
      diversifier = p.diversifier;
    })

  unfoldable pub token : Session → TokenParams → Exec H TokenResult
  unfolding unsupported
  token session p =
      if unsupported p.typ p.wrap
      then raise (errorf "unsupported key type %v and wrap %v")
      else supported_token session p

  unfoldable pub all_tokens : List TokenParams → Session → Exec H (List TokenResult)
  all_tokens [] session = pure []
  all_tokens (p ∷ params) session =
      token session p >>= λ t. all_tokens params session >>= λ ts. pure (t ∷ ts)

  unfoldable pub generate_tokens : List TokenParams → Exec (H × SessionQueue) (List TokenResult)
  generate_tokens params = execute_cmd (all_tokens params)
