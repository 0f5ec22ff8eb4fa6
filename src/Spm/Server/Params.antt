-- ===== src/Spm/Server/Params.antt =====
-- The loop of DeriveTokens in src/spm/services/spm.go that translates the parameters of a request
-- into those of the secure element.
use opentitan_provisioning.Base.{
  ℕ, String, Bool, true, false, List, [], ◌∷◌, nat_eq, str_eq, Result, ok, err, status, internal,
  invalid_argument, or_else, ◌>>=◌, if◌then◌else◌,
}
use opentitan_provisioning.Spm.SkuConfig.{
  Config, get_attribute, attr_name_wrapping_mechanism, attr_name_wrapping_key_label,
  wrapping_mechanism_rsa_oaep, wrapping_mechanism_rsa_pkcs1,
}
use opentitan_provisioning.Spm.SecureElement
use opentitan_provisioning.Spm.SecureElement.{
  TokenOp, TokenType, WrappingMechanism, token_op_raw, token_op_hashed_ot_lc_token,
  token_type_security_hi, token_type_security_lo, token_type_key_gen, wrapping_none,
  wrapping_rsa_pcks, wrapping_rsa_oaep,
}
use opentitan_provisioning.Spm.Messages.{
  TokenParams, token_seed_low_security, token_seed_high_security, token_seed_keygen, token_type_raw,
  token_type_hashed_ot_lc_token, token_size_128_bits, token_size_256_bits,
}

-- `switch p.Seed`: the type, and the label where it is set.
unfoldable pub seed_choice : ℕ → String → String → Result (TokenType × String)
seed_choice seed s_label_hi s_label_lo =
    if nat_eq seed token_seed_high_security
    then ok (token_type_security_hi, s_label_hi)
    else if nat_eq seed token_seed_low_security
    then ok (token_type_security_lo, s_label_lo)
    else if nat_eq seed token_seed_keygen
    then ok (token_type_key_gen, "")
    else err (status invalid_argument "invalid key seed requested: %d")

-- `switch wmech`
unfoldable pub mechanism_choice : String → Result WrappingMechanism
mechanism_choice wmech =
    if str_eq wmech wrapping_mechanism_rsa_oaep
    then ok wrapping_rsa_oaep
    else if str_eq wmech wrapping_mechanism_rsa_pkcs1
    then ok wrapping_rsa_pcks
    else err (status internal "invalid wrapping method: %s")

-- `if p.WrapSeed`: the mechanism, and the label where it is set.
unfoldable pub wrap_request : Config → Bool → Result (WrappingMechanism × String)
unfolding get_attribute
wrap_request config false = ok (wrapping_none, "")
wrap_request config true = do
  wmech ←
      or_else (get_attribute config attr_name_wrapping_mechanism)
        (status internal "could not get wrapping method: %s")
  wrap ← mechanism_choice wmech
  wkl ←
      or_else (get_attribute config attr_name_wrapping_key_label)
        (status internal "could not get wrapping key label: %s")
  ok (wrap, wkl)

unfoldable pub size_choice : ℕ → Result ℕ
size_choice size =
    if nat_eq size token_size_128_bits
    then ok 128
    else if nat_eq size token_size_256_bits
    then ok 256
    else err (status invalid_argument "invalid key size requested: %d")

unfoldable pub op_choice : ℕ → Result TokenOp
op_choice typ =
    if nat_eq typ token_type_raw
    then ok token_op_raw
    else if nat_eq typ token_type_hashed_ot_lc_token
    then ok token_op_hashed_ot_lc_token
    else err (status invalid_argument "invalid key type requested: %d")

-- The body of the loop.
unfoldable pub token_params :
    Config → String → String → String → TokenParams → Result SecureElement.TokenParams
unfolding seed_choice mechanism_choice wrap_request size_choice op_choice
token_params config s_label_hi s_label_lo sku p = do
  seed ← seed_choice p.seed s_label_hi s_label_lo
  wrap ← wrap_request config p.wrap_seed
  size ← size_choice p.size
  op ← op_choice p.typ
  ok (record {
    diversifier = p.diversifier;
    op = op;
    typ = seed.0;
    seed_label = seed.1;
    size_in_bits = size;
    sku = sku;
    wrap = wrap.0;
    wrap_key_label = wrap.1;
  })

unfoldable pub keygen_params :
    Config → String → String → String → List TokenParams → Result (List SecureElement.TokenParams)
keygen_params config s_label_hi s_label_lo sku [] = ok []
keygen_params config s_label_hi s_label_lo sku (p ∷ params) =
    token_params config s_label_hi s_label_lo sku p >>= λ first.
    keygen_params config s_label_hi s_label_lo sku params >>= λ rest. ok (first ∷ rest)
