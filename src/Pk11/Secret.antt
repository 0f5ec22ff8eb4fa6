-- ===== src/Pk11/Secret.antt =====
-- src/pk11/gensec.go: generic secret keys, HMAC and wrapping.
use opentitan_provisioning.Base.{
  ℕ, ◌/◌, ◌%◌, true, false, not, ◌||◌, List, [], ◌∷◌, Option, none, some, Result, ok, err, errorf,
  if◌then◌else◌, nat_eq, ltb,
}
use opentitan_provisioning.Base.Exec.{Exec, ◌>>=◌, ◌>>◌, pure, raise, or_raise, lift}
use opentitan_provisioning.Proto.{Bytes}
use opentitan_provisioning.Pk11.{
  Ctx, Session, Object, Attribute, Mechanism, KeyOptions, new_attribute, number, flag, octets,
  cka_value_len, cka_key_type, cka_sensitive, cka_extractable, cka_token, cka_wrap, cka_encrypt,
  cka_decrypt, cka_sign, cka_derive, cka_class, cka_value, ckk_generic_secret, cko_secret_key,
  ckm_generic_secret_key_gen, ckm_sha256_hmac, ckm_rsa_pkcs, ckm_rsa_pkcs_oaep,
}
use opentitan_provisioning.Pk11.Connect.{append_attr_key_id}
use opentitan_provisioning.Pk11.Find.{object_of}

-- type GenSecretWrapMechanism; the last case is any other number.
pub data GenSecretWrapMechanism : Type 0 where
  rsa_oaep rsa_pcks other_mechanism : GenSecretWrapMechanism

-- `opts = &KeyOptions{}` where it is nil
abbrev pub options : Option KeyOptions → KeyOptions
options none = record {
  extractable = false;
  sensitive = false;
  token = false;
  encryption = false;
  wrapping = false;
}
options (some opts) = opts

abbrev generate_template : ℕ → KeyOptions → List Attribute
generate_template key_bit_len opts =
    new_attribute cka_value_len (number (key_bit_len / 8))
    ∷ new_attribute cka_key_type (number ckk_generic_secret)
    ∷ new_attribute cka_sensitive (flag opts.sensitive)
    ∷ new_attribute cka_extractable (flag opts.extractable)
    ∷ new_attribute cka_token (flag opts.token)
    ∷ new_attribute cka_wrap (flag true)
    ∷ new_attribute cka_encrypt (flag true)
    ∷ new_attribute cka_decrypt (flag true)
    ∷ new_attribute cka_sign (flag true)
    ∷ new_attribute cka_derive (flag true)
    ∷ []

-- The mechanism and its parameters, chosen by `switch m` in Wrap and in UnwrapGenSecret.
pub wrap_mechanism : GenSecretWrapMechanism → Result Mechanism
wrap_mechanism rsa_pcks = ok ckm_rsa_pkcs
wrap_mechanism rsa_oaep = ok ckm_rsa_pkcs_oaep
wrap_mechanism other_mechanism = err (errorf "unsupported mechanism")

abbrev unwrap_template : KeyOptions → List Attribute
unwrap_template opts =
    new_attribute cka_class (number cko_secret_key)
    ∷ new_attribute cka_key_type (number ckk_generic_secret)
    ∷ new_attribute cka_sensitive (flag opts.sensitive)
    ∷ new_attribute cka_extractable (flag opts.extractable)
    ∷ new_attribute cka_token (flag opts.token)
    ∷ new_attribute cka_wrap (flag true)
    ∷ new_attribute cka_encrypt (flag true)
    ∷ new_attribute cka_decrypt (flag true)
    ∷ new_attribute cka_derive (flag true)
    ∷ []

abbrev import_template : Bytes → KeyOptions → List Attribute
import_template key opts =
    new_attribute cka_value (octets key)
    ∷ new_attribute cka_class (number cko_secret_key)
    ∷ new_attribute cka_key_type (number ckk_generic_secret)
    ∷ new_attribute cka_derive (flag true)
    ∷ new_attribute cka_sensitive (flag (not opts.extractable))
    ∷ new_attribute cka_extractable (flag opts.extractable)
    ∷ new_attribute cka_token (flag opts.token)
    ∷ []

module _ {H : Type 0} (ctx : Ctx H) where
  unfoldable pub generate : Session → ℕ → Option KeyOptions → Exec H Object
  unfolding append_attr_key_id
  generate s key_bit_len opts =
      if not (nat_eq (key_bit_len % 8) 0) || ltb key_bit_len 128
      then raise (errorf "keyBitLen must be a multiple of 8 >= 128")
      else do
        tpl ← append_attr_key_id ctx (generate_template key_bit_len (options opts))
        k ←
            or_raise (ctx.generate_key s.raw ckm_generic_secret_key_gen tpl)
              (errorf "could not generate keys")
        pure (object_of s k)

  unfoldable pub sign_hmac256 : Object → Bytes → Exec H Bytes
  sign_hmac256 k raw = do
    or_raise (ctx.sign_init k.sess.raw ckm_sha256_hmac k.raw)
        (errorf "could not begin signing operation")
    or_raise (ctx.sign k.sess.raw raw) (errorf "could not complete signing operation")

  unfoldable pub wrap : Object → Object → GenSecretWrapMechanism → Exec H Bytes
  unfolding wrap_mechanism
  wrap k wk m = do
    mech ← lift (wrap_mechanism m)
    or_raise (ctx.wrap_key k.sess.raw mech wk.raw k.raw)
        (errorf "could not perform wrapping operation")

  unfoldable pub unwrap_gen_secret :
      Session → Bytes → Object → GenSecretWrapMechanism → Option KeyOptions → Exec H Object
  unfolding wrap_mechanism append_attr_key_id
  unwrap_gen_secret s key pko m opts = do
    tpl ← append_attr_key_id ctx (unwrap_template (options opts))
    mech ← lift (wrap_mechanism m)
    sk ←
        or_raise (ctx.unwrap_key s.raw mech pko.raw key tpl)
          (errorf "could not perform wrapping operation")
    pure (object_of s sk)

  unfoldable pub import_generic_secret : Session → Bytes → Option KeyOptions → Exec H Object
  unfolding append_attr_key_id
  import_generic_secret s key opts = do
    tpl ← append_attr_key_id ctx (import_template key (options opts))
    k ← or_raise (ctx.create_object s.raw tpl) (errorf "could not import key")
    pure (object_of s k)
