-- ===== src/Pk11/Aes.antt =====
-- src/pk11/aes.go: AES keys, sealing with GCM, and wrapping.
pub mod Sealed
use opentitan_provisioning.Base.{
  ℕ, ◌*◌, ◌/◌, ◌%◌, ◌-◌, true, not, ◌||◌, List, [], ◌∷◌, Option, Result, ok, err, errorf, panic,
  if◌then◌else◌, nat_eq, ltb, length, take, drop,
}
use opentitan_provisioning.Base.Exec.{Exec, ◌>>=◌, ◌>>◌, pure, raise, or_raise, lift}
use opentitan_provisioning.Proto.{Bytes}
use opentitan_provisioning.Pk11.{
  Ctx, Session, Object, Attribute, KeyOptions, new_attribute, number, flag, octets, cka_value_len,
  cka_key_type, cka_sensitive, cka_extractable, cka_token, cka_wrap, cka_unwrap, cka_encrypt,
  cka_decrypt, cka_value, cka_class, ckk_aes, cko_secret_key, ckm_aes_key_gen, ckm_aes_gcm,
  ckm_aes_key_wrap_pad,
}
use opentitan_provisioning.Pk11.Connect.{append_attr_key_id}
use opentitan_provisioning.Pk11.Find.{object_of}
use opentitan_provisioning.Pk11.Secret.{options}

-- The keys that implement the interface Key.
pub data Key : Type 0 where
  public_key private_key secret_key : Object → Key

abbrev generate_template : ℕ → KeyOptions → List Attribute
generate_template key_bit_len opts =
    new_attribute cka_value_len (number (key_bit_len / 8))
    ∷ new_attribute cka_key_type (number ckk_aes)
    ∷ new_attribute cka_sensitive (flag opts.sensitive)
    ∷ new_attribute cka_extractable (flag opts.extractable)
    ∷ new_attribute cka_token (flag opts.token)
    ∷ new_attribute cka_wrap (flag true)
    ∷ new_attribute cka_encrypt (flag true)
    ∷ new_attribute cka_decrypt (flag true)
    ∷ []

abbrev import_template : Bytes → KeyOptions → List Attribute
import_template key opts =
    new_attribute cka_value (octets key)
    ∷ new_attribute cka_class (number cko_secret_key)
    ∷ new_attribute cka_key_type (number ckk_aes)
    ∷ new_attribute cka_encrypt (flag true)
    ∷ new_attribute cka_decrypt (flag true)
    ∷ new_attribute cka_wrap (flag true)
    ∷ new_attribute cka_unwrap (flag true)
    ∷ new_attribute cka_sensitive (flag opts.sensitive)
    ∷ new_attribute cka_extractable (flag opts.extractable)
    ∷ new_attribute cka_token (flag opts.token)
    ∷ []

-- The guard of SealAESGCM and of UnsealAESGCM.
unfoldable pub check_tag_bits : ℕ → Result (Unit {0})
check_tag_bits tag_bits =
    if not (nat_eq (tag_bits % 8) 0) || ltb tag_bits 96 || ltb 128 tag_bits
    then err (errorf "tagBits must be a multiple of 8 between 96 and 128")
    else ok tt

-- `switch key := key.(type)` of the two functions that wrap.
unfoldable pub wrapped_object : Key → Result Object
wrapped_object (secret_key o) = ok o
wrapped_object (private_key o) = ok o
wrapped_object (public_key o) = err (errorf "unsupported key type")

-- ciph[:len(ciph)-16] and ciph[len(ciph)-16:]
unfoldable pub split_iv : Bytes → Result (Bytes × Bytes)
split_iv ciph =
    if ltb (length ciph) 16
    then err (panic "slice bounds out of range")
    else ok (take (length ciph - 16) ciph, drop (length ciph - 16) ciph)

module _ {H : Type 0} (ctx : Ctx H) where
  unfoldable pub generate_aes : Session → ℕ → Option KeyOptions → Exec H Object
  unfolding append_attr_key_id
  generate_aes s key_bit_len opts =
      if not (nat_eq (key_bit_len % 8) 0) || ltb key_bit_len 128
      then raise (errorf "keyBitLen must be a multiple of 8 >= 128")
      else do
        tpl ← append_attr_key_id ctx (generate_template key_bit_len (options opts))
        k ← or_raise (ctx.generate_key s.raw ckm_aes_key_gen tpl) (errorf "could not generate keys")
        pure (object_of s k)

  unfoldable pub import_aes_raw : Session → Bytes → Option KeyOptions → Exec H Object
  unfolding append_attr_key_id
  import_aes_raw s key opts =
      if ltb (length key) 16 then raise (errorf "key must be at least 128 bits long") else do
        tpl ← append_attr_key_id ctx (import_template key (options opts))
        k ← or_raise (ctx.create_object s.raw tpl) (errorf "could not import key")
        pure (object_of s k)

  -- The ciphertext, and the IV that the parameters have afterwards.
  abbrev pub with_iv : Bytes → Bytes → Exec H (Bytes × Bytes)
  with_iv iv ciph h = (ok (ciph, ctx.params_iv iv h), h)

  unfoldable pub seal_aes_gcm : Object → Bytes → Bytes → ℕ → Bytes → Exec H (Bytes × Bytes)
  unfolding check_tag_bits
  seal_aes_gcm k iv aad tag_bits plaintext = do
    lift (check_tag_bits tag_bits)
    or_raise (ctx.encrypt_init k.sess.raw (ckm_aes_gcm iv aad tag_bits) k.raw)
        (errorf "could not begin encryption operation")
    ciph ←
        or_raise (ctx.encrypt k.sess.raw plaintext)
          (errorf "could not perform encryption operation")
    with_iv iv ciph

  unfoldable pub unseal_aes_gcm : Object → Bytes → Bytes → ℕ → Bytes → Exec H Bytes
  unfolding check_tag_bits
  unseal_aes_gcm k iv aad tag_bits ciphertext = do
    lift (check_tag_bits tag_bits)
    or_raise (ctx.decrypt_init k.sess.raw (ckm_aes_gcm iv aad tag_bits) k.raw)
        (errorf "could not begin decryption operation")
    or_raise (ctx.decrypt k.sess.raw ciphertext) (errorf "could not perform decryption operation")

  unfoldable pub wrap_aes_kwp : Object → Key → Exec H Bytes
  unfolding wrapped_object
  wrap_aes_kwp k key = do
    o ← lift (wrapped_object key)
    or_raise (ctx.wrap_key k.sess.raw ckm_aes_key_wrap_pad k.raw o.raw)
        (errorf "could not perform wrapping operation")

  unfoldable pub wrap_aes_gcm : Object → Key → Exec H (Bytes × Bytes)
  unfolding wrapped_object split_iv
  wrap_aes_gcm k key = do
    o ← lift (wrapped_object key)
    ciph ←
        or_raise (ctx.wrap_key k.sess.raw (ckm_aes_gcm [] [] 128) k.raw o.raw)
          (errorf "could not perform wrapping operation")
    lift (split_iv ciph)
