-- ===== src/Pk11/Rsa.antt =====
-- src/pk11/rsa.go: RSA keys and their signatures.
pub mod DigestInfo
pub mod Exponent
use opentitan_provisioning.Base.{
  ℕ, zero, suc, ◌+◌, ◌-◌, ◌/◌, ◌%◌, ◌^◌, Bool, true, false, not, List, [], ◌∷◌, ◌++◌, reverse,
  Option, Result, ok, err, errorf, panic, if◌then◌else◌, nat_eq, ltb, length,
}
use opentitan_provisioning.Base.Exec.{Exec, ◌>>=◌, ◌>>◌, pure, or_raise, lift}
use opentitan_provisioning.Proto.{Bytes}
use opentitan_provisioning.Pk11.{
  Ctx, Session, Object, Attribute, Mechanism, KeyOptions, new_attribute, number, flag, octets, text,
  cka_modulus_bits, cka_public_exponent, cka_key_type, cka_verify, cka_label, cka_token, cka_sign,
  cka_sensitive, cka_extractable, cka_wrap, cka_unwrap, cka_encrypt, cka_decrypt, cka_modulus,
  cka_private_exponent, cka_prime_1, cka_prime_2, cka_exponent_1, cka_exponent_2, cka_coefficient,
  cka_class, ckk_rsa, cko_private_key, ckm_rsa_pkcs, ckm_rsa_pkcs_key_pair_gen, ckm_rsa_pkcs_pss,
}
use opentitan_provisioning.Pk11.Connect.{
  Hash, Digest, sha256, sha384, sha512, no_hash, make_hash, append_attr_key_id,
  append_attr_key_id_pair,
}
use opentitan_provisioning.Pk11.Find.{object_of, attr}
use opentitan_provisioning.Pk11.Secret.{options}

-- big.NewInt(int64(e)).Bytes() of a 64-bit number: the octets of the signed number's size, the most
-- significant first and none of them zero in front.
le_octets : ℕ → ℕ → Bytes
le_octets zero n = []
le_octets (suc fuel) n =
    let rest = le_octets fuel (n / 256) in if nat_eq n 0 then [] else (n % 256) ∷ rest

unfoldable pub exponent_octets : ℕ → Bytes
unfolding le_octets
exponent_octets e = reverse (le_octets 8 (if ltb e (2 ^ 63) then e else 2 ^ 64 - e))

-- `if opts.Wrapping` and `if opts.Encryption`
abbrev pub appended : Bool → Attribute → List Attribute → List Attribute
appended true a tpl = tpl ++ a ∷ []
appended false a tpl = tpl

abbrev pub_template : ℕ → ℕ → KeyOptions → List Attribute
pub_template mod_bits pub_exp opts =
    appended opts.encryption (new_attribute cka_encrypt (flag true)) (
      appended opts.wrapping (new_attribute cka_wrap (flag true)) (
        new_attribute cka_modulus_bits (number mod_bits)
        ∷ new_attribute cka_public_exponent (octets (exponent_octets pub_exp))
        ∷ new_attribute cka_key_type (number ckk_rsa)
        ∷ new_attribute cka_verify (flag true)
        ∷ new_attribute cka_label (text "pubRSA")
        ∷ new_attribute cka_token (flag opts.token)
        ∷ []))

abbrev priv_template : KeyOptions → List Attribute
priv_template opts = appended opts.encryption (new_attribute cka_decrypt (flag true)) (
    appended opts.wrapping (new_attribute cka_unwrap (flag true)) (
      new_attribute cka_key_type (number ckk_rsa)
      ∷ new_attribute cka_sign (flag true)
      ∷ new_attribute cka_sensitive (flag opts.sensitive)
      ∷ new_attribute cka_extractable (flag opts.extractable)
      ∷ new_attribute cka_label (text "privRSA")
      ∷ new_attribute cka_token (flag opts.token)
      ∷ []))

-- *rsa.PrivateKey after Precompute: each big.Int as its Bytes().
pub record RsaPrivate : Type 0 where
  pub n : Bytes
  pub e : ℕ
  pub d : Bytes
  pub primes : List Bytes
  pub dp : Bytes
  pub dq : Bytes
  pub qinv : Bytes

-- key.Primes[0], key.Primes[1]
pub two_primes : List Bytes → Result (Bytes × Bytes)
two_primes (p ∷ q ∷ rest) = ok (p, q)
two_primes _ = err (panic "index out of range")

abbrev import_template : RsaPrivate → Bytes × Bytes → KeyOptions → List Attribute
import_template key (p, q) opts = appended opts.encryption (new_attribute cka_decrypt (flag true)) (
    appended opts.wrapping (new_attribute cka_unwrap (flag true)) (
      new_attribute cka_modulus (octets key.n)
      ∷ new_attribute cka_public_exponent (octets (exponent_octets key.e))
      ∷ new_attribute cka_private_exponent (octets key.d)
      ∷ new_attribute cka_prime_1 (octets p)
      ∷ new_attribute cka_prime_2 (octets q)
      ∷ new_attribute cka_exponent_1 (octets key.dp)
      ∷ new_attribute cka_exponent_2 (octets key.dq)
      ∷ new_attribute cka_coefficient (octets key.qinv)
      ∷ new_attribute cka_class (number cko_private_key)
      ∷ new_attribute cka_key_type (number ckk_rsa)
      ∷ new_attribute cka_sign (flag true)
      ∷ new_attribute cka_sensitive (flag (not opts.extractable))
      ∷ new_attribute cka_extractable (flag opts.extractable)
      ∷ new_attribute cka_token (flag opts.token)
      ∷ []))

-- `switch hash` of SignRSAPKCS1v15PreHashed
unfoldable pub pkcs1_prefix : Hash → Result Bytes
pkcs1_prefix sha256 = ok (
    0x30 ∷ 0x31 ∷ 0x30 ∷ 0x0d ∷ 0x06 ∷ 0x09 ∷ 0x60 ∷ 0x86 ∷ 0x48 ∷ 0x01 ∷ 0x65 ∷ 0x03 ∷ 0x04 ∷ 0x02
    ∷ 0x01 ∷ 0x05 ∷ 0x00 ∷ 0x04 ∷ 0x20 ∷ [])
pkcs1_prefix sha384 = ok (
    0x30 ∷ 0x41 ∷ 0x30 ∷ 0x0d ∷ 0x06 ∷ 0x09 ∷ 0x60 ∷ 0x86 ∷ 0x48 ∷ 0x01 ∷ 0x65 ∷ 0x03 ∷ 0x04 ∷ 0x02
    ∷ 0x02 ∷ 0x05 ∷ 0x00 ∷ 0x04 ∷ 0x30 ∷ [])
pkcs1_prefix sha512 = ok (
    0x30 ∷ 0x51 ∷ 0x30 ∷ 0x0d ∷ 0x06 ∷ 0x09 ∷ 0x60 ∷ 0x86 ∷ 0x48 ∷ 0x01 ∷ 0x65 ∷ 0x03 ∷ 0x04 ∷ 0x02
    ∷ 0x03 ∷ 0x05 ∷ 0x00 ∷ 0x04 ∷ 0x40 ∷ [])
pkcs1_prefix no_hash = err (errorf "unknown hash function")

-- The numbers of CKM_SHA256, CKM_SHA384, CKM_SHA512 and of CKG_MGF1_SHA256, ...
unfoldable pub pss_mechanisms : Hash → Result (ℕ × ℕ)
pss_mechanisms sha256 = ok (0x250, 2)
pss_mechanisms sha384 = ok (0x260, 3)
pss_mechanisms sha512 = ok (0x270, 4)
pss_mechanisms no_hash = err (errorf "unknown hash function")

-- Hash.Size of crypto, for the hashes that pss_mechanisms lets through.
abbrev pub hash_size : Hash → ℕ
hash_size sha256 = 32
hash_size sha384 = 48
hash_size sha512 = 64
hash_size no_hash = 0

-- *rsa.PSSOptions. The salt's length is an int: here its 64-bit pattern, so that -1, which is
-- PSSSaltLengthEqualsHash, is 2^64 - 1.
pub record PssOptions : Type 0 where
  pub salt_length : ℕ
  pub hash : Hash

abbrev pub pss_salt_length_auto : ℕ
pss_salt_length_auto = 0

abbrev pub pss_salt_length_equals_hash : ℕ
pss_salt_length_equals_hash = 2 ^ 64 - 1

module _ {H : Type 0} (ctx : Ctx H) where
  unfoldable pub generate_rsa : Session → ℕ → ℕ → Option KeyOptions → Exec H (Object × Object)
  unfolding append_attr_key_id_pair exponent_octets
  generate_rsa s mod_bits pub_exp opts = do
    templates ←
        append_attr_key_id_pair ctx (pub_template mod_bits pub_exp (options opts))
          (priv_template (options opts))
    keys ←
        or_raise (ctx.generate_key_pair s.raw ckm_rsa_pkcs_key_pair_gen templates.0 templates.1)
          (errorf "could not generate keys")
    pure (object_of s keys.0, object_of s keys.1)

  unfoldable pub import_rsa_private : Session → RsaPrivate → Option KeyOptions → Exec H Object
  unfolding append_attr_key_id exponent_octets two_primes
  import_rsa_private s key opts = do
    primes ← lift (two_primes key.primes)
    tpl ← append_attr_key_id ctx (import_template key primes (options opts))
    k ← or_raise (ctx.create_object s.raw tpl) (errorf "could not import private key")
    pure (object_of s k)

  -- SignInit and Sign, as both kinds of signature do them.
  unfoldable pub signed : Mechanism → Object → Bytes → Exec H Bytes
  signed mech k raw = do
    or_raise (ctx.sign_init k.sess.raw mech k.raw) (errorf "could not begin signing operation")
    or_raise (ctx.sign k.sess.raw raw) (errorf "could not complete signing operation")

  unfoldable pub sign_rsa_pkcs1v15_pre_hashed : Object → Hash → Bytes → Exec H Bytes
  unfolding pkcs1_prefix signed
  sign_rsa_pkcs1v15_pre_hashed k hash hashed = do
    prefix ← lift (pkcs1_prefix hash)
    signed ckm_rsa_pkcs k (prefix ++ hashed)

  -- `switch saltLen`: an int, which wraps when it is converted to uint.
  auto_salt_length : Object → Hash → Exec H ℕ
  auto_salt_length k hash = do
    n ← attr ctx k cka_modulus
    pure ((length n + 2 ^ 64 - (hash_size hash + 2)) % 2 ^ 64)

  unfoldable pub salt_length : Object → PssOptions → Exec H ℕ
  unfolding auto_salt_length
  salt_length k opts =
      if nat_eq opts.salt_length pss_salt_length_auto
      then auto_salt_length k opts.hash
      else if nat_eq opts.salt_length pss_salt_length_equals_hash
      then pure (hash_size opts.hash)
      else pure opts.salt_length

  unfoldable pub sign_rsa_pss_pre_hashed : Object → PssOptions → Bytes → Exec H Bytes
  unfolding pss_mechanisms salt_length signed
  sign_rsa_pss_pre_hashed k opts hashed = do
    mechs ← lift (pss_mechanisms opts.hash)
    salt_len ← salt_length k opts
    signed (ckm_rsa_pkcs_pss mechs.0 mechs.1 salt_len) k hashed

  module _ (digest : Digest) where
    unfoldable pub sign_rsa_pkcs1v15 : Object → Hash → Bytes → Exec H Bytes
    unfolding make_hash sign_rsa_pkcs1v15_pre_hashed
    sign_rsa_pkcs1v15 k hash message = do
      hashed ← lift (make_hash digest hash message)
      sign_rsa_pkcs1v15_pre_hashed k hash hashed

    unfoldable pub sign_rsa_pss : Object → PssOptions → Bytes → Exec H Bytes
    unfolding make_hash sign_rsa_pss_pre_hashed
    sign_rsa_pss k opts message = do
      hashed ← lift (make_hash digest opts.hash message)
      sign_rsa_pss_pre_hashed k opts hashed
