-- ===== src/Pk11/Ecdsa.antt =====
-- src/pk11/ecdsa.go, and the export of public keys in src/pk11/object.go and src/pk11/rsa.go.
pub mod Curves
use opentitan_provisioning.Base.{
  ℕ, ◌/◌, Bool, true, false, not, List, [], ◌∷◌, Option, none, some, Result, ok, err, errorf, panic,
  if◌then◌else◌, nat_eq, length, take, drop, ◌≡◌, ◌↔◌,
}
use opentitan_provisioning.Base.Exec.{Exec, ◌>>=◌, ◌>>◌, pure, raise, or_raise, lift}
use opentitan_provisioning.Base.Dict.{lookup}
use opentitan_provisioning.Proto.{Bytes}
use opentitan_provisioning.Pk11.{
  Ctx, Session, Object, Attribute, KeyOptions, new_attribute, number, flag, octets, cka_key_type,
  cka_ec_params, cka_ec_point, cka_modulus, cka_public_exponent, cka_verify, cka_token, cka_sign,
  cka_sensitive, cka_extractable, cka_class, cka_value, cko_private_key, ckk_ec, ckk_rsa, ckm_ecdsa,
  ckm_ec_key_pair_gen,
}
use opentitan_provisioning.Pk11.Octets.{bytes2uint, set_bytes}
use opentitan_provisioning.Pk11.Connect.{
  Hash, Digest, make_hash, append_attr_key_id, append_attr_key_id_pair,
}
use opentitan_provisioning.Pk11.Find.{object_of, attrs, attr, int, uid, find_public_key, or_nil}
use opentitan_provisioning.Pk11.Secret.{options}
use opentitan_provisioning.Base.{bytes_eq}
use Curves.{Curve, oid, oid2_curve}

-- What the package calls of Go's standard library for keys and signatures: crypto digests, the DER
-- reader for an octet string, and the reader of an uncompressed curve point.
pub record Crypto : Type 0 where
  pub digest : Digest
  pub unmarshal_octets : Bytes → Result Bytes
  pub unmarshal_point : Curve → Bytes → Option (ℕ × ℕ)

-- *rsa.PublicKey and *ecdsa.PublicKey
pub data PublicKey : Type 0 where
  rsa_public : ℕ → ℕ → PublicKey
  ecdsa_public : Curve → ℕ → ℕ → PublicKey

pub record EcdsaPrivate : Type 0 where
  pub curve : Curve
  pub d_bytes : Bytes

-- data[:len(data)/2], data[len(data)/2:]
unfoldable pub halves : Bytes → Bytes × Bytes
halves contents = (take (length contents / 2) contents, drop (length contents / 2) contents)

-- attrs[0].Value, attrs[1].Value
pub two_values : List (Option Bytes) → Result (Bytes × Bytes)
two_values (a ∷ b ∷ rest) = ok (or_nil a, or_nil b)
two_values _ = err (panic "index out of range")

abbrev pub_template : Bytes → KeyOptions → List Attribute
pub_template oid_ opts =
    new_attribute cka_ec_params (octets oid_)
    ∷ new_attribute cka_key_type (number ckk_ec)
    ∷ new_attribute cka_verify (flag true)
    ∷ new_attribute cka_token (flag opts.token)
    ∷ []

abbrev priv_template : KeyOptions → List Attribute
priv_template opts =
    new_attribute cka_key_type (number ckk_ec)
    ∷ new_attribute cka_sign (flag true)
    ∷ new_attribute cka_sensitive (flag opts.sensitive)
    ∷ new_attribute cka_extractable (flag opts.extractable)
    ∷ new_attribute cka_token (flag opts.token)
    ∷ []

-- `d_bytes` is key.D.Bytes().
abbrev import_template : Bytes → EcdsaPrivate → KeyOptions → List Attribute
import_template oid_ key opts =
    new_attribute cka_ec_params (octets oid_)
    ∷ new_attribute cka_value (octets key.d_bytes)
    ∷ new_attribute cka_class (number cko_private_key)
    ∷ new_attribute cka_key_type (number ckk_ec)
    ∷ new_attribute cka_sign (flag true)
    ∷ new_attribute cka_sensitive (flag (not opts.extractable))
    ∷ new_attribute cka_extractable (flag opts.extractable)
    ∷ new_attribute cka_token (flag opts.token)
    ∷ []

-- Every error of SignECDSA is handed on as it is.
module _ {H : Type 0} (ctx : Ctx H) (crypto : Crypto) where
  unfoldable pub sign_ecdsa_pre_hashed : Object → Bytes → Exec H (Bytes × Bytes)
  unfolding halves
  sign_ecdsa_pre_hashed k hashed = do
    or_raise (ctx.sign_init k.sess.raw ckm_ecdsa k.raw) (errorf "could not begin signing operation")
    contents ← or_raise (ctx.sign k.sess.raw hashed) (errorf "could not complete signing operation")
    pure (halves contents)

  unfoldable pub sign_ecdsa : Object → Hash → Bytes → Exec H (Bytes × Bytes)
  unfolding make_hash
  sign_ecdsa k hash message = do
    hashed ← lift (make_hash crypto.digest hash message)
    sign_ecdsa_pre_hashed k hashed

  unfoldable pub generate_ecdsa : Session → Curve → Option KeyOptions → Exec H (Object × Object)
  unfolding oid append_attr_key_id_pair
  generate_ecdsa s curve opts = do
    oid_ ← lift (oid curve)
    templates ←
        append_attr_key_id_pair ctx (pub_template oid_ (options opts))
          (priv_template (options opts))
    keys ←
        or_raise (ctx.generate_key_pair s.raw ckm_ec_key_pair_gen templates.0 templates.1)
          (errorf "could not generate keys")
    pure (object_of s keys.0, object_of s keys.1)

  unfoldable pub import_ecdsa_private : Session → EcdsaPrivate → Option KeyOptions → Exec H Object
  unfolding oid append_attr_key_id
  import_ecdsa_private s key opts = do
    oid_ ← lift (oid key.curve)
    tpl ← append_attr_key_id ctx (import_template oid_ key (options opts))
    k ← or_raise (ctx.create_object s.raw tpl) (errorf "could not import private key")
    pure (object_of s k)

  export_rsa_public_values : Bytes × Bytes → PublicKey
  export_rsa_public_values (n, e) = rsa_public (set_bytes n) (bytes2uint e)

  unfoldable pub export_rsa_public : Object → Exec H PublicKey
  unfolding export_rsa_public_values two_values
  export_rsa_public o = do
    values ←
        or_raise (attrs ctx o (cka_modulus ∷ cka_public_exponent ∷ []))
          (errorf "could not retrieve public key contents")
    pair ← lift (two_values values)
    pure (export_rsa_public_values pair)

  export_point : Curve → Bytes → Result PublicKey
  export_point curve q = elim (crypto.unmarshal_point curve q) [
    | none ↦ err (errorf "could not parse as an uncompressed curve point")
    | some (x, y) ↦ ok (ecdsa_public curve x y)
  ]

  curve_of_oid : Bytes → Result Curve
  unfolding oid2_curve
  curve_of_oid oid_ = elim (lookup oid_ oid2_curve) [
    | none ↦ err (errorf "unknown curve OID")
    | some curve ↦ ok curve
  ]

  unfoldable pub export_ecdsa_public : Object → Exec H PublicKey
  unfolding export_point curve_of_oid two_values
  export_ecdsa_public o = do
    values ←
        or_raise (attrs ctx o (cka_ec_params ∷ cka_ec_point ∷ []))
          (errorf "could not retrieve public key contents")
    pair ← lift (two_values values)
    curve ← lift (curve_of_oid pair.0)
    q ← or_raise (lift (crypto.unmarshal_octets pair.1)) (errorf "could not parse curve point")
    lift (export_point curve q)

  -- (PublicKey).ExportKey
  unfoldable pub export_key : Object → Exec H PublicKey
  export_key k = do
    k_type ← int ctx k cka_key_type
    if nat_eq k_type ckk_rsa
        then export_rsa_public k
        else if nat_eq k_type ckk_ec
        then export_ecdsa_public k
        else raise (errorf "cannot parse key: type")

  -- (PrivateKey).FindPublicKey
  unfoldable pub find_public_key_of : ℕ → Object → Exec H Object
  find_public_key_of fuel k = do id ← uid ctx k; find_public_key ctx fuel k.sess (or_nil id)
