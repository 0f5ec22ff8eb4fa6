-- ===== src/Pk11/Keys.antt =====
-- What src/pk11/object.go, pk11.go, rsa.go and ecdsa.go do with keys of every kind: import, export,
-- signers of Go's crypto.Signer, and the calls of a session that concern no search.
use opentitan_provisioning.Base.{
  ℕ, String, List, [], ◌∷◌, Option, Result, ok, err, errorf, panic, hangs, if◌then◌else◌, nat_eq,
}
use opentitan_provisioning.Base.Exec.{Exec, ◌>>=◌, ◌>>◌, pure, raise, or_raise, lift}
use opentitan_provisioning.Proto.{Bytes}
use opentitan_provisioning.Pk11.{
  Ctx, Session, Object, KeyOptions, cka_key_type, cka_value, cka_private_exponent, cka_prime_1,
  cka_prime_2, ckk_rsa, ckk_ec, ckk_aes,
}
use opentitan_provisioning.Pk11.Octets.{set_bytes}
use opentitan_provisioning.Pk11.Connect.{
  UserType, normal_user, security_officer_user, other_user, Hash, Digest, make_hash,
}
use opentitan_provisioning.Pk11.Find.{attr, attrs, int, or_nil}
use opentitan_provisioning.Pk11.Ecdsa.{
  Crypto, PublicKey, EcdsaPrivate, rsa_public, ecdsa_public, export_key, export_rsa_public,
  export_ecdsa_public, find_public_key_of, import_ecdsa_private, sign_ecdsa_pre_hashed,
}
use opentitan_provisioning.Pk11.Ecdsa.Curves.{Curve}
use opentitan_provisioning.Pk11.Rsa.{
  RsaPrivate, PssOptions, import_rsa_private, sign_rsa_pss_pre_hashed, sign_rsa_pkcs1v15_pre_hashed,
}
use opentitan_provisioning.Pk11.Aes.{Key, private_key, secret_key, import_aes_raw}

-- (UserType).String
unfoldable pub user_type_string : UserType → String
user_type_string normal_user = "normal user"
user_type_string security_officer_user = "security officer"
user_type_string other_user = "unknown"

unfoldable pub compute_hash : Digest → Hash → Bytes → Result Bytes
unfolding make_hash
compute_hash digest hash message = make_hash digest hash message

-- The keys of Go's crypto packages that ImportKey takes; the last case is any other type.
pub data GoKey : Type 0 where
  go_rsa : RsaPrivate → GoKey
  go_ecdsa : EcdsaPrivate → GoKey
  go_aes : Bytes → GoKey
  other_key : GoKey

-- The private keys that are exported: the public part, and D with the primes, or D.
pub data PrivateParts : Type 0 where
  rsa_parts : PublicKey → ℕ → ℕ → ℕ → PrivateParts
  ecdsa_parts : PublicKey → ℕ → PrivateParts

-- type RSASigner and type ECDSASigner
pub data Signer : Type 0 where
  rsa_signer : ℕ → ℕ → Object → Signer
  ecdsa_signer : Curve → ℕ → ℕ → Object → Signer

-- crypto.SignerOpts: *rsa.PSSOptions, or any other with its hash.
pub data SignerOpts : Type 0 where
  pss : PssOptions → SignerOpts
  hash_func : Hash → SignerOpts

-- attrs[0].Value, attrs[1].Value, attrs[2].Value as numbers
pub three_numbers : List (Option Bytes) → Result (ℕ × ℕ × ℕ)
three_numbers (a ∷ b ∷ c ∷ rest) =
    ok (set_bytes (or_nil a), set_bytes (or_nil b), set_bytes (or_nil c))
three_numbers _ = err (panic "index out of range")

abbrev pub with_parts : PublicKey → ℕ × ℕ × ℕ → PrivateParts
with_parts public (d, p, q) = rsa_parts public d p q

-- The type assertions on what ExportKey has returned.
unfoldable pub expect_rsa : Object → PublicKey → Result Signer
expect_rsa k (rsa_public n e) = ok (rsa_signer n e k)
expect_rsa k (ecdsa_public _ _ _) = err (errorf "expected *rsa.PublicKey, got something else")

unfoldable pub expect_ecdsa : Object → PublicKey → Result Signer
expect_ecdsa k (ecdsa_public curve x y) = ok (ecdsa_signer curve x y k)
expect_ecdsa k (rsa_public _ _) = err (errorf "expected *ecdsa.PublicKey, got something else")

-- (RSASigner).Public and (ECDSASigner).Public
abbrev pub public_of : Signer → PublicKey
public_of (rsa_signer n e k) = rsa_public n e
public_of (ecdsa_signer curve x y k) = ecdsa_public curve x y

module _ {H : Type 0} (ctx : Ctx H) where
  unfoldable pub generate_random : Session → ℕ → Exec H Bytes
  generate_random s length = ctx.generate_random s.raw length

  -- An error of Logout is a panic.
  unfoldable pub logged_out : Result (Unit {0}) → Result (Unit {0})
  logged_out (ok u) = ok tt
  logged_out (err hangs) = err hangs
  logged_out (err e) = err (panic "could not log out of token in slot")

  unfoldable pub logout : Session → Exec H (Unit {0})
  unfolding logged_out
  logout s h = (logged_out (ctx.logout s.raw h).0, (ctx.logout s.raw h).1)

  -- A key pair is the public and the private object.
  unfoldable pub destroy_key_pair_object : Session → Object × Object → Exec H (Unit {0})
  destroy_key_pair_object s kp = do
    or_raise (ctx.destroy_object s.raw kp.1.raw) (errorf "could not remove private object")
    or_raise (ctx.destroy_object s.raw kp.0.raw) (errorf "could not remove private object")

  import_as : (Object → Key) → Exec H Object → Exec H Key
  import_as kind imported = do o ← imported; pure (kind o)

  -- (SecretKey).ExportKey
  unfoldable pub export_secret_key : Object → Exec H Bytes
  export_secret_key k = do
    k_type ← int ctx k cka_key_type
    if nat_eq k_type ckk_aes then attr ctx k cka_value else raise (errorf "cannot parse key: type")

  -- The public part comes from the private object itself.
  unfoldable pub export_rsa_private : Crypto → Object → Exec H PrivateParts
  unfolding three_numbers
  export_rsa_private crypto o = do
    public ← export_rsa_public ctx crypto o
    values ←
        or_raise (attrs ctx o (cka_private_exponent ∷ cka_prime_1 ∷ cka_prime_2 ∷ []))
          (errorf "could not retrieve private key components")
    parts ← lift (three_numbers values)
    pure (with_parts public parts)

-- `fuel` bounds the search for the public key, `marshal` is asn1.Marshal of a signature.
module _ {H : Type 0} (ctx : Ctx H) (crypto : Crypto) (fuel : ℕ) where
  unfoldable pub import_key : Session → GoKey → Option KeyOptions → Exec H Key
  unfolding import_as
  import_key s (go_rsa k) opts = import_as ctx private_key (import_rsa_private ctx s k opts)
  import_key s (go_ecdsa k) opts =
      import_as ctx private_key (import_ecdsa_private ctx crypto s k opts)
  import_key s (go_aes k) opts = import_as ctx secret_key (import_aes_raw ctx s k opts)
  import_key s other_key opts = raise (errorf "unknown key type")

  unfoldable pub export_ecdsa_private : Object → Exec H PrivateParts
  export_ecdsa_private o = do
    pub_obj ← find_public_key_of ctx crypto fuel o
    public ← export_ecdsa_public ctx crypto pub_obj
    d ← or_raise (attr ctx o cka_value) (errorf "could not retrieve private key components")
    pure (ecdsa_parts public (set_bytes d))

  -- (PrivateKey).ExportKey
  unfoldable pub export_private_key : Object → Exec H PrivateParts
  unfolding export_ecdsa_private
  export_private_key k = do
    k_type ← int ctx k cka_key_type
    if nat_eq k_type ckk_rsa
        then export_rsa_private ctx crypto k
        else if nat_eq k_type ckk_ec
        then export_ecdsa_private k
        else raise (errorf "cannot parse key: type")

  unfoldable pub new_rsa_signer : Object → Exec H Signer
  unfolding expect_rsa
  new_rsa_signer k = do
    public ← find_public_key_of ctx crypto fuel k
    export ← export_key ctx crypto public
    lift (expect_rsa k export)

  unfoldable pub new_ecdsa_signer : Object → Exec H Signer
  unfolding expect_ecdsa
  new_ecdsa_signer k = do
    public ← find_public_key_of ctx crypto fuel k
    export ← export_key ctx crypto public
    lift (expect_ecdsa k export)

  -- (PrivateKey).Signer
  unfoldable pub signer : Object → Exec H Signer
  unfolding new_rsa_signer new_ecdsa_signer
  signer k = do
    k_type ← int ctx k cka_key_type
    if nat_eq k_type ckk_rsa
        then new_rsa_signer k
        else if nat_eq k_type ckk_ec
        then new_ecdsa_signer k
        else raise (errorf "not a known private key type")

module _ {H : Type 0} (ctx : Ctx H) (crypto : Crypto) (marshal : ℕ → ℕ → Result Bytes) where
  -- (RSASigner).Sign
  unfoldable pub rsa_sign : Object → Bytes → SignerOpts → Exec H Bytes
  rsa_sign k digest (pss opts) = sign_rsa_pss_pre_hashed ctx k opts digest
  rsa_sign k digest (hash_func hash) = sign_rsa_pkcs1v15_pre_hashed ctx k hash digest

  -- (ECDSASigner).Sign
  unfoldable pub ecdsa_sign : Object → Bytes → Exec H Bytes
  ecdsa_sign k digest = do
    halves ← sign_ecdsa_pre_hashed ctx crypto k digest
    lift (marshal (set_bytes halves.0) (set_bytes halves.1))

  unfoldable pub sign : Signer → Bytes → SignerOpts → Exec H Bytes
  unfolding rsa_sign ecdsa_sign
  sign (rsa_signer n e k) digest opts = rsa_sign k digest opts
  sign (ecdsa_signer curve x y k) digest opts = ecdsa_sign k digest
