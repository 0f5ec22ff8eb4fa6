-- ===== src/Utils.antt =====
-- src/utils/utils.go: files, configurations, passwords and texts. What the operating system and the
-- libraries do is a parameter.
pub mod Bits
pub mod Passwords
pub mod Texts
mod Tests
use opentitan_provisioning.Base.{
  ℕ, zero, suc, ◌+◌, ◌-◌, ◌*◌, ◌/◌, ◌%◌, Bool, true, false, String, List, [], ◌∷◌, length, nat_eq,
  not, Option, none, some, Result, ok, err, errorf, status, internal, or_else, if◌then◌else◌,
}
use opentitan_provisioning.Base.Exec.{Exec, ◌>>=◌, ◌>>◌, pure, raise, or_raise, lift}
use opentitan_provisioning.Base.Text.{bytes_of}
use opentitan_provisioning.Proto.{Bytes}
use Bits.{xor}

-- What the program asks of the operating system, the state `H` being all that is outside. `text_of`
-- is Go's conversion of bytes to a string.
pub record Os (H : Type 0) : Type 0 where
  pub not_exist : String → H → Bool
  pub read_file : String → Exec H Bytes
  pub lookup_env : String → H → Option String
  pub join : String → String → String
  pub text_of : Bytes → String

module _ {H : Type 0} (os : Os H) where
  unfoldable pub read_file : String → Exec H Bytes
  read_file filename h =
      if os.not_exist filename h
      then (err (errorf "file does not exist"), h)
      else os.read_file filename h

  unfoldable pub read_file_from_dir : String → String → Exec H Bytes
  read_file_from_dir config_dir filename =
      or_raise (read_file (os.join config_dir filename)) (errorf "unable to read file")

  -- The YAML decoder is that of the wanted type. None of the program's configuration types has a
  -- `default` tag, so that setDefaults changes nothing.
  unfoldable pub load_config : {A : Type 0} → (Bytes → Result A) → String → String → Exec H A
  load_config unmarshal config_dir config_file = do
    yaml_data ←
        or_raise (read_file_from_dir config_dir config_file)
          (errorf "failed to load configuration file")
    or_raise (lift (unmarshal yaml_data)) (errorf "failed to unmarshal configuration file")

  unfoldable pub load_cert_from_file : (Bytes → Result Bytes) → String → String → Exec H Bytes
  load_cert_from_file parse_certificate config_dir filename = do
    cert ←
        or_raise (read_file_from_dir config_dir filename) (errorf "unable to read certificate file")
    or_raise (lift (parse_certificate cert)) (errorf "unable to parse certificate")

-- bcrypt.CompareHashAndPassword is the parameter.
unfoldable pub compare_hash_and_password :
    (Bytes → Bytes → Result (Unit {0})) → String → String → Result (Unit {0})
compare_hash_and_password compare hashed_password password =
    or_else (compare (bytes_of hashed_password) (bytes_of password))
      (status internal "compare hash fail")

-- result[i] = a[i] ^ b[i], for slices of one length
pub xor_bytes : Bytes → Bytes → Bytes
xor_bytes [] bs = []
xor_bytes (a ∷ as_) [] = []
xor_bytes (a ∷ as_) (b ∷ bs) = xor 8 a b ∷ xor_bytes as_ bs

unfoldable pub calc_xor_byte_arrays : Bytes → Bytes → Result Bytes
unfolding xor_bytes
calc_xor_byte_arrays a b =
    if not (nat_eq (length a) (length b))
    then err (errorf "byte arrays must have the same length")
    else ok (xor_bytes a b)

-- `Base64Encode` and the bcrypt hash are parameters. The error of GenerateHashFromPassword is
-- dropped: the hash is then the empty text.
unfoldable pub calc_hash_pw :
    (Bytes → String)
    → (Bytes → Result Bytes)
    → (Bytes → String)
    → Bytes
    → Bytes
    → Result (String × String)
calc_hash_pw base64_encode generate_hash text_of a b = elim (calc_xor_byte_arrays a b) [
  | err _ ↦ err (errorf "could not complete the xor operation")
  | ok xor_result ↦
      let base64_password = base64_encode xor_result in
      elim (generate_hash (bytes_of base64_password)) [
        | ok hash ↦ ok (base64_password, text_of hash)
        | err _ ↦ ok (base64_password, "")
      ]
]
