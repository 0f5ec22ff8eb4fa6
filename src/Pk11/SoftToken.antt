-- ===== src/Pk11/SoftToken.antt =====
-- A small PKCS#11 token in software, for concrete runs: every search finds the one handle 7, every
-- key is a P-256 key, and every signature is the same 32 bytes. An operation belongs to its session.
use opentitan_provisioning.Base.{
  ℕ, ℕ_eq, ◌≡◌, arith, nat_eq_iff, Bool, true, false, if◌then◌else◌, List, none, err, errorf, Error,
  [], ◌∷◌, map, Option, some, ok, take, drop, replicate, ◌++◌, ◌-◌, length,
}
use opentitan_provisioning.Base.Exec.{Exec}
use opentitan_provisioning.Base.Dict.{
  Dict, lookup, insert, delete, lookup-insert_self, lookup-delete,
}
use opentitan_provisioning.Proto.{Bytes}
use opentitan_provisioning.Pk11.{
  Ctx, Session, AttributeType, Mechanism, ckm_aes_gcm, cka_key_type, cka_ec_params,
}
use opentitan_provisioning.Pk11.Ecdsa.{Crypto}
use opentitan_provisioning.Pk11.Find.Search.{IsSearch}

-- An encryption or decryption with GCM that was begun.
pub record GcmOperation : Type 0 where
  pub decrypting : Bool
  pub key : Bytes
  pub iv : Bytes
  pub aad : Bytes
  pub tag_bits : ℕ

-- What is under way in each session: a search, with the handles that were not returned yet, a signature
-- with a key, an encryption or a decryption.
pub record Token : Type 0 where
  pub searches : Dict ℕ (List ℕ)
  pub signatures : Dict ℕ ℕ
  pub ciphers : Dict ℕ GcmOperation

abbrev operation_active : Error
operation_active = errorf "CKR_OPERATION_ACTIVE"

abbrev not_initialized : Error
not_initialized = errorf "CKR_OPERATION_NOT_INITIALIZED"

abbrev pub soft_find_init : ℕ → Exec Token (Unit {0})
soft_find_init s h = elim (lookup s h.searches) [
  | some _ ↦ (err operation_active, h)
  | none ↦ (ok tt, record h { searches = insert s (7 ∷ []) h.searches })
]

abbrev pub soft_find : ℕ → ℕ → Exec Token (List ℕ)
soft_find s n h = elim (lookup s h.searches) [
  | none ↦ (err not_initialized, h)
  | some p ↦ (ok (take n p), record h { searches = insert s (drop n p) h.searches })
]

abbrev pub soft_find_final : ℕ → Exec Token (Unit {0})
soft_find_final s h = elim (lookup s h.searches) [
  | none ↦ (err not_initialized, h)
  | some _ ↦ (ok tt, record h { searches = delete s h.searches })
]

abbrev pub soft_sign_init : ℕ → ℕ → Exec Token (Unit {0})
soft_sign_init s key h = elim (lookup s h.signatures) [
  | some _ ↦ (err operation_active, h)
  | none ↦ (ok tt, record h { signatures = insert s key h.signatures })
]

-- The value of every key.
abbrev pub soft_value : Bytes
soft_value = 7 ∷ []

abbrev pub soft_cipher_init : Bool → ℕ → Mechanism → Exec Token (Unit {0})
soft_cipher_init decrypting s (ckm_aes_gcm iv aad tag_bits) h = elim (lookup s h.ciphers) [
  | some _ ↦ (err operation_active, h)
  | none ↦ (
    ok tt,
    record h {
      ciphers =
          insert s
            (record {
              decrypting = decrypting;
              key = soft_value;
              iv = iv;
              aad = aad;
              tag_bits = tag_bits;
            })
            h.ciphers;
    },
  )
]
soft_cipher_init decrypting s _ h = (err (errorf "CKR_MECHANISM_INVALID"), h)

abbrev pub value_of : AttributeType → Option Bytes
value_of cka_key_type = some (3 ∷ [])
value_of cka_ec_params =
    some (0x06 ∷ 0x08 ∷ 0x2a ∷ 0x86 ∷ 0x48 ∷ 0xce ∷ 0x3d ∷ 0x03 ∷ 0x01 ∷ 0x07 ∷ [])
value_of _ = some (1 ∷ [])

abbrev pub mac : Bytes
mac = replicate 32 5

abbrev pub soft_sign : ℕ → Exec Token Bytes
soft_sign s h = elim (lookup s h.signatures) [
  | none ↦ (err not_initialized, h)
  | some _ ↦ (ok mac, record h { signatures = delete s h.signatures })
]

-- The ciphertext is the plaintext with a block after it.
abbrev pub soft_cipher : ℕ → Bytes → Exec Token Bytes
soft_cipher s b h = elim (lookup s h.ciphers) [
  | none ↦ (err not_initialized, h)
  | some operation ↦ (
    ok (if operation.decrypting then take (length b - 32) b else b ++ mac),
    record h { ciphers = delete s h.ciphers },
  )
]

abbrev pub soft_token : Ctx Token
soft_token = record {
  new_ctx = λ _. true;
  initialize = λ h. (ok tt, h);
  get_info = λ h. (ok 3, h);
  major = 3;
  next_id = λ h. (11, h);
  get_slot_list = λ h. (ok (4 ∷ []), h);
  open_session = λ _ h. (ok 1, h);
  login = λ _ _ _ h. (ok tt, h);
  find_objects_init = λ s _. soft_find_init s;
  find_objects = soft_find;
  find_objects_final = soft_find_final;
  get_attribute_value = λ _ _ types h. (ok (map value_of types), h);
  set_attribute_value = λ _ _ _ h. (ok tt, h);
  destroy_object = λ _ _ h. (ok tt, h);
  generate_key = λ _ _ _ h. (ok 8, h);
  generate_key_pair = λ _ _ _ _ h. (ok (8, 9), h);
  create_object = λ _ _ h. (ok 8, h);
  sign_init = λ s _ key. soft_sign_init s key;
  sign = λ s _. soft_sign s;
  wrap_key = λ _ _ _ _ h. (ok (6 ∷ 6 ∷ []), h);
  unwrap_key = λ _ _ _ _ _ h. (ok 8, h);
  encrypt_init = λ s m _. soft_cipher_init false s m;
  encrypt = soft_cipher;
  decrypt_init = λ s m _. soft_cipher_init true s m;
  decrypt = soft_cipher;
  params_iv = λ iv h. iv;
  generate_random = λ _ n h. (ok (replicate n 5), h);
  logout = λ _ h. (ok tt, h);
}

abbrev pub soft_crypto : Crypto
soft_crypto = record {
  digest = λ _ _. ok (9 ∷ []);
  unmarshal_octets = λ b. ok b;
  unmarshal_point = λ _ _. some (3, 4);
}

abbrev pub idle : Token
idle = record { searches = []; signatures = []; ciphers = [] }

abbrev pub first_session : Session
first_session = record { slot = 4; raw = 1 }

abbrev pub second_session : Session
second_session = record { slot = 4; raw = 2 }

abbrev pub soft_searching : Token → ℕ → Option (List ℕ)
soft_searching h s = lookup s h.searches

pub soft_found :
    (s n : ℕ) (h : Token) (p : List ℕ)
    → soft_searching h s ≡ some p
    → (soft_find s n h).0 ≡ ok (take n p)
soft_found s n h p e = ground (arith, e)

pub soft_rest :
    (s n : ℕ) (h : Token) (p : List ℕ)
    → soft_searching h s ≡ some p
    → soft_searching (soft_find s n h).1 s ≡ some (drop n p)
soft_rest s n h p e = ground (arith, e, lookup-insert_self s (drop n p) h.searches)

pub soft_ends :
    (s : ℕ) (h : Token) (p : List ℕ) → soft_searching h s ≡ some p → (soft_find_final s h).0 ≡ ok tt
soft_ends s h p e = ground (arith, e)

pub soft_over :
    (s : ℕ) (h : Token) (p : List ℕ)
    → soft_searching h s ≡ some p
    → soft_searching (soft_find_final s h).1 s ≡ none
soft_over s h p e = ground (arith, e, lookup-delete s s h.searches, nat_eq_iff s s)

abbrev pub soft_search : IsSearch soft_token
soft_search = record {
  searching = soft_searching;
  found = soft_found;
  rest = soft_rest;
  ends = soft_ends;
  over = soft_over;
}
