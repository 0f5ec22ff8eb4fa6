-- ===== src/Pk11/KeyTests.antt =====
-- Concrete runs of the models of src/pk11/rsa.go and src/pk11/aes.go.
use opentitan_provisioning.Base.{
  Option, Bool, none, some, true, false, ℕ_eq, Option-cases, inl, inr, if◌then◌else◌, subst, ℕ, ◌-◌,
  ◌≡◌, ◌↔◌, refl, ap, arith, [], ◌∷◌, ◌++◌, reverse, ok, length, length-append, take, replicate,
  ◌∙◌,
}
use opentitan_provisioning.Proto.{Bytes}
use opentitan_provisioning.Pk11.{Ctx, Object, ckm_rsa_pkcs, ckm_aes_gcm}
use opentitan_provisioning.Pk11.Octets.{bytes2uint}
use opentitan_provisioning.Pk11.Connect.{sha256}
use opentitan_provisioning.Pk11.Find.{object_of}
use opentitan_provisioning.Pk11.Rsa.{exponent_octets, signed, sign_rsa_pkcs1v15_pre_hashed}
use opentitan_provisioning.Pk11.Rsa.DigestInfo.{
  digest_info, sign_rsa_pkcs1v15_pre_hashed-digest_info,
}
use opentitan_provisioning.Pk11.Rsa.Exponent.{exponent_octets-palindrome_iff}
use opentitan_provisioning.Pk11.Aes.Sealed.{IsAead, Operation}
use opentitan_provisioning.Pk11.SoftToken.{
  Token, GcmOperation, soft_token, soft_value, soft_cipher_init, soft_cipher, idle, first_session,
  mac,
}
use opentitan_provisioning.Base.Dict.{lookup, lookup-insert_self}

abbrev seven : Object
seven = object_of first_session 7

sign_rsa_pkcs1v15_pre_hashed-digest_info_example :
    sign_rsa_pkcs1v15_pre_hashed soft_token seven sha256 (replicate 32 9) idle
    ≡ signed soft_token ckm_rsa_pkcs seven (digest_info sha256 (replicate 32 9)) idle
sign_rsa_pkcs1v15_pre_hashed-digest_info_example =
    sign_rsa_pkcs1v15_pre_hashed-digest_info soft_token seven sha256 (replicate 32 9) idle (λ e. cc)
      refl

-- 65537 comes back, and 257 + 256 * 256 * 2 does not.
exponent_65537 : bytes2uint (exponent_octets 65537) ≡ 65537
unfolding bytes2uint exponent_octets
exponent_65537 = refl

exponent_other : bytes2uint (exponent_octets 0x020101) ≡ 0x010102
unfolding bytes2uint exponent_octets
exponent_other = refl

exponent_octets-palindrome_iff_example :
    (bytes2uint (exponent_octets 65537) ≡ 65537)
    ↔ (reverse (exponent_octets 65537) ≡ exponent_octets 65537)
exponent_octets-palindrome_iff_example = exponent_octets-palindrome_iff 65537 (omega arith)

take_front : (xs ys : Bytes) → take (length xs) (xs ++ ys) ≡ xs
take_front [] ys = refl
take_front (x ∷ xs) ys = ap (λ r. x ∷ r) (take_front xs ys)

soft_open : (plain : Bytes) → take (length (plain ++ mac) - 32) (plain ++ mac) ≡ plain
soft_open plain =
    ap (λ n. take n (plain ++ mac)) (omega (arith, length-append plain mac)) ∙ take_front plain mac

abbrev active_of : Option GcmOperation → Option Operation
active_of none = none
active_of (some o) = some (record {
  decrypting = o.decrypting;
  key = o.key;
  iv = o.iv;
  aad = o.aad;
  tag_bits = o.tag_bits;
})

abbrev soft_active : Token → ℕ → Option Operation
soft_active h s = active_of (lookup s h.ciphers)

begun :
    (decrypting : Bool) (s : ℕ) (iv aad : Bytes) (t : ℕ) (h h' : Token)
    → soft_cipher_init decrypting s (ckm_aes_gcm iv aad t) h ≡ (ok tt, h')
    → soft_active h' s
      ≡ some
          (record { decrypting = decrypting; key = soft_value; iv = iv; aad = aad; tag_bits = t })
begun decrypting s iv aad t h h' e = elim (Option-cases (lookup s h.ciphers)) [
  | inr (o, busy) ↦ absurd (ground (arith, busy, e))
  | inl free ↦ ground (
    arith,
    free,
    e,
    lookup-insert_self s
        (record { decrypting = decrypting; key = soft_value; iv = iv; aad = aad; tag_bits = t })
        h.ciphers,
  )
]

free_of : (o : Option GcmOperation) → active_of o ≡ none → o ≡ none
free_of none e = refl
free_of (some o) e = cc

begins :
    (s : ℕ) (iv aad : Bytes) (t : ℕ) (h : Token)
    → soft_active h s ≡ none
    → (soft_cipher_init true s (ckm_aes_gcm iv aad t) h).0 ≡ ok tt
begins s iv aad t h idle_ = ground (arith, free_of (lookup s h.ciphers) idle_)

ciphered :
    (s : ℕ) (o : Operation) (b c : Bytes) (h h' : Token)
    → soft_active h s ≡ some o
    → soft_cipher s b h ≡ (ok c, h')
    → c ≡ (if o.decrypting then take (length b - 32) b else b ++ mac)
ciphered s o b c h h' active e = elim (Option-cases (lookup s h.ciphers)) [
  | inl free ↦ absurd (ground (arith, free, active))
  | inr (x, busy) ↦ ground (arith, busy, active, e)
]

answers :
    (s : ℕ) (o : Operation) (b : Bytes) (h : Token)
    → soft_active h s ≡ some o
    → (c : Bytes) × ((soft_cipher s b h).0 ≡ ok c)
answers s o b h active = elim (Option-cases (lookup s h.ciphers)) [
  | inl free ↦ absurd (ground (arith, free, active))
  | inr (x, busy) ↦
      (if x.decrypting then take (length b - 32) b else b ++ mac, ground (arith, busy))
]

abbrev soft_opened : Bytes → Bytes
soft_opened c = take (length c - 32) c

bytes_of_some : {a b : Bytes} → some a ≡ some b → a ≡ b
bytes_of_some h = cc

abbrev soft_aead : IsAead soft_token
soft_aead = record {
  seal = λ key iv aad t plain. plain ++ mac;
  open_ = λ key iv aad t c. some (soft_opened c);
  inverse = λ key iv aad t plain. ap some (soft_open plain);
  value_of = λ h k. some soft_value;
  decrypts = λ h k. true;
  active = soft_active;
  encrypt_begins = λ s k iv aad t h h' e. (soft_value, refl, begun false s iv aad t h h' e);
  encrypts = λ s key iv aad plain c t h h' active e. ciphered s _ plain c h h' active e;
  decrypt_begins = λ s k key iv aad t h same may idle_.
      let started = soft_cipher_init true s (ckm_aes_gcm iv aad t) h in
      let ran : started ≡ (ok tt, started.1) = λ i. (begins s iv aad t h idle_ i, started.1) in
      (
        started.1,
        ran,
        subst
            (λ v.
              soft_active started.1 s
              ≡ some (record { decrypting = true; key = v; iv = iv; aad = aad; tag_bits = t }))
            (bytes_of_some same) (begun true s iv aad t h started.1 ran),
      );
  decrypts_to = λ s key iv aad c plain t h active opens.
      let (b, e) = answers s _ c h active in
      e
      ∙ ap ok (
          ciphered s _ c b h (soft_cipher s c h).1 active (λ i. (e i, (soft_cipher s c h).1))
          ∙ bytes_of_some opens);
}

abbrev message : Bytes
message = 1 ∷ 2 ∷ 3 ∷ []

-- A device whose answer has a block after the IV's 16 bytes.
abbrev wrapping_token : Ctx Token
wrapping_token = record soft_token { wrap_key = λ _ _ _ _ h. (ok (6 ∷ replicate 16 5), h) }
