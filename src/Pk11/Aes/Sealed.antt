-- ===== src/Pk11/Aes/Sealed.antt =====
-- Sealing, opening and wrapping in src/pk11/aes.go.
use opentitan_provisioning.Base.{
  ℕ, ◌-◌, ◌≡◌, ◌⊎◌, ◌↔◌, refl, inl, inr, ap, ◌∙◌, sym, [], ◌++◌, length, or_else, or_else-eq-ok, ok,
  err, errorf, arith, take, drop, take-append-drop, length-drop, Bool-cases, ltb, nat_eq, not, true,
  false, Bool, Option, some, none, ◌||◌, ◌%◌,
}
use opentitan_provisioning.Base.Exec.{lift, >>=-eq-ok, continue-eq-ok}
use opentitan_provisioning.Proto.{Bytes}
use opentitan_provisioning.Pk11.{Ctx, Object, ckm_aes_gcm}
use opentitan_provisioning.Pk11.Aes.{
  Key, check_tag_bits, split_iv, wrapped_object, seal_aes_gcm, unseal_aes_gcm, wrap_aes_gcm,
}

-- A tag of 12 to 16 bytes.
abbrev pub IsTagSize : ℕ → Type 0
IsTagSize t = (t ≡ 96) ⊎ (t ≡ 104) ⊎ (t ≡ 112) ⊎ (t ≡ 120) ⊎ (t ≡ 128)

check_tag_bits-IsTagSize : (t : ℕ) → (check_tag_bits t ≡ ok tt) ↔ IsTagSize t
unfolding check_tag_bits
check_tag_bits-IsTagSize t = ground arith

-- An encryption or a decryption with GCM that was begun in a session: the value of its key, and the
-- parameters.
pub record Operation : Type 0 where
  pub decrypting : Bool
  pub key : Bytes
  pub iv : Bytes
  pub aad : Bytes
  pub tag_bits : ℕ

-- A device that does GCM as PKCS#11 prescribes. `seal` and `open_` are authenticated encryption and
-- decryption of GCM, functions of the key's value and the parameters, of which the second inverts the
-- first. An encryption uses the IV that the parameters have after it; a decryption uses the one that it
-- is given. A decryption begins in a session with nothing under way, with a key that has
-- CKA_DECRYPT.
pub record IsAead {H : Type 0} (ctx : Ctx H) : Type 0 where
  pub seal : Bytes → Bytes → Bytes → ℕ → Bytes → Bytes
  pub open_ : Bytes → Bytes → Bytes → ℕ → Bytes → Option Bytes
  pub inverse :
      (key iv aad : Bytes) (t : ℕ) (plain : Bytes)
      → open_ key iv aad t (seal key iv aad t plain) ≡ some plain
  pub value_of : H → ℕ → Option Bytes
  pub decrypts : H → ℕ → Bool
  pub active : H → ℕ → Option Operation
  pub encrypt_begins :
      (s k : ℕ) (iv aad : Bytes) (t : ℕ) (h h' : H)
      → ctx.encrypt_init s (ckm_aes_gcm iv aad t) k h ≡ (ok tt, h')
      → (key : Bytes) × (value_of h k ≡ some key)
        × (active h' s
            ≡ some (record { decrypting = false; key = key; iv = iv; aad = aad; tag_bits = t }))
  pub encrypts :
      (s : ℕ) (key iv aad plain c : Bytes) (t : ℕ) (h h' : H)
      → active h s
        ≡ some (record { decrypting = false; key = key; iv = iv; aad = aad; tag_bits = t })
      → ctx.encrypt s plain h ≡ (ok c, h')
      → c ≡ seal key (ctx.params_iv iv h') aad t plain
  pub decrypt_begins :
      (s k : ℕ) (key iv aad : Bytes) (t : ℕ) (h : H)
      → value_of h k ≡ some key
      → decrypts h k ≡ true
      → active h s ≡ none
      → (h' : H) × (ctx.decrypt_init s (ckm_aes_gcm iv aad t) k h ≡ (ok tt, h'))
        × (active h' s
            ≡ some (record { decrypting = true; key = key; iv = iv; aad = aad; tag_bits = t }))
  pub decrypts_to :
      (s : ℕ) (key iv aad c plain : Bytes) (t : ℕ) (h : H)
      → active h s
        ≡ some (record { decrypting = true; key = key; iv = iv; aad = aad; tag_bits = t })
      → open_ key iv aad t c ≡ some plain
      → (ctx.decrypt s c h).0 ≡ ok plain

module _ {H : Type 0} (ctx : Ctx H) where
  -- A tag of any other size than 12 to 16 bytes is refused before the device is called, for sealing
  -- and for opening alike.
  pub seal_aes_gcm-refused :
      (k : Object) (iv aad b : Bytes) (t : ℕ) (h : H)
      → (IsTagSize t → ⊥)
      → (seal_aes_gcm ctx k iv aad t b h
          ≡ (err (errorf "tagBits must be a multiple of 8 between 96 and 128"), h))
        × (unseal_aes_gcm ctx k iv aad t b h
            ≡ (err (errorf "tagBits must be a multiple of 8 between 96 and 128"), h))
  unfolding seal_aes_gcm unseal_aes_gcm
  seal_aes_gcm-refused k iv aad b t h wrong =
      let bad : (not (nat_eq (t % 8) 0) || ltb t 96 || ltb 128 t) ≡ true = ground arith in
      rw bad (refl, refl)

  split_iv-append :
      (ciph cipher iv : Bytes)
      → split_iv ciph ≡ ok (cipher, iv)
      → (cipher ++ iv ≡ ciph) × (length iv ≡ 16)
  unfolding split_iv
  split_iv-append ciph cipher iv e = elim (Bool-cases (ltb (length ciph) 16)) [
    | inl short ↦ absurd (ground (arith, short, e))
    | inr long ↦
        let n = length ciph - 16 in
        let front : take n ciph ≡ cipher = ground (arith, long, e) in
        let back : drop n ciph ≡ iv = ground (arith, long, e) in
        (cc (take-append-drop n ciph), ground (arith, long, back, length-drop n ciph))
  ]

  -- What WrapAESGCM returns is the device's answer for a secret or a private key, cut in two: its
  -- last 16 bytes are the IV.
  pub wrap_aes_gcm-eq-ok :
      (k : Object) (key : Key) (cipher iv : Bytes) (h after : H)
      → wrap_aes_gcm ctx k key h ≡ (ok (cipher, iv), after)
      → (o : Object) × (wrapped_object key ≡ ok o)
        × (ctx.wrap_key k.sess.raw (ckm_aes_gcm [] [] 128) k.raw o.raw h
            ≡ (ok (cipher ++ iv), after))
        × (length iv ≡ 16)
  unfolding wrap_aes_gcm
  wrap_aes_gcm-eq-ok k key cipher iv h after e =
      let (o, wraps, e1) = >>=-eq-ok (lift (wrapped_object key)) _ h e in
      let answer = ctx.wrap_key k.sess.raw (ckm_aes_gcm [] [] 128) k.raw o.raw h in
      let (ciph, found, e2) = continue-eq-ok (or_else answer.0 _) _ _ e1 in
      let (whole, n) = split_iv-append ciph cipher iv (ap (λ p. p.0) e2) in
      (o, wraps, (λ i. ((or_else-eq-ok answer.0 _ found ∙ ap ok (sym whole)) i, (e2 i).1)), n)
