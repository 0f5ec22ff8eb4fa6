-- ===== src/Spm/Hsm/Tokens/Reproducible.antt =====
-- GenerateTokens on stored seeds, against the function that the tokens are meant to be.
use opentitan_provisioning.Base.{
  ℕ, suc, ◌≤◌, ◌<◌, ◌≡◌, ◌⊎◌, refl, sym, ap, ◌∙◌, arith, String_eq, List, [], ◌∷◌, ◌++◌, map,
  length, take, nat_eq, some, ok, All, if◌then◌else◌,
}
use opentitan_provisioning.Base.Dict.{lookup}
use opentitan_provisioning.Base.Text.{bytes_of}
use opentitan_provisioning.Proto.{Bytes}
use opentitan_provisioning.Pk11.{Ctx, Session}
use opentitan_provisioning.Pk11.Secret.{sign_hmac256}
use opentitan_provisioning.Pk11.Find.{or_nil, find_secret_key, object_of}
use opentitan_provisioning.Spm.SecureElement.{
  TokenParams, TokenResult, TokenOp, token_op_raw, token_op_hashed_ot_lc_token,
  token_type_security_hi, token_type_security_lo, wrapping_none,
}
use opentitan_provisioning.Spm.SessionQueue.Commands.{execute_cmd-value}
use opentitan_provisioning.Spm.Hsm.{Hsm, or_error}
use opentitan_provisioning.Spm.Hsm.Tokens.{
  CShake128, unsupported, truncated, hashed, wrap_choice, seed_of, wrapped_seed, raw_data,
  supported_token, token, all_tokens, generate_tokens,
}
use opentitan_provisioning.Spm.Hsm.Tokens.KeyStore.{
  IsKeyStore, IsReady, find_secret_key-value, sign_hmac256-value,
}

-- The operation on the bytes of a token, at their own length.
pub finished : CShake128 → TokenOp → Bytes → Bytes
finished cshake token_op_raw t = t
finished cshake token_op_hashed_ot_lc_token t = cshake "" "LC_CTRL" t (length t)

-- The token of a stored seed, given by its identifier.
unfoldable pub stored_token :
    CShake128 → (Bytes → Bytes → Bytes) → Bytes → TokenParams → TokenResult
unfolding finished bytes_of
stored_token cshake mac uid p =
    let m = mac uid (bytes_of p.sku ++ bytes_of p.diversifier) in
    record {
      token = finished cshake p.op (if nat_eq p.size_in_bits 128 then take 16 m else m);
      wrapped_key = [];
      diversifier = p.diversifier;
    }

hashed-finished :
    (cshake : CShake128) (op : TokenOp) (t : Bytes) → hashed cshake op t ≡ finished cshake op t
unfolding hashed finished
hashed-finished cshake token_op_raw t = refl
hashed-finished cshake token_op_hashed_ot_lc_token t = refl

-- A request for a token of a stored seed, whose label is configured and whose key the device has.
pub record IsStored {H : Type 0} {ctx : Ctx H} (store : IsKeyStore ctx) (hsm : Hsm)
    (p : TokenParams) : Type 0 where
  pub uid : Bytes
  pub typ : (p.typ ≡ token_type_security_hi) ⊎ (p.typ ≡ token_type_security_lo)
  pub wrap : p.wrap ≡ wrapping_none
  pub label : lookup p.seed_label hsm.symmetric_keys ≡ some uid
  pub known : store.Known uid

truncated-value :
    (n : ℕ) (b : Bytes) → length b ≡ 32 → truncated n b ≡ ok (if nat_eq n 128 then take 16 b else b)
unfolding truncated
truncated-value n b e = ground arith

module _ {H : Type 0} (ctx : Ctx H) (store : IsKeyStore ctx) (fuel : ℕ) (enough : 1 < fuel)
    (cshake : CShake128) (hsm : Hsm) (s : Session) where
  seed_of-value :
      (p : TokenParams) (a : IsStored store hsm p) (h : H)
      → IsReady store s h
      → seed_of ctx fuel cshake hsm s p.typ p.seed_label h
        ≡ (ok (object_of s (store.handle a.uid)), (find_secret_key ctx fuel s a.uid h).1)
  unfolding seed_of or_error
  seed_of-value p a h ready =
      let found = (find_secret_key-value ctx store fuel enough s a.uid a.known h ready).0 in
      ground (arith, a.typ, a.label, found)

  token-value :
      (p : TokenParams) (a : IsStored store hsm p) (h : H)
      → IsReady store s h
      → token ctx fuel cshake hsm s p h ≡ (
        ok (stored_token cshake store.mac a.uid p),
        (sign_hmac256 ctx
            (object_of s (store.handle a.uid))
            (raw_data p)
            (find_secret_key ctx fuel s a.uid h).1).1,
      )
  unfolding token supported_token unsupported wrapped_seed wrap_choice stored_token raw_data
  token-value p a h ready =
      let found = seed_of-value p a h ready in
      let mac =
        (sign_hmac256-value ctx store fuel enough s a.uid a.known (raw_data p) _
          (find_secret_key-value ctx store fuel enough s a.uid a.known h ready).1).0 in
      ground (
        arith,
        a.typ,
        a.wrap,
        found,
        mac,
        truncated-value p.size_in_bits (store.mac a.uid (raw_data p))
            (store.mac_size a.uid (raw_data p)),
        hashed-finished cshake p.op,
      )

  token-IsReady :
      (p : TokenParams) (a : IsStored store hsm p) (h : H)
      → IsReady store s h
      → IsReady store s (token ctx fuel cshake hsm s p h).1
  token-IsReady p a h ready = rw (token-value p a h ready) (
      (sign_hmac256-value ctx store fuel enough s a.uid a.known (raw_data p) _
        (find_secret_key-value ctx store fuel enough s a.uid a.known h ready).1).1)

-- The identifier that a stored seed's label stands for.
unfoldable pub uid_for : Hsm → TokenParams → Bytes
uid_for hsm p = or_nil (lookup p.seed_label hsm.symmetric_keys)

module _ {H : Type 0} (ctx : Ctx H) (store : IsKeyStore ctx) (fuel : ℕ) (enough : 1 < fuel)
    (cshake : CShake128) (hsm : Hsm) where
  all_tokens-value :
      (params : List TokenParams) (s : Session) (h : H)
      → All (IsStored store hsm) params
      → IsReady store s h
      → (all_tokens ctx fuel cshake hsm params s h).0
        ≡ ok (map (λ p. stored_token cshake store.mac (uid_for hsm p) p) params)
  unfolding all_tokens uid_for
  all_tokens-value [] s h as_ ready = refl
  all_tokens-value (p ∷ params) s h (a, rest) ready =
      let made = token-value ctx store fuel enough cshake hsm s p a h ready in
      let others =
        all_tokens-value params s _ rest
          (token-IsReady ctx store fuel enough cshake hsm s p a h ready) in
      ground (arith, made, others, a.label)

  -- On stored seeds whose labels are configured, where the first session of the queue is open and
  -- logged in with nothing under way in it, and the device knows the keys, GenerateTokens succeeds
  -- and computes one function: each token is the HMAC of the SKU and diversifier under the seed, cut
  -- to the size and hashed as requested, whatever the other requests are, whichever session that is
  -- and whatever else the device's state is. So a device's token can be derived again.
  pub generate_tokens-reproducible :
      (params : List TokenParams) (h : H) (num : ℕ) (s : Session) (ss : List Session)
      → suc (length ss) ≤ num
      → All (IsStored store hsm) params
      → IsReady store s h
      → (generate_tokens ctx fuel cshake hsm params
          (h, record { num_sessions = num; s = s ∷ ss })).0
        ≡ ok (map (λ p. stored_token cshake store.mac (uid_for hsm p) p) params)
  unfolding generate_tokens
  generate_tokens-reproducible params h num s ss room stored ready =
      let value = all_tokens-value params s h stored ready in
      ap (λ r. r.0)
        (execute_cmd-value (all_tokens ctx fuel cshake hsm params) h num s ss room
          (λ e. cc (sym value ∙ e)))
      ∙ value
