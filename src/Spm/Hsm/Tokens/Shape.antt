-- ===== src/Spm/Hsm/Tokens/Shape.antt =====
-- What the tokens of a successful GenerateTokens look like.
use opentitan_provisioning.Base.{
  ℕ, ◌≡◌, ◌≢◌, ◌≤◌, inl, inr, refl, ap, subst, ◌∙◌, arith, String, String_eq, List, [], ◌∷◌, length,
  length-take, nat_eq, Option, none, some, Result, ok, or_else, or_else-eq-ok, Pointwise, false,
  Bool-cases, if◌then◌else◌, Option-cases,
}
use opentitan_provisioning.Base.Exec.{continue-eq-ok}
use opentitan_provisioning.Base.Dict.{lookup}
use opentitan_provisioning.Proto.{Bytes}
use opentitan_provisioning.Pk11.{Ctx, Session, Object, ckm_sha256_hmac}
use opentitan_provisioning.Pk11.Secret.{sign_hmac256}
use opentitan_provisioning.Spm.SecureElement.{
  TokenParams, TokenResult, TokenOp, TokenType, WrappingMechanism, token_op_raw,
  token_op_hashed_ot_lc_token, token_type_key_gen, wrapping_none,
}
use opentitan_provisioning.Spm.SessionQueue.{SessionQueue}
use opentitan_provisioning.Spm.SessionQueue.Commands.{execute_cmd-eq-ok}
use opentitan_provisioning.Spm.Hsm.{Hsm, or_error}
use opentitan_provisioning.Spm.Hsm.Tokens.{
  CShake128, unsupported, truncated, hashed, wrap_choice, seed_of, wrapped_seed, raw_data,
  supported_token, token, all_tokens, generate_tokens,
}

-- A signature that the device makes with the SHA-256 HMAC mechanism has 32 bytes.
pub record IsHmac {H : Type 0} (ctx : Ctx H) : Type 0 where
  pub size :
      (s key : ℕ) (message mac : Bytes) (h h' h'' : H)
      → ctx.sign_init s ckm_sha256_hmac key h ≡ (ok tt, h')
      → ctx.sign s message h' ≡ (ok mac, h'')
      → length mac ≡ 32

-- The hash fills the buffer that it is given.
abbrev pub IsSized : CShake128 → Type 0
IsSized cshake =
    (n s : String) (message : Bytes) (size : ℕ) → length (cshake n s message size) ≡ size

-- What the caller may rely on: the bytes of a token are 16 or 32; a seed is wrapped only if it was
-- generated for this token, and with a configured key; a stored seed is never exported.
pub record TokenFor (h : Hsm) (p : TokenParams) (t : TokenResult) : Type 0 where
  pub same : t.diversifier ≡ p.diversifier
  pub size : length t.token ≡ (if nat_eq p.size_in_bits 128 then 16 else 32)
  pub stored : p.typ ≢ token_type_key_gen → (p.wrap ≡ wrapping_none) × (t.wrapped_key ≡ [])
  pub known :
      p.typ ≢ token_type_key_gen → (id : Bytes) × (lookup p.seed_label h.symmetric_keys ≡ some id)
  pub unwrapped : wrap_choice p.wrap ≡ none → t.wrapped_key ≡ []
  pub wrapper :
      wrap_choice p.wrap ≢ none
      → (p.typ ≡ token_type_key_gen)
        × ((id : Bytes) × (lookup p.wrap_key_label h.public_keys ≡ some id))

truncated-length :
    (n : ℕ) (b t : Bytes)
    → length b ≡ 32
    → truncated n b ≡ ok t
    → length t ≡ (if nat_eq n 128 then 16 else 32)
unfolding truncated
truncated-length n b t size e = ground (arith, length-take 16 b)

hashed-length :
    (cshake : CShake128) (op : TokenOp) (b : Bytes)
    → IsSized cshake
    → length (hashed cshake op b) ≡ length b
unfolding hashed
hashed-length cshake token_op_raw b sized = refl
hashed-length cshake token_op_hashed_ot_lc_token b sized = sized "" "LC_CTRL" b (length b)

supported-none :
    (t : TokenType) (w : WrappingMechanism)
    → unsupported t w ≡ false
    → t ≢ token_type_key_gen
    → w ≡ wrapping_none
unfolding unsupported
supported-none t w e ne = ground arith

choice_none : (w : WrappingMechanism) → w ≡ wrapping_none → wrap_choice w ≡ none
unfolding wrap_choice
choice_none w e = rw e refl

supported-fresh :
    (t : TokenType) (w : WrappingMechanism)
    → unsupported t w ≡ false
    → wrap_choice w ≢ none
    → t ≡ token_type_key_gen
unfolding unsupported wrap_choice
supported-fresh t w e ne = ground arith

or_error-eq-ok : {A : Type 0} (o : Option A) (e : _) {a : A} → or_error o e ≡ ok a → o ≡ some a
unfolding or_error
or_error-eq-ok none e h = cc
or_error-eq-ok (some a) e h = cc

result_eq :
    (a b : TokenResult) {H : Type 0} {h t : H}
    → ◌≡◌ {A = Result TokenResult × H} (ok a, h) (ok b, t)
    → a ≡ b
result_eq a b e = cc (ap (λ p. p.0) e)

module _ {H : Type 0} (ctx : Ctx H) (hmac : IsHmac ctx) where
  sign_hmac256-length :
      (k : Object) (raw mac : Bytes) (h t : H)
      → sign_hmac256 ctx k raw h ≡ (ok mac, t)
      → length mac ≡ 32
  unfolding sign_hmac256
  sign_hmac256-length k raw mac h t e =
      let init = ctx.sign_init k.sess.raw ckm_sha256_hmac k.raw h in
      let (_, begun, e1) = continue-eq-ok (or_else init.0 _) _ _ e in
      hmac.size k.sess.raw k.raw raw mac h init.1 (ctx.sign k.sess.raw raw init.1).1
        (λ i. (or_else-eq-ok _ _ begun i, init.1))
        (λ i. (or_else-eq-ok _ _ (ap (λ p. p.0) e1) i, (ctx.sign k.sess.raw raw init.1).1))

module _ {H : Type 0} (ctx : Ctx H) (fuel : ℕ) (cshake : CShake128) (hsm : Hsm) where
  wrapped_seed-none :
      (session : Session) (seed : Object) (label : String) (w : WrappingMechanism) (h : H)
      {wkey : Bytes}
      → (wrapped_seed ctx fuel cshake hsm session seed (wrap_choice w) label h).0 ≡ ok wkey
      → wrap_choice w ≡ none
      → wkey ≡ []
  unfolding wrapped_seed
  wrapped_seed-none session seed label w h e n = ground arith

  wrapped_seed-some :
      (session : Session) (seed : Object) (label : String) (w : WrappingMechanism) (h : H)
      {wkey : Bytes}
      → (wrapped_seed ctx fuel cshake hsm session seed (wrap_choice w) label h).0 ≡ ok wkey
      → wrap_choice w ≢ none
      → (id : Bytes) × (lookup label hsm.public_keys ≡ some id)
  unfolding wrapped_seed or_error
  wrapped_seed-some session seed label w h e ne =
      elim (Option-cases (lookup label hsm.public_keys)) [
        | inl missing ↦ absurd (ground arith)
        | inr found ↦ found
      ]

  seed_of-known :
      (session : Session) (typ : TokenType) (label : String) (h : H) {seed : Object}
      → (seed_of ctx fuel cshake hsm session typ label h).0 ≡ ok seed
      → typ ≢ token_type_key_gen
      → (id : Bytes) × (lookup label hsm.symmetric_keys ≡ some id)
  unfolding seed_of or_error
  seed_of-known session typ label h e ne = elim (Option-cases (lookup label hsm.symmetric_keys)) [
    | inl missing ↦ absurd (ground arith)
    | inr found ↦ found
  ]

  module _ (hmac : IsHmac ctx) (sized : IsSized cshake) where
    supported_token-TokenFor :
        (session : Session) (p : TokenParams) (t : TokenResult) (h h' : H)
        → unsupported p.typ p.wrap ≡ false
        → supported_token ctx fuel cshake hsm session p h ≡ (ok t, h')
        → TokenFor hsm p t
    unfolding supported_token
    supported_token-TokenFor session p t h h' valid e =
        let (seed, chosen, e1) =
          continue-eq-ok (seed_of ctx fuel cshake hsm session p.typ p.seed_label h).0 _ _ e in
        let h1 : H = (seed_of ctx fuel cshake hsm session p.typ p.seed_label h).1 in
        let raw : Bytes = raw_data p in
        let (mac, signed, e2) =
          continue-eq-ok (or_else (sign_hmac256 ctx seed raw h1).0 _) _ _ e1 in
        let h2 : H = (sign_hmac256 ctx seed raw h1).1 in
        let (t_bytes, cut, e3) = continue-eq-ok (truncated p.size_in_bits mac) _ _ e2 in
        let (wkey, put, e4) =
          continue-eq-ok
            (wrapped_seed ctx fuel cshake hsm session seed (wrap_choice p.wrap) p.wrap_key_label
              h2).0
            _ _ e3 in
        let mac_size =
          sign_hmac256-length ctx hmac seed raw mac h1 h2 (λ i. (or_else-eq-ok _ _ signed i, h2)) in
        let unwrapped_key = wrapped_seed-none session seed p.wrap_key_label p.wrap h2 put in
        subst (TokenFor hsm p) (result_eq _ _ e4) (record {
          same = refl;
          size =
              hashed-length cshake p.op t_bytes sized
              ∙ truncated-length p.size_in_bits mac t_bytes mac_size cut;
          stored = λ ne.
              let plain = supported-none p.typ p.wrap valid ne in
              (plain, unwrapped_key (choice_none p.wrap plain));
          known = λ ne. seed_of-known session p.typ p.seed_label h chosen ne;
          unwrapped = unwrapped_key;
          wrapper = λ ne. (
            supported-fresh p.typ p.wrap valid ne,
            wrapped_seed-some session seed p.wrap_key_label p.wrap h2 put ne,
          );
        })

    token-TokenFor :
        (session : Session) (p : TokenParams) (t : TokenResult) (h h' : H)
        → token ctx fuel cshake hsm session p h ≡ (ok t, h')
        → TokenFor hsm p t
    unfolding token
    token-TokenFor session p t h h' e = elim (Bool-cases (unsupported p.typ p.wrap)) [
      | inl refused ↦ absurd (ground arith)
      | inr valid ↦ supported_token-TokenFor session p t h h' valid (rw (valid, token) at e)
    ]

    list_eq :
        (a b : List TokenResult) {x y : H}
        → ◌≡◌ {A = Result (List TokenResult) × H} (ok a, x) (ok b, y)
        → a ≡ b
    list_eq a b e = ground arith

    all_tokens-TokenFor :
        (params : List TokenParams) (session : Session) (ts : List TokenResult) (h h' : H)
        → all_tokens ctx fuel cshake hsm params session h ≡ (ok ts, h')
        → Pointwise (TokenFor hsm) params ts
    unfolding all_tokens
    all_tokens-TokenFor [] session ts h h' e =
        subst (Pointwise (TokenFor hsm) []) (list_eq _ _ e) tt
    all_tokens-TokenFor (p ∷ params) session ts h h' e =
        let (t, made, e1) = continue-eq-ok (token ctx fuel cshake hsm session p h).0 _ _ e in
        let h1 : H = (token ctx fuel cshake hsm session p h).1 in
        let (rest, others, e2) =
          continue-eq-ok (all_tokens ctx fuel cshake hsm params session h1).0 _ _ e1 in
        let h2 : H = (all_tokens ctx fuel cshake hsm params session h1).1 in
        subst (Pointwise (TokenFor hsm) (p ∷ params)) (list_eq _ _ e2) (
          token-TokenFor session p t h h1 (λ i. (made i, h1)),
          all_tokens-TokenFor params session rest h1 h2 (λ i. (others i, h2)),
        )

    -- When GenerateTokens succeeds, on a device whose HMACs have 32 bytes and with a hash that
    -- fills its buffer, there is one token for each request, in order, with the size, the
    -- diversifier and the wrapped seed that the request asks for: a stored seed is never wrapped,
    -- a wrapped seed is a fresh one, and both kinds of keys are among those configured.
    pub generate_tokens-TokenFor :
        (params : List TokenParams) (ts : List TokenResult) (h t : H) (q q' : SessionQueue)
        → length q.s ≤ q.num_sessions
        → generate_tokens ctx fuel cshake hsm params (h, q) ≡ (ok ts, (t, q'))
        → Pointwise (TokenFor hsm) params ts
    unfolding generate_tokens
    generate_tokens-TokenFor params ts h t q q' room e =
        let (session, _, _, ran, _) =
          execute_cmd-eq-ok (all_tokens ctx fuel cshake hsm params) h t q q' room e in
        all_tokens-TokenFor params session ts h t ran
