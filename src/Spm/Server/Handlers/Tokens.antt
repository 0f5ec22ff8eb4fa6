-- ===== src/Spm/Server/Handlers/Tokens.antt =====
-- What a client of DeriveTokens in src/spm/services/spm.go gets.
use opentitan_provisioning.Base.{
  ℕ, ◌≤◌, ◌≡◌, ◌≢◌, ◌⊎◌, inl, inr, refl, sym, ap, subst, ◌∙◌, arith, String, String_eq, List, [],
  ◌∷◌, map, length, none, ok, or_else, or_else-eq-ok, >>=-eq-ok, Pointwise, Bool, true, false,
}
use opentitan_provisioning.Base.Exec.{continue-eq-ok}
use opentitan_provisioning.Spm.SkuConfig.{
  Config, get_attribute, attr_name_seed_sec_hi, attr_name_seed_sec_lo, attr_name_wrapping_mechanism,
  attr_name_wrapping_key_label,
}
use opentitan_provisioning.Spm.SecureElement
use opentitan_provisioning.Spm.SecureElement.{
  TokenResult, TokenType, WrappingMechanism, token_type_security_hi, token_type_security_lo,
  token_type_key_gen, wrapping_none, wrapping_rsa_pcks, wrapping_rsa_oaep,
}
use opentitan_provisioning.Spm.SessionQueue.{SessionQueue}
use opentitan_provisioning.Spm.Hsm.{Hsm}
use opentitan_provisioning.Spm.Hsm.Tokens.{generate_tokens, wrap_choice}
use opentitan_provisioning.Spm.Hsm.Tokens.Shape.{
  TokenFor, IsHmac, IsSized, generate_tokens-TokenFor,
}
use opentitan_provisioning.Spm.Messages.{
  TokenParams, Token, DeriveTokensRequest, DeriveTokensResponse, token_seed_keygen,
  token_seed_low_security, token_seed_high_security, token_size_128_bits, token_size_256_bits,
  token_type_raw, token_type_hashed_ot_lc_token,
}
use opentitan_provisioning.Spm.Server.{World, Deps, SkuState}
use opentitan_provisioning.Spm.Server.Params.{
  seed_choice, mechanism_choice, wrap_request, size_choice, op_choice, token_params, keygen_params,
}
use opentitan_provisioning.Spm.Server.Frame.{WellFormed}
use opentitan_provisioning.Spm.Server.Found.{with_sku-eq-ok}
use opentitan_provisioning.Spm.Server.Handlers.{derive_with, derive_tokens, token_of}

-- A request for one token that the server takes, and the token that answers it.
pub record Answers (p : TokenParams) (t : Token) : Type 0 where
  pub seed :
      (p.seed ≡ token_seed_low_security)
      ⊎ (p.seed ≡ token_seed_high_security)
      ⊎ (p.seed ≡ token_seed_keygen)
  pub typ : (p.typ ≡ token_type_raw) ⊎ (p.typ ≡ token_type_hashed_ot_lc_token)
  pub size :
      ((p.size ≡ token_size_128_bits) × (length t.token ≡ 16))
      ⊎ ((p.size ≡ token_size_256_bits) × (length t.token ≡ 32))
  pub plain : p.wrap_seed ≡ false → t.wrapped_seed ≡ []
  pub fresh : p.wrap_seed ≡ true → p.seed ≡ token_seed_keygen

seed_choice-valid :
    (seed : ℕ) (hi lo : String) {r : TokenType × String}
    → seed_choice seed hi lo ≡ ok r
    → ((seed ≡ token_seed_low_security)
        ⊎ (seed ≡ token_seed_high_security)
        ⊎ (seed ≡ token_seed_keygen))
      × (r.0 ≡ token_type_key_gen → seed ≡ token_seed_keygen)
unfolding seed_choice
seed_choice-valid seed hi lo h = ground arith

size_choice-valid :
    (size n : ℕ)
    → size_choice size ≡ ok n
    → ((size ≡ token_size_128_bits) × (n ≡ 128)) ⊎ ((size ≡ token_size_256_bits) × (n ≡ 256))
unfolding size_choice
size_choice-valid size n h = ground arith

op_choice-valid :
    (typ : ℕ) {op : SecureElement.TokenOp}
    → op_choice typ ≡ ok op
    → (typ ≡ token_type_raw) ⊎ (typ ≡ token_type_hashed_ot_lc_token)
unfolding op_choice
op_choice-valid typ h = ground arith

mechanism_choice-wraps :
    (wmech : String) (w : WrappingMechanism) → mechanism_choice wmech ≡ ok w → wrap_choice w ≢ none
unfolding mechanism_choice wrap_choice
mechanism_choice-wraps wmech w h n = ground arith

pair_eq :
    (a : WrappingMechanism) (b : String) {r : WrappingMechanism × String}
    → ok (a, b) ≡ ok r
    → a ≡ r.0
pair_eq a b h = ground arith

plain_choice : wrap_choice wrapping_none ≡ none
unfolding wrap_choice
plain_choice = refl

wrap_request-valid :
    (config : Config) (wrap_seed : Bool) {r : WrappingMechanism × String}
    → wrap_request config wrap_seed ≡ ok r
    → (wrap_seed ≡ false → wrap_choice r.0 ≡ none) × (wrap_seed ≡ true → wrap_choice r.0 ≢ none)
unfolding wrap_request
wrap_request-valid config false h = (λ e. rw (sym (pair_eq _ _ h)) (plain_choice), λ e. cc)
wrap_request-valid config true h =
    let (wmech, _, h1) =
      >>=-eq-ok (or_else (get_attribute config attr_name_wrapping_mechanism) _) _ h in
    let (wrap, chosen, h2) = >>=-eq-ok (mechanism_choice wmech) _ h1 in
    let (wkl, _, h3) =
      >>=-eq-ok (or_else (get_attribute config attr_name_wrapping_key_label) _) _ h2 in
    (
      λ e. cc,
      λ e n. mechanism_choice-wraps wmech wrap chosen (ap wrap_choice (pair_eq wrap wkl h3) ∙ n),
    )

params_eq : (a b : SecureElement.TokenParams) → ok a ≡ ok b → a ≡ b
params_eq a b h = cc

-- The token that the secure element makes for the translated request answers the request.
Answered : Hsm → TokenParams → SecureElement.TokenParams → Type 0
Answered hsm p q = (r : TokenResult) → TokenFor hsm q r → Answers p (token_of r)

token_params-Answered :
    (config : Config) (hsm : Hsm) (hi lo sku : String) (p : TokenParams)
    (q : SecureElement.TokenParams)
    → token_params config hi lo sku p ≡ ok q
    → Answered hsm p q
unfolding token_params Answered
token_params-Answered config hsm hi lo sku p q h =
    let (seed, s, h1) = >>=-eq-ok (seed_choice p.seed hi lo) _ h in
    let (wrap, w, h2) = >>=-eq-ok (wrap_request config p.wrap_seed) _ h1 in
    let (size, z, h3) = >>=-eq-ok (size_choice p.size) _ h2 in
    let (op, o, h4) = >>=-eq-ok (op_choice p.typ) _ h3 in
    let (seed_valid, fresh) = seed_choice-valid p.seed hi lo s in
    let (unwrapped, wrapped) = wrap_request-valid config p.wrap_seed w in
    subst (Answered hsm p) (params_eq _ _ h4) (λ r made. record {
      seed = seed_valid;
      typ = op_choice-valid p.typ o;
      size = elim (size_choice-valid p.size size z) [
        | inl (a, b) ↦ inl (a, made.size ∙ rw b refl)
        | inr (a, b) ↦ inr (a, made.size ∙ rw b refl)
      ];
      plain = λ e. made.unwrapped (unwrapped e);
      fresh = λ e. fresh (made.wrapper (wrapped e)).0;
    })

list_eq : (a b : List SecureElement.TokenParams) → ok a ≡ ok b → a ≡ b
list_eq a b h = cc

-- Requests and their translations, one by one.
keygen_params-Answered :
    (config : Config) (hsm : Hsm) (hi lo sku : String) (ps : List TokenParams)
    (qs : List SecureElement.TokenParams)
    → keygen_params config hi lo sku ps ≡ ok qs
    → Pointwise (Answered hsm) ps qs
unfolding keygen_params
keygen_params-Answered config hsm hi lo sku [] qs h =
    subst (Pointwise (Answered hsm) []) (list_eq _ _ h) tt
keygen_params-Answered config hsm hi lo sku (p ∷ ps) qs h =
    let (q, first, h1) = >>=-eq-ok (token_params config hi lo sku p) _ h in
    let (rest, others, h2) = >>=-eq-ok (keygen_params config hi lo sku ps) _ h1 in
    subst (Pointwise (Answered hsm) (p ∷ ps)) (list_eq _ _ h2) (
      token_params-Answered config hsm hi lo sku p q first,
      keygen_params-Answered config hsm hi lo sku ps rest others,
    )

Answers-all :
    (hsm : Hsm) (ps : List TokenParams) (qs : List SecureElement.TokenParams)
    (rs : List TokenResult)
    → Pointwise (Answered hsm) ps qs
    → Pointwise (TokenFor hsm) qs rs
    → Pointwise Answers ps (map token_of rs)
unfolding Answered
Answers-all hsm [] [] [] a made = tt
Answers-all hsm [] [] (r ∷ rs) a made = absurd made
Answers-all hsm [] (q ∷ qs) rs a made = absurd a
Answers-all hsm (p ∷ ps) [] rs a made = absurd a
Answers-all hsm (p ∷ ps) (q ∷ qs) [] a made = absurd made
Answers-all hsm (p ∷ ps) (q ∷ qs) (r ∷ rs) (a, as_) (made, others) =
    (a r made, Answers-all hsm ps qs rs as_ others)

response_eq : (a b : DeriveTokensResponse) → ok a ≡ ok b → a ≡ b
response_eq a b h = cc

module _ {H : Type 0} (deps : Deps H) (hmac : IsHmac deps.ctx) (sized : IsSized deps.cshake) where
  derive_with-Answers :
      (request : DeriveTokensRequest) (sku : SkuState) (response : DeriveTokensResponse) (h t : H)
      (q q' : SessionQueue)
      → length q.s ≤ q.num_sessions
      → derive_with deps request sku (h, q) ≡ (ok response, (t, q'))
      → Pointwise Answers request.params response.tokens
  unfolding derive_with
  derive_with-Answers request sku response h t q q' room e =
      let (hi, _, e1) =
        continue-eq-ok (or_else (get_attribute sku.config attr_name_seed_sec_hi) _) _ _ e in
      let (lo, _, e2) =
        continue-eq-ok (or_else (get_attribute sku.config attr_name_seed_sec_lo) _) _ _ e1 in
      let (qs, valid, e3) =
        continue-eq-ok (keygen_params sku.config hi lo request.sku request.params) _ _ e2 in
      let made = generate_tokens deps.ctx deps.fuel deps.cshake sku.se_handle qs (h, q) in
      let (rs, generated, e4) = continue-eq-ok (or_else made.0 _) _ _ e3 in
      subst (λ r. Pointwise Answers request.params r.tokens) (response_eq _ _ (ap (λ p. p.0) e4))
        (Answers-all sku.se_handle request.params qs rs
          (keygen_params-Answered sku.config sku.se_handle hi lo request.sku request.params qs
            valid)
          (generate_tokens-TokenFor deps.ctx deps.fuel deps.cshake sku.se_handle hmac sized qs rs h
            made.1.0 q made.1.1 room (λ i. (or_else-eq-ok _ _ generated i, made.1))))

  -- A client whose DeriveTokens succeeds, on a device whose HMACs have 32 bytes, gets one token
  -- for each one asked for, in order. Each request named a known seed, type and size; the token
  -- has the bytes of that size; and a wrapped seed comes with it only where it was asked for,
  -- which is possible for a fresh seed alone.
  pub derive_tokens-Answers :
      (request : DeriveTokensRequest) (w : World H) (response : DeriveTokensResponse)
      → WellFormed w
      → (derive_tokens deps request w).0 ≡ ok response
      → Pointwise Answers request.params response.tokens
  unfolding derive_tokens
  derive_tokens-Answers request w response wf e =
      let (sku, found, ran) = with_sku-eq-ok request.sku (derive_with deps request) w e in
      let t = derive_with deps request sku (w.outside, sku.sessions) in
      derive_with-Answers request sku response w.outside t.1.0 sku.sessions t.1.1
        (wf.room request.sku sku found) (λ i. (ran i, t.1))
