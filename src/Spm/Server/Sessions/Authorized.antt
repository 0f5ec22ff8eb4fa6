-- ===== src/Spm/Server/Sessions/Authorized.antt =====
-- Who may open a session for a SKU, by `findSkuAuth` of src/spm/services/spm.go.
use opentitan_provisioning.Base.{
  ◌≡◌, ◌⊎◌, inl, inr, arith, String, String_eq, List, [], ◌∷◌, none, some, Option-cases, Bool-cases,
  true,
}
use opentitan_provisioning.Base.Dict.{lookup}
use opentitan_provisioning.Base.Text.{concat, has_prefix, concat_of_has_prefix, has_prefix-concat}
use opentitan_provisioning.Spm.SkuConfig.{Auth, SkuAuth}
use opentitan_provisioning.Spm.Server.Sessions.{family_sku, find_sku_auth}

abbrev pub In : String → List String → Type 0
In k [] = ⊥
In k (j ∷ js) = (j ≡ k) ⊎ In k js

-- Go iterates over every key of the map, in some order.
pub record IsOrder (auth_cfg : Auth) (order : List String) : Type 0 where
  pub every : (k : String) (a : SkuAuth) → lookup k auth_cfg.sku_auth_cfg_list ≡ some a → In k order
  pub only :
      (k : String) → In k order → (a : SkuAuth) × (lookup k auth_cfg.sku_auth_cfg_list ≡ some a)

-- The authorization of the SKU itself, or, where it has none, that of a family: a listed name that
-- the SKU's name begins with.
abbrev pub IsAuthFor : Auth → String → SkuAuth → Type 0
IsAuthFor auth_cfg sku auth =
    (lookup sku auth_cfg.sku_auth_cfg_list ≡ some auth)
    ⊎ ((lookup sku auth_cfg.sku_auth_cfg_list ≡ none)
        × (family rest : String) × (sku ≡ concat family rest)
        × (lookup family auth_cfg.sku_auth_cfg_list ≡ some auth))

family_sku-eq-some :
    (sku : String) (order : List String) (family : String)
    → family_sku sku order ≡ some family
    → (In family order) × (has_prefix sku family ≡ true)
unfolding family_sku
family_sku-eq-some sku [] family h = cc
family_sku-eq-some sku (k ∷ ks) family h = elim (Bool-cases (has_prefix sku k)) [
  | inl yes_ ↦ (inl (ground arith), ground arith)
  | inr no_ ↦
      let (later, prefix) = family_sku-eq-some sku ks family (ground arith) in (inr later, prefix)
]

family_sku-found :
    (sku : String) (order : List String) (k : String)
    → In k order
    → has_prefix sku k ≡ true
    → (family : String) × (family_sku sku order ≡ some family)
unfolding family_sku
family_sku-found sku [] k i h = absurd i
family_sku-found sku (j ∷ js) k (inl e) h = (j, ground arith)
family_sku-found sku (j ∷ js) k (inr i) h = elim (Bool-cases (has_prefix sku j)) [
  | inl yes_ ↦ (j, ground arith)
  | inr no_ ↦ let (family, e) = family_sku-found sku js k i h in (family, ground arith)
]

module _ (auth_cfg : Auth) (order : List String) (sku : String) where
  find_sku_auth_sound :
      (auth : SkuAuth) → find_sku_auth auth_cfg order sku ≡ some auth → IsAuthFor auth_cfg sku auth
  unfolding find_sku_auth
  find_sku_auth_sound auth h = elim (Option-cases (lookup sku auth_cfg.sku_auth_cfg_list)) [
    | inr (a, e) ↦ inl (ground arith)
    | inl missing ↦ elim (Option-cases (family_sku sku order)) [
      | inl alone ↦ absurd (ground arith)
      | inr (family, e) ↦
          let (_, prefix) = family_sku-eq-some sku order family e in
          let (rest, split) = concat_of_has_prefix sku family prefix in
          inr (missing, family, rest, split, ground arith)
    ]
  ]

  find_sku_auth_complete :
      IsOrder auth_cfg order
      → (k rest : String) (a : SkuAuth) → lookup k auth_cfg.sku_auth_cfg_list ≡ some a
      → sku ≡ concat k rest
      → (auth : SkuAuth) × (find_sku_auth auth_cfg order sku ≡ some auth)
  unfolding find_sku_auth
  find_sku_auth_complete is_order k rest a listed split =
      elim (Option-cases (lookup sku auth_cfg.sku_auth_cfg_list)) [
        | inr (b, e) ↦ (b, ground arith)
        | inl missing ↦
            let prefix : has_prefix sku k ≡ true = rw split (has_prefix-concat k rest) in
            let (family, e) = family_sku-found sku order k (is_order.every k a listed) prefix in
            let (i, _) = family_sku-eq-some sku order family e in
            let (b, found) = is_order.only family i in (b, ground arith)
      ]

  -- Whatever the order in which the map is iterated over: a SKU has an authorization exactly where
  -- some listed name is a beginning of its name, and what is found is the SKU's own where it is
  -- listed, and otherwise that of such a family.
  pub find_sku_auth-IsAuthFor :
      IsOrder auth_cfg order
      → ((auth : SkuAuth)
          → find_sku_auth auth_cfg order sku ≡ some auth
          → IsAuthFor auth_cfg sku auth)
        × ((k rest : String) (a : SkuAuth)
            → lookup k auth_cfg.sku_auth_cfg_list ≡ some a
            → sku ≡ concat k rest
            → (auth : SkuAuth) × (find_sku_auth auth_cfg order sku ≡ some auth))
  find_sku_auth-IsAuthFor is_order = (find_sku_auth_sound, find_sku_auth_complete is_order)
