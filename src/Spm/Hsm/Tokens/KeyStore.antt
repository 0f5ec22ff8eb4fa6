-- ===== src/Spm/Hsm/Tokens/KeyStore.antt =====
-- What a device that holds secret keys does when src/pk11 searches for them and signs with them.
use opentitan_provisioning.Base.{
  ℕ, zero, suc, ◌<◌, ◌≡◌, refl, arith, String_eq, List, [], ◌∷◌, ◌++◌, map, length, Option, none,
  some, sym, subst, ok, hangs,
}
use opentitan_provisioning.Base.Exec.{
  Exec, pure, Keeps, pure-Keeps, raise-Keeps, lift-Keeps, or_raise-Keeps, >>=-Keeps,
}
use opentitan_provisioning.Proto.{Bytes}
use opentitan_provisioning.Pk11.{Ctx, Session, Object, Attribute, ckm_sha256_hmac}
use opentitan_provisioning.Pk11.Secret.{sign_hmac256}
use opentitan_provisioning.Pk11.Find.{
  find, find_loop, find_unique, find_secret_key, class_secret_key, uid_attribute, object_of,
}
use opentitan_provisioning.Pk11.Find.Search.{IsSearch, find_unique_iff, find_unique-searching}

-- A device that holds secret keys and computes HMACs with them, as PKCS#11 prescribes for a session
-- that is open and logged in (`Usable`) and has no search or signature under way: a search for a key
-- that it knows by its identifier begins and finds the key's one handle, and a signature with it
-- begins; the signature that was begun makes the HMAC of the message, the same each time, and is over
-- then. Neither a search nor a signature disturbs the other or makes the session less usable.
pub record IsKeyStore {H : Type 0} (ctx : Ctx H) : Type 1 where
  pub search : IsSearch ctx
  pub signing : H → ℕ → Option ℕ
  pub Usable : ℕ → H → Type 0
  pub Known : Bytes → Type 0
  pub handle : Bytes → ℕ
  pub mac : Bytes → Bytes → Bytes
  pub mac_size : (uid message : Bytes) → length (mac uid message) ≡ 32
  pub begins :
      (s : ℕ) (uid : Bytes) (h : H)
      → Usable s h
      → search.searching h s ≡ none
      → signing h s ≡ none
      → Known uid
      → ((ctx.find_objects_init s (class_secret_key ∷ uid_attribute uid ∷ []) h).0 ≡ ok tt)
        × (search.searching
              (ctx.find_objects_init s (class_secret_key ∷ uid_attribute uid ∷ []) h).1
              s
            ≡ some (handle uid ∷ []))
  pub starts :
      (s : ℕ) (uid : Bytes) (h : H)
      → Usable s h
      → search.searching h s ≡ none
      → signing h s ≡ none
      → Known uid
      → ((ctx.sign_init s ckm_sha256_hmac (handle uid) h).0 ≡ ok tt)
        × (signing (ctx.sign_init s ckm_sha256_hmac (handle uid) h).1 s ≡ some (handle uid))
  pub signs :
      (s : ℕ) (uid message : Bytes) (h : H)
      → Usable s h
      → signing h s ≡ some (handle uid)
      → Known uid
      → ((ctx.sign s message h).0 ≡ ok (mac uid message))
        × (signing (ctx.sign s message h).1 s ≡ none)
  pub init_keeps :
      (s : ℕ) (attributes : List Attribute) → Keeps (Usable s) (ctx.find_objects_init s attributes)
  pub find_keeps : (s n : ℕ) → Keeps (Usable s) (ctx.find_objects s n)
  pub final_keeps : (s : ℕ) → Keeps (Usable s) (ctx.find_objects_final s)
  pub sign_init_keeps : (s key : ℕ) → Keeps (Usable s) (ctx.sign_init s ckm_sha256_hmac key)
  pub sign_keeps : (s : ℕ) (message : Bytes) → Keeps (Usable s) (ctx.sign s message)
  pub init_apart :
      (s : ℕ) (attributes : List Attribute)
      → Keeps (λ h. signing h s ≡ none) (ctx.find_objects_init s attributes)
  pub find_apart : (s n : ℕ) → Keeps (λ h. signing h s ≡ none) (ctx.find_objects s n)
  pub final_apart : (s : ℕ) → Keeps (λ h. signing h s ≡ none) (ctx.find_objects_final s)
  pub sign_init_apart :
      (s key : ℕ) → Keeps (λ h. search.searching h s ≡ none) (ctx.sign_init s ckm_sha256_hmac key)
  pub sign_apart :
      (s : ℕ) (message : Bytes) → Keeps (λ h. search.searching h s ≡ none) (ctx.sign s message)

-- The session is open and logged in, and nothing is under way in it.
pub record IsReady {H : Type 0} {ctx : Ctx H} (store : IsKeyStore ctx) (s : Session) (h : H)
    : Type 0 where
  pub usable : store.Usable s.raw h
  pub no_search : store.search.searching h s.raw ≡ none
  pub no_signature : store.signing h s.raw ≡ none

-- A search keeps what its three calls keep.
module _ {H : Type 0} (ctx : Ctx H) (P : H → Type 0) (s : Session)
    (init_keeps : (attributes : List Attribute) → Keeps P (ctx.find_objects_init s.raw attributes))
    (find_keeps : (n : ℕ) → Keeps P (ctx.find_objects s.raw n))
    (final_keeps : Keeps P (ctx.find_objects_final s.raw)) where
  find_loop-Keeps : (n : ℕ) (objs : List Object) → Keeps P (find_loop ctx n s objs)
  unfolding find_loop
  find_loop-Keeps zero objs = raise-Keeps P hangs
  find_loop-Keeps (suc n) objs = >>=-Keeps P _ _ (or_raise-Keeps P _ _ (find_keeps 32)) (λ raw.
      elim raw
        as (λ x. Keeps P (elim x as (λ _. Exec H (List Object)) [
          | [] ↦ pure objs
          | o ∷ os ↦ find_loop ctx n s (objs ++ map (object_of s) (o ∷ os))
        ])) [
          | [] ↦ pure-Keeps P objs
          | o ∷ os ↦ find_loop-Keeps n (objs ++ map (object_of s) (o ∷ os))
        ])

  find-Keeps : (n : ℕ) (attributes : List Attribute) → Keeps P (find ctx n s attributes)
  unfolding find
  find-Keeps n attributes = >>=-Keeps P _ _ (or_raise-Keeps P _ _ (init_keeps attributes)) (λ _.
      >>=-Keeps P _ _ (find_loop-Keeps n [])
        (λ objs. >>=-Keeps P _ _ (or_raise-Keeps P _ _ final_keeps) (λ _. pure-Keeps P objs)))

  find_secret_key-Keeps : (n : ℕ) (uid : Bytes) → Keeps P (find_secret_key ctx n s uid)
  unfolding find_secret_key find_unique
  find_secret_key-Keeps n uid = >>=-Keeps P _ _ (find-Keeps n _) (λ objs. lift-Keeps P _)

module _ {H : Type 0} (ctx : Ctx H) (store : IsKeyStore ctx) (fuel : ℕ) (enough : 1 < fuel)
    (s : Session) (uid : Bytes) (known : store.Known uid) where
  pub find_secret_key-value :
      (h : H)
      → IsReady store s h
      → ((find_secret_key ctx fuel s uid h).0 ≡ ok (object_of s (store.handle uid)))
        × IsReady store s (find_secret_key ctx fuel s uid h).1
  unfolding find_secret_key
  find_secret_key-value h ready =
      let (begun, answer) =
        store.begins s.raw uid h ready.usable ready.no_search ready.no_signature known in
      let found =
        find_unique_iff ctx store.search fuel s class_secret_key uid h (store.handle uid ∷ []) begun
          answer (omega (arith, enough)) (object_of s (store.handle uid)) in
      (
        found.1 (store.handle uid, refl, refl),
        record {
          usable =
              (find_secret_key-Keeps ctx (store.Usable s.raw) s (store.init_keeps s.raw)
                  (store.find_keeps s.raw) (store.final_keeps s.raw) fuel uid).at
                h ready.usable;
          no_search =
              find_unique-searching ctx store.search fuel s class_secret_key uid h
                (store.handle uid ∷ []) begun answer (omega (arith, enough));
          no_signature =
              (find_secret_key-Keeps ctx (λ x. store.signing x s.raw ≡ none) s
                  (store.init_apart s.raw) (store.find_apart s.raw) (store.final_apart s.raw) fuel
                  uid).at
                h ready.no_signature;
        },
      )

  pub sign_hmac256-value :
      (raw : Bytes) (h : H)
      → IsReady store s h
      → ((sign_hmac256 ctx (object_of s (store.handle uid)) raw h).0 ≡ ok (store.mac uid raw))
        × IsReady store s (sign_hmac256 ctx (object_of s (store.handle uid)) raw h).1
  unfolding sign_hmac256
  sign_hmac256-value raw h ready =
      let key = store.handle uid in
      let mid : H = (ctx.sign_init s.raw ckm_sha256_hmac key h).1 in
      let (begun, active) =
        store.starts s.raw uid h ready.usable ready.no_search ready.no_signature known in
      let usable = (store.sign_init_keeps s.raw key).at h ready.usable in
      let apart = (store.sign_init_apart s.raw key).at h ready.no_search in
      let (made, over) = store.signs s.raw uid raw mid usable active known in
      let after : (sign_hmac256 ctx (object_of s key) raw h).1 ≡ (ctx.sign s.raw raw mid).1 =
        ground (arith, begun) in
      (
        ground (arith, begun, made),
        subst (IsReady store s) (sym after) (record {
          usable = (store.sign_keeps s.raw raw).at mid usable;
          no_search = (store.sign_apart s.raw raw).at mid apart;
          no_signature = over;
        }),
      )
