-- ===== src/Spm/Hsm.antt =====
-- The HSM of src/spm/services/se_pk11.go: the sessions it opens, the identifiers of the keys it is
-- configured with, and the check of a session. Hsm/Tokens.antt and Hsm/Endorse.antt have the
-- operations of the secure element; Hsm/Opened.antt has what an instance starts with.
pub mod Tokens
pub mod Endorse
pub mod Opened
use opentitan_provisioning.Base.{
  ℕ, zero, suc, String, String_eq, List, [], ◌∷◌, length, leb, Option, none, some, Result, ok, err,
  errorf, Error, get_elem?, if◌then◌else◌, hangs, panic,
}
use opentitan_provisioning.Base.Exec.{Exec, ◌>>=◌, ◌>>◌, pure, raise, or_raise, lift}
use opentitan_provisioning.Base.Dict.{Dict, lookup}
use opentitan_provisioning.Base.Dict
use opentitan_provisioning.Proto.{Bytes}
use opentitan_provisioning.Pk11.{Ctx, Session, Object, Attribute}
use opentitan_provisioning.Pk11.Connect.{load, tokens, open_session, login, normal_user}
use opentitan_provisioning.Pk11.Find.{
  find_key_by_label, find_private_key, uid, class_secret_key, class_private_key, class_public_key,
}
use opentitan_provisioning.Spm.SessionQueue.{SessionQueue, new_session_queue, insert, execute_cmd}

pub record HsmConfig : Type 0 where
  pub so_path : String
  pub slot_id : ℕ
  pub hsm_password : String
  pub num_sessions : ℕ
  pub symmetric_keys : List String
  pub private_keys : List String
  pub public_keys : List String

-- The identifiers of the keys, by label. The queue of the sessions, which the source's HSM points
-- to, is the state of the operations.
pub record Hsm : Type 0 where
  pub symmetric_keys : Dict String Bytes
  pub private_keys : Dict String Bytes
  pub public_keys : Dict String Bytes

-- `insert` on the queue that only this call knows.
grown : Result (Unit {0}) × SessionQueue → Result SessionQueue
grown (ok _, q) = ok q
grown (err e, q) = err e

inserted : Session → SessionQueue → Result SessionQueue
unfolding insert grown
inserted s q = grown (insert s q)

unfoldable pub or_error : {A : Type 0} → Option A → Error → Result A
or_error none e = err e
or_error (some a) e = ok a

module _ {H : Type 0} (ctx : Ctx H) where
  unfoldable pub open_loop : ℕ → String → ℕ → SessionQueue → Exec H SessionQueue
  unfolding inserted
  open_loop slot hsm_pw zero sessions = pure sessions
  open_loop slot hsm_pw (suc n) sessions =
      or_raise (open_session ctx slot) (errorf "fail to open session to HSM") >>= λ s.
      or_raise (login ctx s normal_user hsm_pw) (errorf "fail to login into the HSM") >>= λ _.
      or_raise (lift (inserted s sessions)) (errorf "failed to enqueue session") >>= λ sessions'.
      open_loop slot hsm_pw n sessions'

  unfoldable pub open_sessions : String → String → ℕ → ℕ → Exec H SessionQueue
  unfolding or_error
  open_sessions so_path hsm_pw tok_slot num_sessions = do
    or_raise (load ctx so_path) (errorf "fail to load pk11")
    toks ← or_raise (tokens ctx) (errorf "failed to open tokens")
    slot ← lift (or_error (get_elem? toks tok_slot) (errorf "fail to find slot number"))
    open_loop slot hsm_pw num_sessions (new_session_queue num_sessions)

-- A command on the queue that only this call knows; the queue comes back beside the result.
with_queue_result : {H A : Type 0} → Result A × (H × SessionQueue) → Result (A × SessionQueue) × H
with_queue_result (ok a, (h, q)) = (ok (a, q), h)
with_queue_result (err e, (h, q)) = (err e, h)

unfoldable pub with_queue :
    {H A : Type 0} → SessionQueue → (Session → Exec H A) → Exec H (A × SessionQueue)
unfolding with_queue_result
with_queue sq cmd h = with_queue_result (execute_cmd cmd (h, sq))

module _ {H : Type 0} (ctx : Ctx H) (fuel : ℕ) where
  unfoldable pub get_key_id_by_label : Session → Attribute → String → Exec H Bytes
  unfolding or_error
  get_key_id_by_label session class_key_type label = do
    key_obj ← find_key_by_label ctx fuel session class_key_type label
    id ← uid ctx key_obj
    lift (or_error id (errorf "fail to find ID attribute"))

  -- for _, key := range cfg.SymmetricKeys, and the loops over the other two lists
  unfoldable pub key_ids :
      Attribute → String → List String → Session → Dict String Bytes → Exec H (Dict String Bytes)
  key_ids class message [] session ids = pure ids
  key_ids class message (key ∷ keys) session ids =
      or_raise (get_key_id_by_label session class key) (errorf message) >>= λ id.
      key_ids class message keys session (Dict.insert key id ids)

  unfoldable pub find_keys : HsmConfig → Session → Exec H Hsm
  find_keys cfg session = do
    symmetric ←
        key_ids class_secret_key "fail to find symmetric key ID" cfg.symmetric_keys session []
    private ← key_ids class_private_key "fail to find private key ID" cfg.private_keys session []
    public ← key_ids class_public_key "fail to find public key ID" cfg.public_keys session []
    pure (record { symmetric_keys = symmetric; private_keys = private; public_keys = public })

  unfoldable pub new_hsm : HsmConfig → Exec H (Hsm × SessionQueue)
  new_hsm cfg = do
    sq ←
        or_raise (open_sessions ctx cfg.so_path cfg.hsm_password cfg.slot_id cfg.num_sessions)
          (errorf "fail to get session")
    with_queue sq (find_keys cfg)

  -- What VerifySession does with the session it is given.
  verify : Hsm → Session → Exec H (Unit {0})
  unfolding or_error
  verify h session = do
    kca ←
        lift (or_error (lookup "KCAPriv" h.private_keys) (errorf "failed to find KCAPriv key UID"))
    key ← or_raise (find_private_key ctx fuel session kca) (errorf "failed to verify session")
    pure tt

  unfoldable pub verify_session : Hsm → Exec (H × SessionQueue) (Unit {0})
  unfolding verify
  verify_session h = execute_cmd (verify h)
