-- ===== src/Runtime/Recovery/Reads.antt =====
-- What the steps of recovery (app/runtime.py) send to the store, by the trace.
use ctyun_zos.Prelude.{
  ℕ, ◌≡◌, refl, true, false, Option, none, some, List, [], ◌∷◌, ◌++◌, arith, All, Bool-cases, inl,
  inr, ap, ◌&&◌, Text,
}
use ctyun_zos.Data.{ObjectStatus, deleted, Code, Task, Db, DbResult, committed, rolled_back}
use ctyun_zos.World.{
  Env, World, Interaction, headed, uploaded, deleted_object, Result, ok, raised, Action, attempt,
  continue, ◌>>=◌, settle, database_call, query, emit, utc_now, Provider, ◌>>◌,
}
use mathlib.Core.Logic.{ite}
use ctyun_zos.Database.Tasks.{Change, update_task}
use ctyun_zos.Providers.{head_object}
use ctyun_zos.Providers.Metadata.{ObjectMetadata}
use ctyun_zos.Runtime.Cache.{recovery_provider_for_config}
use ctyun_zos.Runtime.Recovery.{
  settle_upload, after_settled, try_upload, recover_upload, look_for_deleted, record_verdict,
  recover_deletion, deletion_verdict, gather, check_size, deleted_now, not_found_changes,
  found_changes, unresolved_changes, unresolved_code, ObjectStatus-discrete, same_code,
  recovery_event,
}

-- A HeadObject request.
abbrev pub IsHead : Interaction → Type 0
IsHead (headed _ _ _) = Unit {0}
IsHead (uploaded _ _) = ⊥
IsHead (deleted_object _ _ _) = ⊥

-- The store has been sent HeadObject requests and nothing else.
abbrev pub OnlyHeads : {A : Type 0} → Action A → World → Type 0
OnlyHeads m w = (xs : List Interaction) × All IsHead xs × ((m w).1.trace ≡ xs ++ w.trace)

abbrev pub SendsHeads : {A : Type 0} → Action A → Type 0
SendsHeads m = (w : World) → OnlyHeads m w

pub silent : {A : Type 0} (m : Action A) (w : World) → (m w).1.trace ≡ w.trace → OnlyHeads m w
silent m w e = ([], tt, e)

All-append : (xs ys : List Interaction) → All IsHead xs → All IsHead ys → All IsHead (xs ++ ys)
All-append [] ys a b = b
All-append (x ∷ xs) ys a b = (a.0, All-append xs ys a.1 b)

append_assoc : (xs ys zs : List Interaction) → (xs ++ ys) ++ zs ≡ xs ++ (ys ++ zs)
append_assoc [] ys zs = refl
append_assoc (x ∷ xs) ys zs = ap (λ r. x ∷ r) (append_assoc xs ys zs)

-- A step after a step: from a world on, the later requests stand in front.
heads_after :
    (xs ys : List Interaction) (start middle end : List Interaction)
    → All IsHead xs
    → All IsHead ys
    → middle ≡ xs ++ start
    → end ≡ ys ++ middle
    → (zs : List Interaction) × All IsHead zs × (end ≡ zs ++ start)
heads_after xs ys start middle end a b e f =
    (ys ++ xs, All-append ys xs b a, rw (f, e, append_assoc ys xs start) refl)

OnlyHeads-continue :
    {A B : Type 0} (f : A → Action B) (r : Result A) (w : World)
    → ((a : A) → SendsHeads (f a))
    → OnlyHeads (continue r f) w
OnlyHeads-continue f (ok a) w hf = hf a w
OnlyHeads-continue f (raised e) w hf = ([], tt, refl)

pub OnlyHeads-bind :
    {A B : Type 0} (m : Action A) (f : A → Action B)
    → SendsHeads m
    → ((a : A) → SendsHeads (f a))
    → SendsHeads (m >>= f)
OnlyHeads-bind m f hm hf w =
    let (xs, a, e) = hm w in
    let (ys, b, g) = OnlyHeads-continue f (m w).0 (m w).1 hf in
    heads_after xs ys w.trace (m w).1.trace ((m >>= f) w).1.trace a b e g

module _ (env : Env) where
  OnlyHeads-settle : {A : Type 0} (r : DbResult A) → SendsHeads (settle r)
  OnlyHeads-settle (committed a db) w = ([], tt, refl)
  OnlyHeads-settle (rolled_back e) w = ([], tt, refl)

  OnlyHeads-database_call :
      {A : Type 0} (method : Db → DbResult A) → SendsHeads (database_call env method)
  unfolding database_call
  OnlyHeads-database_call method w = elim (Bool-cases (env.fault w.draws)) [
    | inl fault ↦ rw fault ([], tt, refl)
    | inr fine ↦ rw fine (OnlyHeads-settle (method (env.others w.draws w.db)) _)
  ]

  pub OnlyHeads-query : {A : Type 0} (read : Db → A) → SendsHeads (query env read)
  unfolding query
  OnlyHeads-query read w = elim (Bool-cases (env.fault w.draws)) [
    | inl fault ↦ rw fault ([], tt, refl)
    | inr fine ↦ rw fine ([], tt, refl)
  ]

  OnlyHeads-provider : (i : ℕ) → SendsHeads (recovery_provider_for_config env i)
  unfolding recovery_provider_for_config query
  OnlyHeads-provider i w = silent (recovery_provider_for_config env i) w (ground arith)

  OnlyHeads-head_object :
      (p : Provider) (key : Text) (version : Option ℕ) → SendsHeads (head_object env p key version)
  unfolding head_object
  OnlyHeads-head_object p key version w =
      (headed key version (env.head w.draws p key version) ∷ [], (tt, tt), refl)

  OnlyHeads-look :
      (i : ℕ) (key : Text) (version : Option ℕ)
      → SendsHeads (recovery_provider_for_config env i >>= λ p. head_object env p key version)
  OnlyHeads-look i key version =
      OnlyHeads-bind (recovery_provider_for_config env i) (λ p. head_object env p key version)
        (OnlyHeads-provider i) (λ p. OnlyHeads-head_object p key version)

  -- A write with the time of the clock in it.
  OnlyHeads-stamped :
      {A : Type 0} (f : ℕ → Action A)
      → ((now : ℕ) → SendsHeads (f now))
      → SendsHeads (utc_now env >>= f)
  OnlyHeads-stamped f h = OnlyHeads-bind (utc_now env) f (λ w. ([], tt, refl)) h

  OnlyHeads-check_size : (size : Option ℕ) (m : ObjectMetadata) → SendsHeads (check_size size m)
  OnlyHeads-check_size none m w = ([], tt, refl)
  OnlyHeads-check_size (some n) m w = ([], tt, refl)

  OnlyHeads-settle_upload :
      (t : Task) (m : Option ObjectMetadata) → SendsHeads (settle_upload env t m)
  unfolding settle_upload
  OnlyHeads-settle_upload t none =
      OnlyHeads-stamped (λ now. database_call env (update_task t.id (not_found_changes now)))
        (λ now. OnlyHeads-database_call (update_task t.id (not_found_changes now)))
  OnlyHeads-settle_upload t (some m) =
      OnlyHeads-bind (check_size t.size_bytes m)
        (λ _. utc_now env >>= λ now. database_call env (update_task t.id (found_changes t m now)))
        (OnlyHeads-check_size t.size_bytes m)
        (λ _.
          OnlyHeads-stamped (λ now. database_call env (update_task t.id (found_changes t m now)))
            (λ now. OnlyHeads-database_call (update_task t.id (found_changes t m now))))

  OnlyHeads-after_settled : (t : Task) (r : Result (Unit {0})) → SendsHeads (after_settled env t r)
  unfolding after_settled
  OnlyHeads-after_settled t (ok _) w = ([], tt, refl)
  OnlyHeads-after_settled t (raised e) w =
      OnlyHeads-database_call (update_task t.id (unresolved_changes (unresolved_code e))) w

  OnlyHeads-try_upload : (t : Task) → SendsHeads (try_upload env t)
  unfolding try_upload
  OnlyHeads-try_upload t =
      OnlyHeads-bind (recovery_provider_for_config env t.storage_config_id)
        (λ p. head_object env p t.object_key none >>= λ m. settle_upload env t m)
        (OnlyHeads-provider t.storage_config_id)
        (λ p.
          OnlyHeads-bind (head_object env p t.object_key none) (λ m. settle_upload env t m)
            (OnlyHeads-head_object p t.object_key none) (OnlyHeads-settle_upload t))

  OnlyHeads-attempt : {A : Type 0} (m : Action A) → SendsHeads m → SendsHeads (attempt m)
  OnlyHeads-attempt m h w = h w

  pub OnlyHeads-recover_upload : (t : Task) → SendsHeads (recover_upload env t)
  unfolding recover_upload
  OnlyHeads-recover_upload t =
      OnlyHeads-bind (attempt (try_upload env t)) (after_settled env t)
        (OnlyHeads-attempt (try_upload env t) (OnlyHeads-try_upload t)) (OnlyHeads-after_settled t)

  OnlyHeads-deleted_now : (o : ObjectStatus) → SendsHeads (deleted_now env o)
  OnlyHeads-deleted_now deleted w = ([], tt, refl)
  OnlyHeads-deleted_now _ w = ([], tt, refl)

  OnlyHeads-record_verdict :
      (t : Task) (v : ObjectStatus × Option Code) → SendsHeads (record_verdict env t v)
  unfolding record_verdict
  OnlyHeads-record_verdict t (o, code) w =
      elim (Bool-cases (
        ite (ObjectStatus-discrete t.object_status o) true false
        && same_code t.delete_error_code code)) [
          | inl same ↦ rw same ([], tt, refl)
          | inr differs ↦ rw differs (
              OnlyHeads-bind (deleted_now env o)
                (λ more.
                  database_call env (
                    update_task t.id
                      (Change.object_status o ∷ Change.delete_error_code code ∷ more))
                  >> emit (recovery_event t.id o))
                (OnlyHeads-deleted_now o)
                (λ more.
                  OnlyHeads-bind
                    (database_call env (
                      update_task t.id
                        (Change.object_status o ∷ Change.delete_error_code code ∷ more)))
                    (λ _. emit (recovery_event t.id o))
                    (OnlyHeads-database_call (
                      update_task t.id
                        (Change.object_status o ∷ Change.delete_error_code code ∷ more)))
                    (λ _ w'. ([], tt, refl)))
                w)
        ]

  pub OnlyHeads-recover_deletion : (t : Task) → SendsHeads (recover_deletion env t)
  unfolding recover_deletion look_for_deleted
  OnlyHeads-recover_deletion t =
      OnlyHeads-bind (attempt (look_for_deleted env t))
        (λ m. record_verdict env t (deletion_verdict t m))
        (OnlyHeads-attempt (look_for_deleted env t)
          (OnlyHeads-look t.storage_config_id t.object_key t.version_id))
        (λ m. OnlyHeads-record_verdict t (deletion_verdict t m))

  pub OnlyHeads-gather :
      (ms : List (Action (Unit {0}))) → All SendsHeads ms → SendsHeads (gather ms)
  unfolding gather
  OnlyHeads-gather [] h w = ([], tt, refl)
  OnlyHeads-gather (m ∷ ms) h w =
      let (xs, a, e) = h.0 w in
      let (ys, b, g) = OnlyHeads-gather ms h.1 (m w).1 in
      heads_after xs ys w.trace (m w).1.trace (gather (m ∷ ms) w).1.trace a b e g
