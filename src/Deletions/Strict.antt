-- ===== src/Deletions/Strict.antt =====
-- app/deletions.py: what a deletion request sends to the store, by the trace.
use ctyun_zos.Prelude.{
  ℕ, ◌+◌, ◌≡◌, refl, Bool, true, false, Option, none, some, List, [], ◌∷◌, arith, inl, inr,
  Bool-cases,
}
use ctyun_zos.Data.{ObjectStatus, present, present_unclaimed, Code, Task, Db, DbResult}
use ctyun_zos.Database.Tasks.{TaskRow, task_by_id}
use ctyun_zos.World.{
  Env, World, Result, ok, raised, Exn, provider_error, db_error, Provider, ◌>>=◌, Interaction,
  headed, deleted_object, database_call, query,
}
use ctyun_zos.Providers.{head_object, delete_object, head_result}
use ctyun_zos.Providers.Metadata.{ObjectMetadata, matches_object_metadata}
use ctyun_zos.Runtime.Cache.{provider_for_config, provider_for_record}
use ctyun_zos.Deletions.{
  DeleteRequest, DeleteResponse, save_deletion, delete_is_pending, give_back, finish_deletion,
  after_confirmation, after_delete, after_head, with_provider, strict_delete, lost_claim,
  after_claim, admit, claim, delete_admitted, delete_task_object, lift, is_admin_path,
}

-- The newest interaction is a HeadObject of this object and version, with a matching answer.
abbrev pub IsConfirmed : Task → List Interaction → Type 0
IsConfirmed t (headed key version reply ∷ _) =
    (key ≡ t.object_key)
    × (version ≡ t.version_id)
    × ((m : ObjectMetadata) × (head_result reply ≡ ok (some m))
        × (matches_object_metadata m t.size_bytes t.etag t.version_id ≡ true))
IsConfirmed t _ = ⊥

-- Each DeleteObject of the trace names the task's object and version, and was sent directly
-- after such a HeadObject.
abbrev pub IsStrict : Task → List Interaction → Type 0
IsStrict t [] = Unit {0}
IsStrict t (deleted_object key version _ ∷ rest) =
    (key ≡ t.object_key) × (version ≡ t.version_id) × IsConfirmed t rest × IsStrict t rest
IsStrict t (_ ∷ rest) = IsStrict t rest

module _ (env : Env) where
  pub trace-database_call :
      {A : Type 0} (method : Db → DbResult A) (w : World)
      → (database_call env method w).1.trace ≡ w.trace
  unfolding database_call
  trace-database_call method w = ground arith

  pub trace-query : {A : Type 0} (read : Db → A) (w : World) → (query env read w).1.trace ≡ w.trace
  unfolding query
  trace-query read w = ground arith

  trace-save_deletion :
      (t : Task) (o : ObjectStatus) (code : Option Code) (at : Option ℕ) (w : World)
      → (save_deletion env t o code at w).1.trace ≡ w.trace
  unfolding save_deletion
  trace-save_deletion t o code at w = grind (arith, trace-database_call)

  trace-provider_for_config : (i : ℕ) (w : World) → (provider_for_config env i w).1.trace ≡ w.trace
  unfolding provider_for_config provider_for_record
  trace-provider_for_config i w = grind (arith, trace-query)

  trace-delete_is_pending : (t : Task) (w : World) → (delete_is_pending env t w).1.trace ≡ w.trace
  unfolding delete_is_pending
  trace-delete_is_pending t w = grind (arith, trace-save_deletion)

  trace-give_back :
      (t : Task) (d : ObjectStatus) (code : Code) (e : Exn) (w : World)
      → (give_back env t d code e w).1.trace ≡ w.trace
  unfolding give_back
  trace-give_back t d code e w = grind (arith, trace-save_deletion)

  trace-finish_deletion :
      (t : Task) (absent : Bool) (w : World) → (finish_deletion env t absent w).1.trace ≡ w.trace
  unfolding finish_deletion
  trace-finish_deletion t absent w = grind (arith, trace-save_deletion)

  trace-after_confirmation :
      (t : Task) (d : ObjectStatus) (r : Result (Option ObjectMetadata)) (w : World)
      → (after_confirmation env t d r w).1.trace ≡ w.trace
  unfolding after_confirmation
  trace-after_confirmation t d (raised (provider_error c u)) w = trace-delete_is_pending t w
  trace-after_confirmation t d (raised _) w = refl
  trace-after_confirmation t d (ok none) w = trace-finish_deletion t false w
  trace-after_confirmation t d (ok (some m)) w =
      elim (Bool-cases (matches_object_metadata m t.size_bytes t.etag t.version_id)) [
        | inl same ↦ rw same (trace-give_back t d _ _ w)
        | inr differs ↦ rw differs (trace-delete_is_pending t w)
      ]

  IsStrict-after_delete :
      (t : Task) (d : ObjectStatus) (p : Provider) (r : Result (Unit {0})) (w : World)
      → IsStrict t w.trace
      → IsStrict t (after_delete env t d p r w).1.trace
  unfolding after_delete head_object
  IsStrict-after_delete t d p (raised (provider_error c true)) w h =
      rw (trace-delete_is_pending t w) h
  IsStrict-after_delete t d p (raised (provider_error c false)) w h =
      rw (trace-give_back t d _ _ w) h
  IsStrict-after_delete t d p (raised _) w h = h
  IsStrict-after_delete t d p (ok _) w h = rw trace-after_confirmation h

  IsStrict-after_head :
      (t : Task) (d : ObjectStatus) (p : Provider) (r : Result (Option ObjectMetadata)) (w : World)
      → ((m : ObjectMetadata)
          → r ≡ ok (some m)
          → matches_object_metadata m t.size_bytes t.etag t.version_id ≡ true
          → IsConfirmed t w.trace)
      → IsStrict t w.trace
      → IsStrict t (after_head env t d p r w).1.trace
  unfolding after_head delete_object
  IsStrict-after_head t d p (raised (provider_error c true)) w confirmed h =
      rw (trace-delete_is_pending t w) h
  IsStrict-after_head t d p (raised (provider_error c false)) w confirmed h =
      rw (trace-give_back t d _ _ w) h
  IsStrict-after_head t d p (raised _) w confirmed h = h
  IsStrict-after_head t d p (ok none) w confirmed h = rw (trace-finish_deletion t true w) h
  IsStrict-after_head t d p (ok (some m)) w confirmed h =
      elim (Bool-cases (matches_object_metadata m t.size_bytes t.etag t.version_id)) [
        | inl same ↦
            rw same (IsStrict-after_delete t d p _ _ (refl, refl, confirmed m refl same, h))
        | inr differs ↦ rw (differs, trace-give_back) h
      ]

  IsStrict-with_provider :
      (t : Task) (d : ObjectStatus) (r : Result Provider) (w : World)
      → IsStrict t w.trace
      → IsStrict t (with_provider env t d r w).1.trace
  unfolding with_provider head_object
  IsStrict-with_provider t d (raised _) w h = rw (trace-give_back t d _ _ w) h
  IsStrict-with_provider t d (ok p) w h =
      IsStrict-after_head t d p _ _ (λ m e same. (refl, refl, (m, e, same))) h

  IsStrict-strict_delete :
      (t : Task) (d : ObjectStatus) (w : World)
      → IsStrict t w.trace
      → IsStrict t (strict_delete env t d w).1.trace
  unfolding strict_delete
  IsStrict-strict_delete t d w h = IsStrict-with_provider t d _ _ (rw trace-provider_for_config h)

  trace-lost_claim :
      (admin : Bool) (i : ℕ) (current : Option TaskRow) (w : World)
      → (lost_claim env admin i current w).1.trace ≡ w.trace
  unfolding lost_claim
  trace-lost_claim admin i none w = refl
  trace-lost_claim true i (some row) w = refl
  trace-lost_claim false i (some row) w = ground arith

  trace-recheck :
      (admin : Bool) (i : ℕ) (w : World)
      → ((query env (task_by_id i) >>= λ current. lost_claim env admin i current) w).1.trace
        ≡ w.trace
  trace-recheck admin i w = grind (arith, trace-query, trace-lost_claim)

  IsStrict-after_claim :
      (admin : Bool) (t : Task) (i : ℕ) (r : Result Bool) (w : World)
      → IsStrict t w.trace
      → IsStrict t (after_claim env admin t i r w).1.trace
  unfolding after_claim
  IsStrict-after_claim admin t i (raised (db_error e)) w h = h
  IsStrict-after_claim admin t i (raised _) w h = h
  IsStrict-after_claim admin t i (ok false) w h = rw (trace-recheck admin i w) h
  IsStrict-after_claim true t i (ok true) w h = IsStrict-strict_delete t present_unclaimed w h
  IsStrict-after_claim false t i (ok true) w h = IsStrict-strict_delete t present w h

  trace-claim :
      (admin : Bool) (q : DeleteRequest) (w : World) → (claim env admin q w).1.trace ≡ w.trace
  unfolding claim
  trace-claim true q w = grind (arith, trace-database_call)
  trace-claim false q w = grind (arith, trace-database_call)

  IsStrict-delete_admitted :
      (admin : Bool) (q : DeleteRequest) (t : Task) (early : Option DeleteResponse) (w : World)
      → IsStrict t w.trace
      → IsStrict t (delete_admitted env admin q t early w).1.trace
  unfolding delete_admitted
  IsStrict-delete_admitted admin q t (some response) w h = h
  IsStrict-delete_admitted admin q t none w h =
      IsStrict-after_claim admin t q.task_id _ _ (rw trace-claim h)

  IsStrict-early :
      (admin : Bool) (q : DeleteRequest) (t : Task) (r : Result (Option DeleteResponse)) (w : World)
      → IsStrict t w.trace
      → IsStrict t ((lift r >>= λ early. delete_admitted env admin q t early) w).1.trace
  IsStrict-early admin q t (raised e) w h = h
  IsStrict-early admin q t (ok early) w h = IsStrict-delete_admitted admin q t early w h

  -- Whatever the outside does, and whatever other requests write meanwhile: every DeleteObject
  -- that a deletion request sends names the object key and the version of the task row that the
  -- request read, and is sent directly after a HeadObject of the same key and version whose answer
  -- matched that row.
  pub delete_task_object-IsStrict :
      (q : DeleteRequest) (w : World) (row : TaskRow)
      → task_by_id q.task_id (env.others w.draws w.db) ≡ some row
      → IsStrict row.task w.trace
      → IsStrict row.task (delete_task_object env q w).1.trace
  unfolding delete_task_object query
  delete_task_object-IsStrict q w row found h = elim (Bool-cases (env.fault w.draws)) [
    | inl fault ↦ ground arith
    | inr fine ↦
        let admin = is_admin_path q.path in
        let next = record w { db = env.others w.draws w.db; draws = w.draws + 1 } in
        ground (arith, found, IsStrict-early admin q row.task (admit env admin q row.task) next h)
  ]
