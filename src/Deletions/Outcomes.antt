-- ===== src/Deletions/Outcomes.antt =====
-- Where a deletion leaves the task, and what its answer says of it.
use ctyun_zos.Prelude.{
  ℕ, ◌+◌, ◌≡◌, ◌⊎◌, refl, Bool, true, false, Option, none, some, List, ◌∷◌, arith, inl, inr,
  Bool-cases,
}
use ctyun_zos.Data.{
  succeeded, ObjectStatus, deleted, delete_unknown, Code, delete_pending, database_error_code,
  delete_failed, object_changed, storage_config_unavailable, Task,
}
use ctyun_zos.Database.Tasks.{Change, assign_all, succeeded_status, check_task, update_task}
use ctyun_zos.Database.Tasks.Rows.{find_row}
use ctyun_zos.Interference.{LeavesRow, Holds, update_cases}
use ctyun_zos.World.{
  Env, World, ClientOutcome, HeadResponse, Result, ok, raised, api, Provider, attempt, ◌>>=◌,
  database_call, query,
}
use ctyun_zos.Providers.{head_object, delete_object, head_result, delete_result}
use ctyun_zos.Providers.Results.{head_result_cases, delete_result_cases}
use ctyun_zos.Providers.Metadata.{matches_object_metadata}
use ctyun_zos.Runtime.Cache.{provider_for_config, provider_for_record}
use ctyun_zos.Deletions.{
  DeleteResponse, deleted_response, pending_response, deletion_changes, on_saved, save_deletion,
  delete_is_pending, give_back, finish_deletion, after_confirmation, after_delete, after_head,
  with_provider, strict_delete,
}

-- The row that a deletion leaves in place of `row`, by its answer.
abbrev pub Reported : Task → ObjectStatus → Result DeleteResponse → Option Task → Type 0
Reported row deletable (ok (deleted_response _ _ at _ _)) after =
    after ≡ some (record row { object_status = deleted; delete_error_code = none; deleted_at = at })
Reported row deletable (ok (pending_response _ _)) after =
    after
    ≡ some (record row { object_status = delete_unknown; delete_error_code = some delete_pending })
Reported row deletable (raised (api _ database_error_code _)) after = after ≡ some row
Reported row deletable (raised (api _ code _)) after =
    after ≡ some (record row { object_status = deletable; delete_error_code = some code })
Reported row deletable (raised _) after = ⊥

-- How a write of the status columns ends: SQLite fails, and the row stays as it was, or the row
-- has the changes.
abbrev Saved : ℕ → Task → List Change → Result (Unit {0}) → Option Task → Type 0
Saved i row cs r after =
    ((r ≡ raised (api 500 database_error_code (some i))) × (after ≡ some row))
    ⊎ ((r ≡ ok tt) × (after ≡ some (assign_all cs row)))

abbrev pub row_of : Task → World → Option Task
row_of t w = find_row t.id w.db.tasks

module _ (env : Env) (t row : Task) (succeeds : row.status ≡ succeeded)
    (alone : LeavesRow env t.id) where
  Holds-provider_for_config :
      (i : ℕ) (w : World) → Holds t.id row w → Holds t.id row (provider_for_config env i w).1
  unfolding provider_for_config provider_for_record query
  Holds-provider_for_config i w h = ground (arith, alone.row w.draws w.db, alone.valid w.draws w.db)

  Saved-on_saved :
      (o : ObjectStatus) (code : Option Code) (c : Change) (cs : List Change) (w : World)
      → check_task (assign_all (c ∷ cs) row) ≡ true
      → Holds t.id row w
      → let (r, w') =
          (attempt (database_call env (update_task t.id (c ∷ cs))) >>= on_saved t o code) w in
        Saved t.id row (c ∷ cs) r (row_of t w')
  Saved-on_saved o code c cs w check h = elim (update_cases env t.id row alone c cs w check h) [
    | inl (w', failed, kept) ↦ rw failed (inl (refl, kept.1))
    | inr (w', done, changed) ↦ rw done (inr (refl, changed))
  ]

  Saved-save_deletion :
      (o : ObjectStatus) (code : Option Code) (at : Option ℕ) (w : World)
      → succeeded_status o ≡ true
      → Holds t.id row w
      → Saved t.id row
          (deletion_changes o code at)
          (save_deletion env t o code at w).0
          (row_of t (save_deletion env t o code at w).1)
  unfolding save_deletion
  Saved-save_deletion o code none w s h =
      Saved-on_saved o code (Change.object_status o) _ w (rw (succeeds, s) refl) h
  Saved-save_deletion o code (some a) w s h =
      Saved-on_saved o code (Change.object_status o) _ w (rw (succeeds, s) refl) h

  Reported-delete_is_pending :
      (d : ObjectStatus) (w : World)
      → Holds t.id row w
      → Reported row d (delete_is_pending env t w).0 (row_of t (delete_is_pending env t w).1)
  unfolding delete_is_pending
  Reported-delete_is_pending d w h =
      elim (Saved-save_deletion delete_unknown (some delete_pending) none w refl h) [
        | inl (failed, kept) ↦ rw failed kept
        | inr (done, changed) ↦ rw done changed
      ]

  Reported-finish_deletion :
      (d : ObjectStatus) (absent : Bool) (w : World)
      → Holds t.id row w
      → Reported row d
          (finish_deletion env t absent w).0
          (row_of t (finish_deletion env t absent w).1)
  unfolding finish_deletion
  Reported-finish_deletion d absent w h =
      elim (Saved-save_deletion deleted none (some (env.clock w.draws))
        (record w { draws = w.draws + 1 }) refl h) [
          | inl (failed, kept) ↦ rw failed kept
          | inr (done, changed) ↦ rw done changed
        ]

  module _ (d : ObjectStatus) (returns : succeeded_status d ≡ true) where
    Reported-give_back :
        (code : Code) (status : ℕ) (w : World)
        → ((after : Option Task)
            → after ≡ some (record row { object_status = d; delete_error_code = some code })
            → Reported row d (raised (api status code (some t.id))) after)
        → Holds t.id row w
        → let (r, w') = give_back env t d code (api status code (some t.id)) w in
          Reported row d r (row_of t w')
    unfolding give_back
    Reported-give_back code status w reports h =
        elim (Saved-save_deletion d (some code) none w returns h) [
          | inl (failed, kept) ↦ rw failed kept
          | inr (done, changed) ↦ rw done (reports _ changed)
        ]

    give_back_failed :
        (w : World)
        → Holds t.id row w
        → let (r, w') = give_back env t d delete_failed (api 502 delete_failed (some t.id)) w in
          Reported row d r (row_of t w')
    give_back_failed w h = Reported-give_back delete_failed 502 w (λ _ e. e) h

    Reported-after_confirmation :
        (reply : ClientOutcome HeadResponse) (w : World)
        → Holds t.id row w
        → let (r, w') = after_confirmation env t d (head_result reply) w in
          Reported row d r (row_of t w')
    unfolding after_confirmation
    Reported-after_confirmation reply w h = elim (head_result_cases reply) [
      | inl (m, e) ↦
          rw e (elim (Bool-cases (matches_object_metadata m t.size_bytes t.etag t.version_id)) [
            | inl same ↦ rw same (give_back_failed w h)
            | inr differs ↦ rw differs (Reported-delete_is_pending d w h)
          ])
      | inr (inl e) ↦ rw e (Reported-finish_deletion d false w h)
      | inr (inr (c, e)) ↦ rw e (Reported-delete_is_pending d w h)
    ]

    Reported-after_delete :
        (p : Provider) (reply : ClientOutcome (Unit {0})) (w : World)
        → Holds t.id row w
        → let (r, w') = after_delete env t d p (delete_result reply) w in
          Reported row d r (row_of t w')
    unfolding after_delete head_object
    Reported-after_delete p reply w h = elim (delete_result_cases reply) [
      | inl e ↦ rw e (Reported-after_confirmation _ _ h)
      | inr (inl (c, e)) ↦ rw e (Reported-delete_is_pending d w h)
      | inr (inr (c, e)) ↦ rw e (give_back_failed w h)
    ]

    Reported-after_head :
        (p : Provider) (reply : ClientOutcome HeadResponse) (w : World)
        → Holds t.id row w
        → let (r, w') = after_head env t d p (head_result reply) w in Reported row d r (row_of t w')
    unfolding after_head delete_object
    Reported-after_head p reply w h = elim (head_result_cases reply) [
      | inl (m, e) ↦
          rw e (elim (Bool-cases (matches_object_metadata m t.size_bytes t.etag t.version_id)) [
            | inl same ↦ rw same (Reported-after_delete p _ _ h)
            | inr differs ↦ rw differs (Reported-give_back object_changed 409 w (λ _ e. e) h)
          ])
      | inr (inl e) ↦ rw e (Reported-finish_deletion d true w h)
      | inr (inr (c, e)) ↦ rw e (Reported-delete_is_pending d w h)
    ]

    Reported-with_provider :
        (provider : Result Provider) (w : World)
        → Holds t.id row w
        → let (r, w') = with_provider env t d provider w in Reported row d r (row_of t w')
    unfolding with_provider head_object
    Reported-with_provider (raised _) w h =
        Reported-give_back storage_config_unavailable 503 w (λ _ e. e) h
    Reported-with_provider (ok p) w h = Reported-after_head p _ _ h

-- From the claim on, on a valid table that holds the row as succeeded, if no other request writes
-- the row, and for a status that such a row may go back to: the answer tells where the task is. A 200
-- leaves it deleted, with the reported time; a 202 leaves it `delete_unknown`; a failed write
-- leaves it claimed; any other error gives it back to the status that it was claimed from, with
-- the code of the error. Nothing else happens to the row, and no other exception is raised.
pub strict_delete-Reported :
    (env : Env) (t row : Task) (d : ObjectStatus) (w : World)
    → row.status ≡ succeeded
    → LeavesRow env t.id
    → succeeded_status d ≡ true
    → Holds t.id row w
    → let (r, w') = strict_delete env t d w in Reported row d r (row_of t w')
unfolding strict_delete
strict_delete-Reported env t row d w succeeds alone returns h =
    Reported-with_provider env t row succeeds alone d returns _ _
      (Holds-provider_for_config env t row succeeds alone t.storage_config_id _ h)
