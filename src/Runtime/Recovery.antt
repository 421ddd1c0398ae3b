-- ===== src/Runtime/Recovery.antt =====
-- app/runtime.py: `recover`, `_recover_upload` and `_recover_deletion`. Instants are microseconds.
pub mod Uploads
pub mod Verdicts
pub mod Races
pub mod Reads
pub mod Rounds
use mathlib.Core.Logic.{ite}
use ctyun_zos.Prelude.{
  ℕ, zero, suc, ◌+◌, ◌-◌, ◌*◌, Bool, true, false, ◌&&◌, Option, none, some, List, [], ◌∷◌, ◌++◌,
  map, if◌then◌else◌, leb, is_some, length, take, drop, Text,
}
use ctyun_zos.Data.{
  Status, succeeded, failed, unknown, ObjectStatus, pending, present, present_unclaimed, absent,
  deleting, deleted, delete_unknown, Code, service_restarted_object_not_found, object_size_mismatch,
  recovery_pending, storage_config_unavailable, delete_pending, delete_failed, object_changed, Task,
  Db,
}
use ctyun_zos.Database.Tasks.{Change, update_task}
use ctyun_zos.Database.Tasks.Pending.{text_place, pending_tasks, pending_deletions}
use ctyun_zos.World.{
  Env, World, Result, ok, raised, Exn, provider_error, Action, pure, raise, attempt, ◌>>=◌, ◌>>◌,
  emit, Event, utc_now, database_call, query,
}
use ctyun_zos.Providers.{head_object}
use ctyun_zos.Providers.Metadata.{ObjectMetadata, require_upload_metadata, matches_object_metadata}
use ctyun_zos.Runtime.Cache.{recovery_provider_for_config}

pub ObjectStatus-discrete : Discrete ObjectStatus
ObjectStatus-discrete = hlevel

pub Code-discrete : Discrete Code
Code-discrete = hlevel

-- The token decides whom a present object belongs to.
abbrev pub present_status : Task → ObjectStatus
present_status t = if is_some t.delete_token_hash then present else present_unclaimed

abbrev pub not_found_changes : ℕ → List Change
not_found_changes now =
    Change.status failed
    ∷ Change.object_status absent
    ∷ Change.error_code (some service_restarted_object_not_found)
    ∷ Change.finished_at (some now)
    ∷ []

abbrev pub found_changes : Task → ObjectMetadata → ℕ → List Change
found_changes t m now =
    Change.status succeeded
    ∷ Change.size_bytes (some m.size_bytes)
    ∷ Change.etag m.etag
    ∷ Change.version_id m.version_id
    ∷ Change.object_status (present_status t)
    ∷ Change.error_code none
    ∷ Change.finished_at (some now)
    ∷ []

abbrev pub unresolved_changes : Code → List Change
unresolved_changes code =
    Change.status unknown ∷ Change.object_status pending ∷ Change.error_code (some code) ∷ []

-- A size mismatch keeps its code; any other failure is `RECOVERY_PENDING`.
abbrev pub unresolved_code : Exn → Code
unresolved_code (provider_error object_size_mismatch _) = object_size_mismatch
unresolved_code _ = recovery_pending

-- A recorded size must be the size of the object.
abbrev pub check_size : Option ℕ → ObjectMetadata → Action (Unit {0})
check_size none m w = (ok tt, w)
check_size (some size) m w = (require_upload_metadata m size, w)

-- What a recovered deletion becomes, by the result of HeadObject.
unfoldable pub deletion_verdict : Task → Result (Option ObjectMetadata) → ObjectStatus × Option Code
deletion_verdict t (raised (provider_error recovery_pending _)) =
    (delete_unknown, some storage_config_unavailable)
deletion_verdict t (raised (provider_error _ _)) = (delete_unknown, some delete_pending)
deletion_verdict t (raised _) = (delete_unknown, some storage_config_unavailable)
deletion_verdict t (ok none) = (deleted, none)
deletion_verdict t (ok (some m)) =
    if matches_object_metadata m t.size_bytes t.etag t.version_id
    then (present_status t, some delete_failed)
    else (present_status t, some object_changed)

abbrev pub same_code : Option Code → Option Code → Bool
same_code none none = true
same_code (some a) (some b) = ite (Code-discrete a b) true false
same_code _ _ = false

abbrev pub recovery_event : ℕ → ObjectStatus → Event
recovery_event i deleted = Event.object_delete_recovered i
recovery_event i present = Event.object_delete_recovered i
recovery_event i present_unclaimed = Event.object_delete_recovered i
recovery_event i _ = Event.object_delete_recovery_pending i

-- asyncio.gather: every call runs, and the first exception is raised.
unfoldable pub gather : List (Action (Unit {0})) → Action (Unit {0})
gather [] w = (ok tt, w)
gather (m ∷ ms) w =
    let (r, w') = m w in
    let (rest, w'') = gather ms w' in (elim r [ ok _ ↦ rest | raised e ↦ raised e ], w'')

module _ (env : Env) where
  unfoldable pub settle_upload : Task → Option ObjectMetadata → Action (Unit {0})
  settle_upload t none = do
    now ← utc_now env
    database_call env (update_task t.id (not_found_changes now))
  settle_upload t (some m) = do
    check_size t.size_bytes m
    now ← utc_now env
    database_call env (update_task t.id (found_changes t m now))

  -- The `except` clauses, by how the `try` ended.
  unfoldable pub after_settled : Task → Result (Unit {0}) → Action (Unit {0})
  after_settled t (ok _) = pure tt
  after_settled t (raised e) =
      database_call env (update_task t.id (unresolved_changes (unresolved_code e)))

  unfoldable pub try_upload : Task → Action (Unit {0})
  try_upload t = do
    provider ← recovery_provider_for_config env t.storage_config_id
    metadata ← head_object env provider t.object_key none
    settle_upload t metadata

  unfoldable pub recover_upload : Task → Action (Unit {0})
  recover_upload t = do settled ← attempt (try_upload t); after_settled t settled

  unfoldable pub look_for_deleted : Task → Action (Option ObjectMetadata)
  look_for_deleted t = do
    provider ← recovery_provider_for_config env t.storage_config_id
    head_object env provider t.object_key t.version_id

  -- The time of a deletion is written only with `deleted`.
  abbrev pub deleted_now : ObjectStatus → Action (List Change)
  deleted_now deleted w =
      (ok (Change.deleted_at (some (env.clock w.draws)) ∷ []), record w { draws = w.draws + 1 })
  deleted_now _ w = (ok [], w)

  unfoldable pub record_verdict : Task → ObjectStatus × Option Code → Action (Unit {0})
  record_verdict t (to_status, code) =
      if ite (ObjectStatus-discrete t.object_status to_status) true false
        && same_code t.delete_error_code code
      then pure tt
      else (do
        more ← deleted_now to_status
        database_call env (
            update_task t.id
              (Change.object_status to_status ∷ Change.delete_error_code code ∷ more))
        emit (recovery_event t.id to_status))

  unfoldable pub recover_deletion : Task → Action (Unit {0})
  recover_deletion t = do
    metadata ← attempt (look_for_deleted t)
    record_verdict t (deletion_verdict t metadata)

  -- The tasks of one round: uploads first, and deletions as the batch leaves room.
  unfoldable pub recovery_work : Action (List Task × List Task)
  recovery_work = do
    now ← utc_now env
    later ← utc_now env
    uploads ← query env (
        pending_tasks (text_place (now - 1_000_000 * env.settings.stale_upload_seconds))
          env.settings.recovery_batch_size)
    deletions ← query env (
        pending_deletions (text_place (later - 1_000_000 * env.settings.stale_delete_seconds))
          (env.settings.recovery_batch_size - length uploads))
    pure (uploads, deletions)

  -- The loop over `work` by `width`, on fuel. `deadline` is set in the first round only, and is
  -- looked at from the second group on.
  abbrev pub out_of_time : Option ℕ → ℕ → Action Bool
  out_of_time none offset w = (ok false, w)
  out_of_time (some deadline) zero w = (ok false, w)
  out_of_time (some deadline) (suc offset) w =
      (ok (leb deadline (env.clock w.draws)), record w { draws = w.draws + 1 })

  unfoldable pub run_groups : ℕ → Option ℕ → ℕ → List (Action (Unit {0})) → Action (Unit {0})
  run_groups zero deadline offset work = pure tt
  run_groups (suc fuel) deadline offset [] = pure tt
  run_groups (suc fuel) deadline offset (m ∷ work) =
      let width = env.settings.recovery_max_concurrency in
      let rest = run_groups fuel deadline (offset + width) (drop width (m ∷ work)) in
      do
        late ← out_of_time deadline offset
        if late then pure tt else (do gather (take width (m ∷ work)); rest)

  -- The initial round has a budget of time.
  abbrev pub set_deadline : Option ℕ → Action (Option ℕ)
  set_deadline none w = (ok none, w)
  set_deadline (some budget) w =
      (ok (some (env.clock w.draws + budget)), record w { draws = w.draws + 1 })

  abbrev pub work_of : List Task → List Task → List (Action (Unit {0}))
  work_of uploads deletions = map recover_upload uploads ++ map recover_deletion deletions

  abbrev pub run_work : Option ℕ → List Task × List Task → Action (Unit {0})
  run_work budget (uploads, deletions) = do
    deadline ← set_deadline budget
    run_groups (length (work_of uploads deletions)) deadline 0 (work_of uploads deletions)

  abbrev pub start_recovery : Action (Unit {0})
  start_recovery w = (ok tt, record w { recovery_complete = false })

  -- An exception of a call leaves the round incomplete.
  abbrev pub end_recovery : Action (Unit {0})
  end_recovery w = (
    ok tt,
    record w {
      recovery_complete = true;
      last_recovery_success_at = some (env.clock w.draws);
      draws = w.draws + 1;
    },
  )

  unfoldable pub recover : Option ℕ → Action (Unit {0})
  recover budget = do start_recovery; work ← recovery_work; run_work budget work; end_recovery
