-- ===== src/Deletions.antt =====
-- app/deletions.py: the strict deletion of a task's object. The handler is split where it awaits:
-- admission, the claim, the first HeadObject, DeleteObject, and the confirming HeadObject.
pub mod Strict
pub mod Outcomes
pub mod Requests
use ctyun_zos.Prelude.{
  ℕ, Bool, true, false, not, ◌&&◌, ◌||◌, Option, none, some, List, [], ◌∷◌, if◌then◌else◌, is_some,
  Text, codes, text_eq, starts_with,
}
use ctyun_zos.Data.{
  Status, succeeded, ObjectStatus, pending, present, present_unclaimed, absent, legacy_unverified,
  deleting, deleted, delete_unknown, Code, bad_request, task_not_found, delete_in_progress,
  object_not_deletable, object_not_unclaimed, delete_token_invalid, object_changed, delete_failed,
  delete_pending, storage_config_unavailable, database_error_code, Task, Db, DbError,
}
use ctyun_zos.Database.Tasks.{
  TaskRow, Change, update_task, claim_task_deletion, claim_unclaimed_deletion, task_by_id,
}
use ctyun_zos.World.{
  Env, World, Result, ok, raised, Exn, api, provider_error, db_error, other, Provider, Action, pure,
  raise, raise_if, or_raise, attempt, ◌>>=◌, ◌>>◌, emit, Event, is_sqlite_error, utc_now,
  database_call, query,
}
use ctyun_zos.Providers.{head_object, delete_object}
use ctyun_zos.Providers.Metadata.{ObjectMetadata, matches_object_metadata}
use ctyun_zos.Runtime.Cache.{provider_for_config}
use ctyun_zos.Security.{matches_delete_token}

-- What the handler reads of the HTTP request. `valid_uuid`: `UUID(task_id)` does not raise.
pub record DeleteRequest : Type 0 where
  pub request_id : ℕ
  pub path : Text
  pub task_id : ℕ
  pub valid_uuid : Bool
  pub transfer_encoding : Option Text
  pub content_length : Option Text
  pub delete_token : Option Text

-- The two JSON bodies: `deleted`, with status 200, and `delete_unknown`, with status 202.
pub data DeleteResponse : Type 0 where
  deleted_response : ℕ → Text → Option ℕ → Bool → Bool → DeleteResponse
  pending_response : ℕ → Text → DeleteResponse

abbrev pub deleted_body : Task → Option ℕ → Bool → Bool → DeleteResponse
deleted_body t deleted_at already_deleted already_absent =
    deleted_response t.id t.object_key deleted_at already_deleted already_absent

abbrev pub is_succeeded : Status → Bool
is_succeeded succeeded = true
is_succeeded _ = false

-- `None` lets the deletion go on.
unfoldable pub deletion_gate : Task → Result (Option DeleteResponse)
deletion_gate t = elim t.object_status [
  | deleted ↦ ok (some (deleted_body t t.deleted_at true false))
  | deleting ↦ raised (api 409 delete_in_progress (some t.id))
  | delete_unknown ↦ raised (api 409 delete_in_progress (some t.id))
  | present ↦
      if is_succeeded t.status then ok none else raised (api 409 object_not_deletable (some t.id))
  | _ ↦ raised (api 409 object_not_deletable (some t.id))
]

abbrev pub status_event : ℕ → ObjectStatus → Option Code → Event
status_event i deleted _ = Event.object_delete_succeeded i
status_event i delete_unknown _ = Event.object_delete_pending i
status_event i _ (some object_changed) = Event.object_delete_changed i
status_event i _ _ = Event.object_delete_failed i

-- `_save_deletion`, whose changes always name the two columns and sometimes `deleted_at`.
abbrev pub deletion_changes : ObjectStatus → Option Code → Option ℕ → List Change
deletion_changes o code none = Change.object_status o ∷ Change.delete_error_code code ∷ []
deletion_changes o code (some at) =
    Change.object_status o ∷ Change.delete_error_code code ∷ Change.deleted_at (some at) ∷ []

abbrev pub on_saved : Task → ObjectStatus → Option Code → Result (Unit {0}) → Action (Unit {0})
on_saved t o code (ok _) = emit (status_event t.id o code)
on_saved t o code (raised (db_error e)) = do
  raise_if (not (is_sqlite_error e)) (db_error e)
  emit (Event.database_error t.id)
  raise (api 500 database_error_code (some t.id))
on_saved t o code (raised e) = raise e

abbrev pub is_present_unclaimed : ObjectStatus → Bool
is_present_unclaimed present_unclaimed = true
is_present_unclaimed _ = false

-- A header that is present and not empty.
abbrev pub is_nonempty : Option Text → Bool
is_nonempty none = false
is_nonempty (some []) = false
is_nonempty (some (_ ∷ _)) = true

abbrev pub is_zero_length : Option Text → Bool
is_zero_length none = true
is_zero_length (some n) = text_eq n (codes "0")

abbrev pub is_admin_path : Text → Bool
is_admin_path = starts_with (codes "/v1/admin/")

-- content-length in {None, "0"}, and no transfer encoding
abbrev pub has_no_body : DeleteRequest → Bool
has_no_body q = not (is_nonempty q.transfer_encoding) && is_zero_length q.content_length

abbrev pub lift : {A : Type 0} → Result A → Action A
lift r w = (r, w)

module _ (env : Env) where
  unfoldable pub save_deletion : Task → ObjectStatus → Option Code → Option ℕ → Action (Unit {0})
  save_deletion t o code at = do
    saved ← attempt (database_call env (update_task t.id (deletion_changes o code at)))
    on_saved t o code saved

  unfoldable pub delete_is_pending : Task → Action DeleteResponse
  delete_is_pending t = do
    save_deletion t delete_unknown (some delete_pending) none
    pure (pending_response t.id t.object_key)

  -- The object stays, and the task goes back to the status it was claimed from.
  unfoldable pub give_back : Task → ObjectStatus → Code → Exn → Action DeleteResponse
  give_back t deletable code e = do save_deletion t deletable (some code) none; raise e

  unfoldable pub finish_deletion : Task → Bool → Action DeleteResponse
  finish_deletion t already_absent = do
    deleted_at ← utc_now env
    save_deletion t deleted none (some deleted_at)
    pure (deleted_body t (some deleted_at) false already_absent)

  -- The confirming HeadObject, from its result on.
  unfoldable pub after_confirmation :
      Task → ObjectStatus → Result (Option ObjectMetadata) → Action DeleteResponse
  after_confirmation t deletable (raised (provider_error _ _)) = delete_is_pending t
  after_confirmation t deletable (raised e) = raise e
  after_confirmation t deletable (ok none) = finish_deletion t false
  after_confirmation t deletable (ok (some remaining)) =
      if matches_object_metadata remaining t.size_bytes t.etag t.version_id
      then give_back t deletable delete_failed (api 502 delete_failed (some t.id))
      else delete_is_pending t

  -- DeleteObject, from its result on.
  unfoldable pub after_delete :
      Task → ObjectStatus → Provider → Result (Unit {0}) → Action DeleteResponse
  after_delete t deletable p (raised (provider_error code true)) = delete_is_pending t
  after_delete t deletable p (raised (provider_error code false)) =
      give_back t deletable delete_failed (api 502 delete_failed (some t.id))
  after_delete t deletable p (raised e) = raise e
  after_delete t deletable p (ok _) = do
    remaining ← attempt (head_object env p t.object_key t.version_id)
    after_confirmation t deletable remaining

  -- The first HeadObject, from its result on.
  unfoldable pub after_head :
      Task → ObjectStatus → Provider → Result (Option ObjectMetadata) → Action DeleteResponse
  after_head t deletable p (raised (provider_error code true)) = delete_is_pending t
  after_head t deletable p (raised (provider_error code false)) =
      give_back t deletable delete_failed (api 502 delete_failed (some t.id))
  after_head t deletable p (raised e) = raise e
  after_head t deletable p (ok none) = finish_deletion t true
  after_head t deletable p (ok (some metadata)) =
      if matches_object_metadata metadata t.size_bytes t.etag t.version_id
      then (do
        sent ← attempt (delete_object env p t.object_key t.version_id)
        after_delete t deletable p sent)
      else give_back t deletable object_changed (api 409 object_changed (some t.id))

  -- `provider_for_config`, from its result on.
  unfoldable pub with_provider : Task → ObjectStatus → Result Provider → Action DeleteResponse
  with_provider t deletable (raised _) =
      give_back t deletable storage_config_unavailable
        (api 503 storage_config_unavailable (some t.id))
  with_provider t deletable (ok p) = do
    metadata ← attempt (head_object env p t.object_key t.version_id)
    after_head t deletable p metadata

  -- What follows a successful claim.
  unfoldable pub strict_delete : Task → ObjectStatus → Action DeleteResponse
  strict_delete t deletable = do
    emit (Event.object_delete_started t.id)
    provider ← attempt (provider_for_config env t.storage_config_id)
    with_provider t deletable provider

  -- Another request has changed the status since the task was read.
  unfoldable pub lost_claim : Bool → ℕ → Option TaskRow → Action DeleteResponse
  lost_claim admin_cleanup task_id none = raise (api 404 task_not_found none)
  lost_claim true task_id (some current) = raise (api 409 object_not_unclaimed (some task_id))
  lost_claim false task_id (some current) = do
    result ← lift (deletion_gate current.task)
    or_raise result (api 409 delete_in_progress (some task_id))

  -- The claim, from its result on.
  unfoldable pub after_claim : Bool → Task → ℕ → Result Bool → Action DeleteResponse
  after_claim admin_cleanup t task_id (raised (db_error e)) =
      raise (if is_sqlite_error e then api 500 database_error_code (some task_id) else db_error e)
  after_claim admin_cleanup t task_id (raised e) = raise e
  after_claim admin_cleanup t task_id (ok false) = do
    current ← query env (task_by_id task_id)
    lost_claim admin_cleanup task_id current
  after_claim true t task_id (ok true) = strict_delete t present_unclaimed
  after_claim false t task_id (ok true) = strict_delete t present

  -- The tests before the claim; a response ends the request.
  unfoldable pub admit : Bool → DeleteRequest → Task → Result (Option DeleteResponse)
  admit true q t =
      if is_succeeded t.status
        && is_present_unclaimed t.object_status
        && not (is_some t.delete_token_hash)
      then ok none
      else raised (api 409 object_not_unclaimed (some q.task_id))
  admit false q t =
      if matches_delete_token env q.delete_token t.delete_token_hash
      then deletion_gate t
      else raised (api 403 delete_token_invalid (some q.task_id))

  unfoldable pub claim : Bool → DeleteRequest → Action Bool
  claim true q = do
    now ← utc_now env
    database_call env (claim_unclaimed_deletion q.task_id q.request_id now)
  claim false q = do
    now ← utc_now env
    database_call env (claim_task_deletion q.task_id q.request_id now)

  unfoldable pub delete_admitted :
      Bool → DeleteRequest → Task → Option DeleteResponse → Action DeleteResponse
  delete_admitted admin_cleanup q t (some response) = pure response
  delete_admitted admin_cleanup q t none = do
    claimed ← attempt (claim admin_cleanup q)
    after_claim admin_cleanup t q.task_id claimed

  unfoldable pub delete_task_object : DeleteRequest → Action DeleteResponse
  delete_task_object q = do
    raise_if (not q.valid_uuid) (api 400 bad_request none)
    raise_if (not (has_no_body q)) (api 400 bad_request none)
    found ← query env (task_by_id q.task_id)
    row ← or_raise found (api 404 task_not_found none)
    early ← lift (admit (is_admin_path q.path) q row.task)
    delete_admitted (is_admin_path q.path) q row.task early
