-- ===== src/Uploads/Handler.antt =====
-- app/uploads.py: the phases of `upload` after the file has been read, and `upload` itself.
use ctyun_zos.Prelude.{
  ℕ, ◌+◌, ◌-◌, true, false, not, ◌||◌, Option, none, some, if◌then◌else◌, ltb, ◌==◌, Text,
}
use ctyun_zos.Data.{
  uploading, pending, Code, bad_request, file_too_large, file_empty, client_quota_exceeded,
  upload_in_progress, database_error_code, Task, sqlite_error, integrity_error, quota_exceeded,
}
use ctyun_zos.Database.Tasks.{update_task, create_task, create_task_with_quota, task_by_idempotency}
use ctyun_zos.World.{
  Env, Snapshot, Result, ok, raised, Exn, api, provider_error, db_error, Action, pure, raise,
  raise_if, attempt, ◌>>=◌, ◌>>◌, emit, Event, is_sqlite_error, utc_now, uuid4, database_call,
  query,
}
use ctyun_zos.Providers.{head_object, upload_file}
use ctyun_zos.Providers.Metadata.{ObjectMetadata}
use ctyun_zos.Security.{issue_delete_token}
use ctyun_zos.Uploads.{
  Source, UploadRequest, UploadResponse, created, upload_response, lift, replay, build_public_url,
  local_date, read_file, source_size, round_thousandths, valid_idempotency_key, answer_existing,
  unless_answered, confirm, rejected_changes, uncertain_changes, unconfirmed_changes,
  finished_changes,
}
use ctyun_zos.Uploads.Fields.{safe_filename, safe_extension, safe_content_type, object_key_of}
use ctyun_zos.Uploads.Resolve.{resolve_upload_snapshot, provider_status, preset_key}

module _ (env : Env) where
  -- `duration`, in milliseconds
  abbrev pub duration : UploadRequest → Action ℕ
  duration q w =
      (ok (round_thousandths (env.clock w.draws - q.started_at)), record w { draws = w.draws + 1 })

  -- `finished_at=utc_now(), duration_ms=duration(request)`, and the `APIError`.
  unfoldable pub reject : UploadRequest → Task → ℕ → Code → ℕ → Action UploadResponse
  reject q t size code status = do
    now ← utc_now env
    took ← duration q
    database_call env (update_task t.id (rejected_changes size code now took))
    raise (api status code (some t.id))

  -- The write of a finished upload, from its result on.
  unfoldable pub after_save :
      UploadRequest
      → Task
      → Snapshot
      → ObjectMetadata
      → Text
      → Result (Unit {0})
      → Action UploadResponse
  after_save q t snapshot m token (ok _) = do
    emit (Event.upload_succeeded t.id)
    pure (
        created (
          upload_response
            (record t { size_bytes = some m.size_bytes; etag = m.etag; version_id = m.version_id })
            snapshot.preset_key (some token)))
  after_save q t snapshot m token (raised (db_error e)) = do
    raise_if (not (is_sqlite_error e)) (db_error e)
    emit (Event.database_error t.id)
    raise (api 500 database_error_code (some t.id))
  after_save q t snapshot m token (raised e) = raise e

  unfoldable pub finish : UploadRequest → Task → Snapshot → ObjectMetadata → Action UploadResponse
  finish q t snapshot m = do
    took ← duration q
    (token, token_hash) ← issue_delete_token env
    now ← utc_now env
    saved ← attempt (database_call env (update_task t.id (finished_changes m token_hash now took)))
    after_save q t snapshot m token saved

  -- HeadObject and the test of its metadata, from their result on.
  unfoldable pub after_confirm :
      UploadRequest → Task → ℕ → Snapshot → Result ObjectMetadata → Action UploadResponse
  after_confirm q t size snapshot (raised (provider_error code _)) = do
    took ← duration q
    database_call env (update_task t.id (unconfirmed_changes size code took))
    raise (api 502 code (some t.id))
  after_confirm q t size snapshot (raised e) = raise e
  after_confirm q t size snapshot (ok m) = finish q t snapshot m

  -- PutObject, from its result on.
  unfoldable pub after_upload :
      UploadRequest → Task → ℕ → Snapshot → Result (Unit {0}) → Action UploadResponse
  after_upload q t size snapshot (raised (provider_error code true)) = do
    took ← duration q
    database_call env (update_task t.id (uncertain_changes size code took))
    raise (api 502 code (some t.id))
  after_upload q t size snapshot (raised (provider_error code false)) = reject q t size code 502
  after_upload q t size snapshot (raised e) = raise e
  after_upload q t size snapshot (ok _) = do
    metadata ← attempt (head_object env snapshot.provider t.object_key none)
    after_confirm q t size snapshot (confirm size metadata)

  unfoldable pub send : UploadRequest → Task → ℕ → Snapshot → Action UploadResponse
  send q t size snapshot = do
    sent ← attempt (upload_file env snapshot.provider t.object_key)
    after_upload q t size snapshot sent

  -- What follows the row's creation.
  unfoldable pub store_upload : UploadRequest → Task → ℕ → Snapshot → Action UploadResponse
  store_upload q t size snapshot = do
    emit (Event.upload_started t.id)
    if ltb env.settings.max_upload_bytes size
        then reject q t size file_too_large 413
        else (if size == 0 then reject q t 0 file_empty 400 else send q t size snapshot)

  -- A file that will be rejected is recorded without regard to the quota.
  unfoldable pub create : Task → ℕ → Action (Unit {0})
  create t size =
      if size == 0 || ltb env.settings.max_upload_bytes size
      then database_call env (create_task t)
      else database_call env
          (create_task_with_quota t env.settings.client_max_objects env.settings.client_max_bytes)

  -- Another request may have used the key since it was looked up.
  unfoldable pub answer_key : UploadRequest → Snapshot → Exn → Action UploadResponse
  answer_key q snapshot e = do
    existing ← query env (task_by_idempotency q.client_id q.idempotency_key)
    lift (answer_existing existing snapshot.preset_key e)

  -- The row's creation, from its result on.
  unfoldable pub after_create :
      UploadRequest → Task → ℕ → Snapshot → Result (Unit {0}) → Action UploadResponse
  after_create q t size snapshot (ok _) = store_upload q t size snapshot
  after_create q t size snapshot (raised (db_error (quota_exceeded _ _))) =
      answer_key q snapshot (api 429 client_quota_exceeded none)
  after_create q t size snapshot (raised (db_error integrity_error)) =
      answer_key q snapshot (api 409 upload_in_progress none)
  after_create q t size snapshot (raised (db_error sqlite_error)) =
      raise (api 500 database_error_code none)
  after_create q t size snapshot (raised e) = raise e

  -- The row of a new upload. `object_status` and the columns after it are set by the INSERT.
  unfoldable pub new_task : UploadRequest → Source → Snapshot → ℕ → Text → ℕ → Task
  new_task q source snapshot task_id date now =
      let filename = safe_filename source.filename in
      let object_key = object_key_of date (env.uuid_text task_id) (safe_extension filename) in
      record {
        id = task_id;
        request_id = q.request_id;
        client_id = q.client_id;
        idempotency_key = q.idempotency_key;
        storage_config_id = snapshot.storage_config_id;
        filename = filename;
        content_type = safe_content_type source.content_type;
        object_key = object_key;
        public_url = some (build_public_url env snapshot.provider object_key);
        status = uploading;
        size_bytes = some (source_size source);
        etag = none;
        version_id = none;
        delete_token_hash = none;
        object_status = pending;
        delete_request_id = none;
        delete_error_code = none;
        delete_started_at = none;
        deleted_at = none;
        error_code = none;
        created_at = now;
        finished_at = none;
        duration_ms = none;
      }

  unfoldable pub upload_source : UploadRequest → Snapshot → Source → Action UploadResponse
  upload_source q snapshot source = do
    task_id ← uuid4 env
    date ← local_date env
    now ← utc_now env
    let t = new_task q source snapshot task_id date now
    let size = source_size source
    made ← attempt (create t size)
    after_create q t size snapshot made

  -- `ProviderError` of the resolution becomes an `APIError`.
  unfoldable pub resolved : Result Snapshot → Result Snapshot
  resolved (raised (provider_error code _)) = raised (api (provider_status code) code none)
  resolved r = r

  -- The lookup by the caller's key, if there is one.
  unfoldable pub look_up_key :
      UploadRequest → Option Text → Option Text → Action (Option UploadResponse)
  look_up_key q storage_preset none = pure none
  look_up_key q storage_preset (some key) = do
    raise_if (not (valid_idempotency_key key)) (api 400 bad_request none)
    existing ← query env (task_by_idempotency q.client_id (some key))
    lift (replay existing storage_preset)

  unfoldable pub upload : UploadRequest → Option Text → Action UploadResponse
  upload q storage_preset = do
    answer ← look_up_key q storage_preset q.idempotency_key
    unless_answered answer (do
      lift (preset_key storage_preset)
      found ← attempt (resolve_upload_snapshot env storage_preset)
      snapshot ← lift (resolved found)
      source ← lift (read_file q.content_type q.form)
      upload_source q snapshot source)
