-- ===== src/Uploads.antt =====
-- app/uploads.py: the upload handler, split where it awaits.
pub mod Fields
pub mod Resolve
pub mod Handler
pub mod Outcomes
pub mod Keys
use ctyun_zos.Prelude.{
  ℕ, ◌+◌, ◌-◌, ◌*◌, ◌/◌, Bool, true, false, not, ◌&&◌, ◌||◌, Option, none, some, List, [], ◌∷◌,
  ◌++◌, if◌then◌else◌, is_some, ltb, leb, ◌==◌, length, Text, text_eq, starts_with, codes,
}
use ctyun_zos.Data.{
  Status, uploading, unknown, succeeded, failed, ObjectStatus, pending, present, absent, Code,
  bad_request, file_required, file_too_large, file_empty, client_quota_exceeded,
  idempotency_scope_mismatch, idempotency_key_reused, upload_in_progress,
  upload_confirmation_pending, database_error_code, Task, Db, DbError, sqlite_error,
  integrity_error, quota_exceeded,
}
use ctyun_zos.Database.Tasks.{
  TaskRow, Change, update_task, create_task, create_task_with_quota, task_by_idempotency,
}
use ctyun_zos.World.{
  Env, World, Snapshot, Provider, Result, ok, raised, Exn, api, provider_error, db_error, other,
  Action, pure, raise, raise_if, attempt, ◌>>=◌, ◌>>◌, emit, Event, is_sqlite_error, utc_now, uuid4,
  database_call, query,
}
use ctyun_zos.Providers.{head_object, upload_file}
use ctyun_zos.Providers.Metadata.{ObjectMetadata, require_upload_metadata}
use ctyun_zos.Security.{issue_delete_token, is_printable}
use Fields.{safe_filename, safe_extension, safe_content_type, object_key_of}
use Resolve.{resolve_upload_snapshot, provider_status, preset_key}

-- An `UploadFile`; `measured` is what seeking to the end finds.
pub record Source : Type 0 where
  pub filename : Option Text
  pub content_type : Option Text
  pub size : Option ℕ
  pub measured : ℕ

-- What `form.getlist("file")` holds: a file, or a plain field.
pub data Part : Type 0 where
  file : Source → Part
  field : Text → Part

-- How parsing the multipart body ends.
pub data Form : Type 0 where
  parsed : List Part → Form
  malformed body_too_large : Form

pub record UploadRequest : Type 0 where
  pub request_id : ℕ
  pub client_id : ℕ
  pub idempotency_key : Option Text
  pub content_type : Text
  pub form : Form
  pub started_at : ℕ

-- `_upload_response`
pub record UploadBody : Type 0 where
  pub task_id : ℕ
  pub storage_preset : Text
  pub key : Text
  pub url : Option Text
  pub size_bytes : Option ℕ
  pub content_type : Text
  pub etag : Option Text
  pub version_id : Option ℕ
  pub delete_capability_available : Bool
  pub delete_token : Option Text

-- The answers: 201, and the replay of a finished upload with 200.
pub data UploadResponse : Type 0 where
  created replayed : UploadBody → UploadResponse

unfoldable pub upload_response : Task → Text → Option Text → UploadBody
upload_response t storage_preset token = record {
  task_id = t.id;
  storage_preset = storage_preset;
  key = t.object_key;
  url = t.public_url;
  size_bytes = t.size_bytes;
  content_type = t.content_type;
  etag = t.etag;
  version_id = t.version_id;
  delete_capability_available = is_some token || is_some t.delete_token_hash;
  delete_token = token;
}

-- requested is not None and requested != bound
abbrev pub is_other_preset : Option Text → Text → Bool
is_other_preset none bound = false
is_other_preset (some requested) bound = not (text_eq requested bound)

-- `_existing_upload`
abbrev pub replay_by_status : TaskRow → Status → Result UploadResponse
replay_by_status row succeeded = ok (replayed (upload_response row.task row.storage_preset none))
replay_by_status row failed = raised (api 409 idempotency_key_reused (some row.task.id))
replay_by_status row _ = raised (api 409 upload_in_progress (some row.task.id))

unfoldable pub existing_upload : TaskRow → Option Text → Result UploadResponse
existing_upload row requested_preset =
    if is_other_preset requested_preset row.storage_preset
    then raised (api 409 idempotency_scope_mismatch (some row.task.id))
    else replay_by_status row row.task.status

abbrev pub lift : {A : Type 0} → Result A → Action A
lift r w = (r, w)

-- `_upload_file`
abbrev pub only_file : List Part → Result Source
only_file [] = raised (api 400 file_required none)
only_file (file source ∷ []) = ok source
only_file (_ ∷ _) = raised (api 400 bad_request none)

-- `BodyTooLarge` passes, and is answered by the middleware.
abbrev pub parsed_file : Form → Result Source
parsed_file (parsed files) = only_file files
parsed_file malformed = raised (api 400 bad_request none)
parsed_file body_too_large = raised other

unfoldable pub read_file : Text → Form → Result Source
read_file content_type form =
    if starts_with (codes "multipart/form-data") content_type
    then parsed_file form
    else raised (api 400 bad_request none)

-- `_source_size`
abbrev pub source_size : Source → ℕ
source_size source = elim source.size [ none ↦ source.measured | some n ↦ n ]

-- `round`, which takes a half to the even neighbour; `n` is in thousandths.
unfoldable pub round_thousandths : ℕ → ℕ
round_thousandths n =
    let whole = n / 1_000 in
    let rest = n - 1_000 * whole in
    if ltb rest 500
    then whole
    else (if ltb 500 rest then whole + 1 else whole + (whole - 2 * (whole / 2)))

abbrev pub valid_idempotency_key : Text → Bool
valid_idempotency_key key = leb 1 (length key) && leb (length key) 128 && is_printable key

-- The error that a failed SQL statement of `create_task` becomes, if no task has the key.
abbrev pub answer_existing : Option TaskRow → Text → Exn → Result UploadResponse
answer_existing none preset e = raised e
answer_existing (some row) preset e = existing_upload row (some preset)

-- The answer to a key that a task has.
abbrev pub replay : Option TaskRow → Option Text → Result (Option UploadResponse)
replay none storage_preset = ok none
replay (some row) storage_preset = elim (existing_upload row storage_preset) [
  | ok answer ↦ ok (some answer)
  | raised e ↦ raised e
]

-- The date in the configured time zone, and `build_public_url`.
abbrev pub local_date : Env → Action Text
local_date env w = (ok (env.local_date (env.clock w.draws)), record w { draws = w.draws + 1 })

unfoldable pub build_public_url : Env → Provider → Text → Text
build_public_url env p object_key = env.public_base_url p ++ (47 ∷ env.quote object_key)

-- An answer ends the request.
abbrev pub unless_answered : Option UploadResponse → Action UploadResponse → Action UploadResponse
unless_answered (some answer) go w = (ok answer, w)
unless_answered none go w = go w

-- A missing object after a successful PutObject is a failure too.
unfoldable pub confirm : ℕ → Result (Option ObjectMetadata) → Result ObjectMetadata
confirm size (raised e) = raised e
confirm size (ok none) = raised (provider_error upload_confirmation_pending true)
confirm size (ok (some m)) = elim (require_upload_metadata m size) [
  | ok _ ↦ ok m
  | raised e ↦ raised e
]

-- The columns that the phases write.
abbrev pub rejected_changes : ℕ → Code → ℕ → ℕ → List Change
rejected_changes size code now took =
    Change.status failed
    ∷ Change.size_bytes (some size)
    ∷ Change.object_status absent
    ∷ Change.error_code (some code)
    ∷ Change.finished_at (some now)
    ∷ Change.duration_ms (some took)
    ∷ []

abbrev pub uncertain_changes : ℕ → Code → ℕ → List Change
uncertain_changes size code took =
    Change.status unknown
    ∷ Change.size_bytes (some size)
    ∷ Change.object_status pending
    ∷ Change.error_code (some code)
    ∷ Change.finished_at none
    ∷ Change.duration_ms (some took)
    ∷ []

-- Without `finished_at`.
abbrev pub unconfirmed_changes : ℕ → Code → ℕ → List Change
unconfirmed_changes size code took =
    Change.status unknown
    ∷ Change.size_bytes (some size)
    ∷ Change.object_status pending
    ∷ Change.error_code (some code)
    ∷ Change.duration_ms (some took)
    ∷ []

abbrev pub finished_changes : ObjectMetadata → ℕ → ℕ → ℕ → List Change
finished_changes m token_hash now took =
    Change.status succeeded
    ∷ Change.size_bytes (some m.size_bytes)
    ∷ Change.etag m.etag
    ∷ Change.version_id m.version_id
    ∷ Change.delete_token_hash (some token_hash)
    ∷ Change.object_status present
    ∷ Change.error_code none
    ∷ Change.finished_at (some now)
    ∷ Change.duration_ms (some took)
    ∷ []
