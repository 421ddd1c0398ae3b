-- ===== src/Data.antt =====
-- The rows of the SQLite tables (app/database.py, the v5 schema) and the vocabulary of error
-- codes. Identifiers, ciphertexts and digests are only compared, so they are numbers; instants
-- are numbers, in the order of their timestamps.
use ctyun_zos.Prelude.{ℕ, Bool, Option, List, Text}

-- upload_tasks.status
pub data Status : Type 0 where
  uploading unknown succeeded failed : Status

-- upload_tasks.object_status
pub data ObjectStatus : Type 0 where
  pending present present_unclaimed absent : ObjectStatus
  legacy_unverified deleting deleted delete_unknown : ObjectStatus

-- The codes that `ProviderError`, `APIError` and the task columns carry.
pub data Code : Type 0 where
  bad_request task_not_found : Code
  delete_in_progress object_not_deletable object_not_unclaimed delete_token_invalid : Code
  object_changed delete_failed delete_pending storage_config_unavailable : Code
  database_error_code : Code
  file_required file_too_large file_empty client_quota_exceeded : Code
  idempotency_scope_mismatch idempotency_key_reused upload_in_progress : Code
  upload_failed upload_confirmation_pending upload_confirmation_failed : Code
  object_size_mismatch service_restarted_object_not_found recovery_pending : Code
  storage_timeout storage_preset_invalid storage_preset_not_found : Code
  storage_preset_disabled storage_config_invalid storage_credentials_required : Code
  storage_endpoint_forbidden storage_endpoint_unreachable : Code
  storage_credentials_rejected storage_bucket_unavailable : Code
  storage_default_not_configured storage_metrics_unavailable storage_not_configured : Code

pub record Task : Type 0 where
  pub id : ℕ
  pub request_id : ℕ
  pub client_id : ℕ
  pub idempotency_key : Option Text
  pub storage_config_id : ℕ
  pub filename : Text
  pub content_type : Text
  pub object_key : Text
  pub public_url : Option Text
  pub status : Status
  pub size_bytes : Option ℕ
  pub etag : Option Text
  pub version_id : Option ℕ
  pub delete_token_hash : Option ℕ
  pub object_status : ObjectStatus
  pub delete_request_id : Option ℕ
  pub delete_error_code : Option Code
  pub delete_started_at : Option ℕ
  pub deleted_at : Option ℕ
  pub error_code : Option Code
  pub created_at : ℕ
  pub finished_at : Option ℕ
  pub duration_ms : Option ℕ

pub record Preset : Type 0 where
  pub id : ℕ
  pub preset_key : Text
  pub display_name : Text
  pub enabled : Bool
  pub is_default : Bool
  pub state_revision : ℕ
  pub created_at : ℕ
  pub updated_at : ℕ

-- A row of storage_configs; `active` is its status column, which is 'active' or 'inactive'.
pub record StorageConfig : Type 0 where
  pub id : ℕ
  pub preset_id : ℕ
  pub revision : ℕ
  pub provider : Text
  pub provider_schema_version : ℕ
  pub config_json : ℕ
  pub credentials_ciphertext : ℕ
  pub active : Bool
  pub created_at : ℕ
  pub activated_at : ℕ
  pub last_tested_at : ℕ
  pub last_test_latency_ms : Option ℕ

pub record Db : Type 0 where
  pub presets : List Preset
  pub configs : List StorageConfig
  pub tasks : List Task

-- What a transaction can raise: `sqlite3.Error`, its subclass `IntegrityError`, `QuotaExceeded`
-- with the usage it found, the conflicts of the preset operations, and `ValueError`.
pub data DbError : Type 0 where
  sqlite_error integrity_error value_error : DbError
  quota_exceeded : ℕ → ℕ → DbError
  preset_not_found : Text → DbError
  revision_conflict preset_state_conflict : ℕ → DbError
  default_preset_conflict : Option Text → ℕ → DbError

-- One method of `Database`: it commits a new database, or rolls back and raises.
pub data DbResult (A : Type 0) : Type 0 where
  committed : A → Db → DbResult A
  rolled_back : DbError → DbResult A
