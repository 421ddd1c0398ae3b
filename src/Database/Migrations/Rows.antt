-- ===== src/Database/Migrations/Rows.antt =====
-- app/database.py: the rows of the older schema versions, and what each migration makes of one.
use ctyun_zos.Prelude.{ℕ, Bool, true, Option, none, if◌then◌else◌, Text, codes, is_some}
use ctyun_zos.Data.{
  Status, uploading, unknown, succeeded, failed, ObjectStatus, pending, present, present_unclaimed,
  absent, legacy_unverified, Code, Task, Preset, StorageConfig,
}
use ctyun_zos.Database.Presets.{default_preset_id}

-- storage_configs before there were presets.
pub record ConfigV1 : Type 0 where
  pub id : ℕ
  pub revision : ℕ
  pub provider : Text
  pub provider_schema_version : ℕ
  pub config_json : ℕ
  pub credentials_ciphertext : ℕ
  pub active : Bool
  pub created_at : ℕ
  pub activated_at : ℕ
  pub last_tested_at : ℕ
  pub last_test_latency_ms : Option ℕ

pub record TaskV1 : Type 0 where
  pub id : ℕ
  pub request_id : ℕ
  pub idempotency_key : Option Text
  pub storage_config_id : ℕ
  pub filename : Text
  pub content_type : Text
  pub object_key : Text
  pub public_url : Option Text
  pub status : Status
  pub size_bytes : Option ℕ
  pub error_code : Option Code
  pub created_at : ℕ
  pub finished_at : Option ℕ
  pub duration_ms : Option ℕ

-- upload_tasks with the columns on its object, in versions 2 to 4.
pub record TaskV2 : Type 0 where
  pub id : ℕ
  pub request_id : ℕ
  pub idempotency_key : Option Text
  pub storage_config_id : ℕ
  pub filename : Text
  pub content_type : Text
  pub object_key : Text
  pub public_url : Option Text
  pub status : Status
  pub size_bytes : Option ℕ
  pub etag : Option Text
  pub version_id : Option ℕ
  pub delete_token_hash : Option ℕ
  pub object_status : ObjectStatus
  pub delete_request_id : Option ℕ
  pub delete_error_code : Option Code
  pub delete_started_at : Option ℕ
  pub deleted_at : Option ℕ
  pub error_code : Option Code
  pub created_at : ℕ
  pub finished_at : Option ℕ
  pub duration_ms : Option ℕ

abbrev pub first_object_status : Status → ObjectStatus
first_object_status succeeded = legacy_unverified
first_object_status failed = absent
first_object_status _ = pending

abbrev pub task_v1_to_v2 : TaskV1 → TaskV2
task_v1_to_v2 t = record {
  id = t.id;
  request_id = t.request_id;
  idempotency_key = t.idempotency_key;
  storage_config_id = t.storage_config_id;
  filename = t.filename;
  content_type = t.content_type;
  object_key = t.object_key;
  public_url = t.public_url;
  status = t.status;
  size_bytes = t.size_bytes;
  etag = none;
  version_id = none;
  delete_token_hash = none;
  object_status = first_object_status t.status;
  delete_request_id = none;
  delete_error_code = none;
  delete_started_at = none;
  deleted_at = none;
  error_code = t.error_code;
  created_at = t.created_at;
  finished_at = t.finished_at;
  duration_ms = t.duration_ms;
}

abbrev pub first_preset : ℕ → Preset
first_preset now = record {
  id = default_preset_id;
  preset_key = codes "default";
  display_name = codes "默认 ZOS";
  enabled = true;
  is_default = true;
  state_revision = 1;
  created_at = now;
  updated_at = now;
}

abbrev pub config_v2_to_v3 : ConfigV1 → StorageConfig
config_v2_to_v3 c = record {
  id = c.id;
  preset_id = default_preset_id;
  revision = c.revision;
  provider = c.provider;
  provider_schema_version = c.provider_schema_version;
  config_json = c.config_json;
  credentials_ciphertext = c.credentials_ciphertext;
  active = c.active;
  created_at = c.created_at;
  activated_at = c.activated_at;
  last_tested_at = c.last_tested_at;
  last_test_latency_ms = c.last_test_latency_ms;
}

-- The CASE of the copy.
abbrev pub checked_object_status : Status → ObjectStatus → Option ℕ → ObjectStatus
checked_object_status failed o token = absent
checked_object_status uploading o token = pending
checked_object_status unknown o token = pending
checked_object_status succeeded present token = if is_some token then present else present_unclaimed
checked_object_status succeeded pending token = if is_some token then present else present_unclaimed
checked_object_status succeeded o token = o

abbrev pub task_v3_to_v4 : TaskV2 → TaskV2
task_v3_to_v4 t = record t {
  object_status = checked_object_status t.status t.object_status t.delete_token_hash;
}

abbrev pub task_v4_to_v5 : ℕ → TaskV2 → Task
task_v4_to_v5 legacy t = record {
  id = t.id;
  request_id = t.request_id;
  client_id = legacy;
  idempotency_key = t.idempotency_key;
  storage_config_id = t.storage_config_id;
  filename = t.filename;
  content_type = t.content_type;
  object_key = t.object_key;
  public_url = t.public_url;
  status = t.status;
  size_bytes = t.size_bytes;
  etag = t.etag;
  version_id = t.version_id;
  delete_token_hash = t.delete_token_hash;
  object_status = t.object_status;
  delete_request_id = t.delete_request_id;
  delete_error_code = t.delete_error_code;
  delete_started_at = t.delete_started_at;
  deleted_at = t.deleted_at;
  error_code = t.error_code;
  created_at = t.created_at;
  finished_at = t.finished_at;
  duration_ms = t.duration_ms;
}
