-- ===== src/Tests/Fixtures.antt =====
-- A small installation: one preset, one configuration, two tasks, and a store that answers.
use ctyun_zos.Prelude.{ℕ, refl, ◌+◌, true, false, Option, none, some, [], ◌∷◌, Text, codes}
use ctyun_zos.Data.{uploading, succeeded, pending, present, Task, Preset, StorageConfig, Db}
use ctyun_zos.Database.Tasks.{TaskRow}
use ctyun_zos.Database.Tasks.Rows.{find_row}
use ctyun_zos.Database.Tasks.Invariant.{IsValid}
use ctyun_zos.Values.{UrlParts, Credentials, string}
use ctyun_zos.World.{
  probe_pending, Env, World, Settings, Url, Address, Provider, Snapshot, returned, HeadResponse,
}
use ctyun_zos.Interference.{LeavesRow}
use ctyun_zos.Deletions.{DeleteRequest}
use ctyun_zos.Uploads.{Source, file, parsed, UploadRequest}

abbrev pub small_settings : Settings
small_settings = record {
  max_upload_bytes = 100;
  client_max_objects = 3;
  client_max_bytes = 50;
  recovery_batch_size = 4;
  recovery_max_concurrency = 2;
  stale_upload_seconds = 0;
  stale_delete_seconds = 0;
  provider_cache_max_entries = 2;
  allow_insecure_storage_http = false;
  storage_endpoint_allowlist = codes ".b" ∷ [];
}

abbrev pub stored_object : HeadResponse
stored_object = record {
  content_length = some 5;
  etag = some (codes "e");
  version_id = none;
  content_type = none;
  last_modified = none;
}

abbrev pub small_endpoint : Url
small_endpoint = record { scheme = codes "https"; hostname = some (codes "a.b"); port = none }

abbrev pub small_url : Text
small_url = codes "https://a.b"

abbrev pub small_parts : UrlParts
small_parts = record {
  scheme = codes "https";
  netloc = codes "a.b";
  path = [];
  has_hostname = true;
  has_username = false;
  has_password = false;
  has_query = false;
  has_fragment = false;
}

abbrev pub small_credentials : Credentials
small_credentials = record { access_key = codes "ak"; secret_key = codes "sk" }

abbrev pub public_address : Address
public_address = record {
  is_v4 = true;
  value = 134_744_072;
  is_loopback = false;
  is_link_local = false;
  is_multicast = false;
  is_unspecified = false;
  is_private = false;
}

-- Nothing fails, no other request writes, and each object is found with 5 bytes.
abbrev pub calm : Env
calm = record {
  settings = small_settings;
  clock = λ n. 5_000_000 + n;
  uuid = λ n. 40 + n;
  fault = λ n. false;
  others = λ n db. db;
  endpoint = λ json. small_endpoint;
  lower = λ s. s;
  ip_network = λ rule. none;
  is_in_network = λ a network. false;
  ip_address = λ host. none;
  getaddrinfo = λ n host port. some (public_address ∷ []);
  construct = λ n c. none;
  head = λ n p key version. returned stored_object;
  upload = λ n p key. returned tt;
  delete = λ n p key version. returned tt;
  token = λ n. codes "token";
  sha256 = λ s. 77;
  local_date = λ n. codes "2026/01/02";
  uuid_text = λ n. codes "id";
  public_base_url = λ p. codes "https://b";
  quote = λ s. s;
  strip = λ s. s;
  urlsplit = λ s. some small_parts;
  urlunsplit = λ scheme netloc path. small_url;
  json_loads = λ n. (codes "endpoint_url", string small_url) ∷ [];
  json_dumps = λ c. 0;
  decrypt = λ n. some small_credentials;
  encrypt = λ c. 0;
  client = λ n config credentials. none;
  head_bucket = λ n p. returned tt;
  latency = λ n. 3;
}

pub calm-LeavesRow : (i : ℕ) → LeavesRow calm i
calm-LeavesRow i = record { row = λ n db. refl; valid = λ n db v. v }

abbrev pub default_row : Preset
default_row = record {
  id = 1;
  preset_key = codes "default";
  display_name = codes "d";
  enabled = true;
  is_default = true;
  state_revision = 1;
  created_at = 0;
  updated_at = 0;
}

abbrev pub second_row : Preset
second_row = record default_row { id = 2; preset_key = codes "b"; is_default = false }

abbrev pub first_config : StorageConfig
first_config = record {
  id = 10;
  preset_id = 1;
  revision = 1;
  provider = codes "ctyun_zos";
  provider_schema_version = 1;
  config_json = 0;
  credentials_ciphertext = 0;
  active = true;
  created_at = 0;
  activated_at = 0;
  last_tested_at = 0;
  last_test_latency_ms = none;
}

-- A finished upload, and one in progress.
abbrev pub present_task : Task
present_task = record {
  id = 20;
  request_id = 1;
  client_id = 7;
  idempotency_key = some (codes "k");
  storage_config_id = 10;
  filename = codes "a";
  content_type = codes "a/b";
  object_key = codes "o";
  public_url = none;
  status = succeeded;
  size_bytes = some 5;
  etag = some (codes "e");
  version_id = none;
  delete_token_hash = some 77;
  object_status = present;
  delete_request_id = none;
  delete_error_code = none;
  delete_started_at = none;
  deleted_at = none;
  error_code = none;
  created_at = 0;
  finished_at = none;
  duration_ms = none;
}

abbrev pub open_task : Task
open_task = record present_task {
  id = 21;
  idempotency_key = some (codes "l");
  status = uploading;
  object_status = pending;
  etag = none;
  delete_token_hash = none;
}

abbrev pub small_db : Db
small_db = record {
  presets = default_row ∷ second_row ∷ [];
  configs = first_config ∷ [];
  tasks = present_task ∷ open_task ∷ [];
}

pub small_db-IsValid : IsValid small_db.tasks
unfolding find_row
small_db-IsValid = (refl, refl, (refl, refl, tt))

abbrev pub present_row : TaskRow
present_row = record { task = present_task; storage_preset = codes "default" }

abbrev pub small_provider : Provider
small_provider = record {
  provider_id = codes "ctyun_zos";
  config_json = 0;
  credentials_ciphertext = 0;
  for_recovery = false;
}

abbrev pub first_snapshot : Snapshot
first_snapshot = record {
  preset_id = 1;
  preset_key = codes "default";
  enabled = true;
  is_default = true;
  storage_config_id = 10;
  revision = 1;
  provider_id = codes "ctyun_zos";
  provider_schema_version = 1;
  provider = small_provider;
}

abbrev pub small_world : World
small_world = record {
  db = small_db;
  providers = [];
  recovery_providers = [];
  snapshots_by_key = (codes "default", first_snapshot) ∷ [];
  default_preset_key = some (codes "default");
  last_probe = probe_pending;
  recovery_complete = false;
  last_recovery_success_at = none;
  trace = [];
  events = [];
  draws = 0;
}

abbrev pub delete_request : Option Text → DeleteRequest
delete_request token = record {
  request_id = 3;
  path = codes "/v1/uploads/20/object";
  task_id = 20;
  valid_uuid = true;
  transfer_encoding = none;
  content_length = none;
  delete_token = token;
}

abbrev pub small_source : Source
small_source = record {
  filename = some (codes "x.TXT");
  content_type = none;
  size = some 5;
  measured = 5;
}

abbrev pub upload_request : Option Text → UploadRequest
upload_request key = record {
  request_id = 4;
  client_id = 7;
  idempotency_key = key;
  content_type = codes "multipart/form-data; boundary=x";
  form = parsed (file small_source ∷ []);
  started_at = 0;
}
