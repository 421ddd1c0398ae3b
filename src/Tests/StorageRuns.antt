-- ===== src/Tests/StorageRuns.antt =====
-- Changes of the settings at the small installation.
use ctyun_zos.Prelude.{◌≡◌, refl, true, false, some, [], ◌∷◌, codes}
use ctyun_zos.Values.{Fields, ProviderConfig, boolean, integer, string}
use ctyun_zos.World.{World, Result, ok, raised, query}
use ctyun_zos.Providers.Endpoint.{endpoint_error, network_match, host_match}
use ctyun_zos.Runtime.Cache.{provider_for_record, get, cache_provider, put_last, remove, evict}
use ctyun_zos.Runtime.Storage.Snapshots.{active_storage, active_storages, load_active, load_each}
use ctyun_zos.Runtime.Storage.Payloads.{
  Payload, Parsed, Candidate, omitted, candidate_of, handle_of,
}
use ctyun_zos.Runtime.Storage.{activate_storage}
use ctyun_zos.Runtime.Storage.Keeps.{LeavesPresets}
use ctyun_zos.Runtime.Storage.Installed.{IsSettled}
use ctyun_zos.Runtime.Storage.Settled.{activate_storage-IsSettled}
use ctyun_zos.Runtime.Storage.Agreement.{Agrees, load_active-Agrees}
use ctyun_zos.Uploads.Resolve.{snapshot_at}
use ctyun_zos.Tests.Fixtures.{
  calm, small_world, small_url, small_credentials, small_db, small_provider,
}

calm-LeavesPresets : LeavesPresets calm
calm-LeavesPresets = record { presets = λ n db. refl; configs = λ n db. refl }

abbrev new_fields : Fields
new_fields =
    (codes "endpoint_url", string small_url)
    ∷ (codes "bucket", string (codes "abc"))
    ∷ (codes "public_base_url", string small_url)
    ∷ (codes "connect_timeout_seconds", integer 5)
    ∷ (codes "read_timeout_seconds", integer 300)
    ∷ (codes "max_attempts", integer 2)
    ∷ (codes "verify_tls", boolean true)
    ∷ (codes "enable_bucket_metrics", boolean false)
    ∷ []

-- A new bucket at the same endpoint, with the stored credentials.
abbrev new_payload : Payload
new_payload = record {
  provider = string (codes "ctyun_zos");
  provider_schema_version = integer 1;
  config = some new_fields;
  credentials = omitted;
  expected_revision = integer 1;
}

abbrev new_parts : Parsed
new_parts = record {
  provider_id = codes "ctyun_zos";
  schema_version = 1;
  config = new_fields;
  given = [];
}

abbrev chosen : Result Candidate → Candidate → Candidate
chosen (ok c) d = c
chosen (raised e) d = d

activate_storage-IsSettled_example :
    IsSettled calm new_payload
      (some (codes "default"))
      small_world
      (activate_storage calm new_payload (some (codes "default")) small_world)
activate_storage-IsSettled_example =
    activate_storage-IsSettled calm calm-LeavesPresets new_payload (some (codes "default"))
      small_world

abbrev new_config : ProviderConfig
new_config = record {
  endpoint_url = small_url;
  bucket = codes "abc";
  public_base_url = small_url;
  connect_timeout_seconds = 5;
  read_timeout_seconds = 300;
  max_attempts = 2;
  verify_tls = true;
  enable_bucket_metrics = false;
}

abbrev new_candidate : Candidate
new_candidate =
    candidate_of (codes "ctyun_zos") 1 (new_config, small_credentials)
      (handle_of calm (codes "ctyun_zos") new_config small_credentials)

abbrev candidate_world : World
candidate_world = record small_world { draws = 3 }

abbrev loaded_world : World
loaded_world = record small_world { providers = (10, small_provider) ∷ []; draws = 3 }

load_active_run : load_active calm small_world ≡ (ok tt, loaded_world)
unfolding load_active load_each query active_storages provider_for_record get cache_provider
    put_last remove evict endpoint_error network_match host_match
load_active_run = refl

load_active-Agrees_example :
    Agrees
      (snapshot_at (codes "default") loaded_world.snapshots_by_key)
      (active_storage (some (codes "default")) small_db)
unfolding active_storages
load_active-Agrees_example =
    load_active-Agrees calm (λ i. small_provider) small_world tt loaded_world (codes "default") tt
      (refl, tt) refl load_active_run
