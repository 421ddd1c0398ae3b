-- ===== src/Runtime/Storage.antt =====
-- app/runtime.py: the settings of storage. A request's payload is tested before it is stored: its
-- settings are validated, its endpoint is permitted, and its bucket answers.
pub mod Snapshots
pub mod Payloads
pub mod Probe
pub mod Keeps
pub mod Installed
pub mod Settled
pub mod Agreement
pub mod Checked
pub mod Inherits
pub mod Activation
use ctyun_zos.Prelude.{
  ℕ, ◌+◌, ◌-◌, Bool, true, false, not, ◌&&◌, ◌||◌, Option, none, some, List, [], ◌∷◌, ◌++◌, ◌==◌,
  if◌then◌else◌, length, drop, Text, codes, text_eq, is_some,
}
use ctyun_zos.Values.{
  Json, null, boolean, integer, negative_integer, string, other_value, Fields, get_field, has_field,
  ProviderConfig, Credentials,
}
use ctyun_zos.Data.{
  DbResult, Preset, StorageConfig, Db, preset_not_found, revision_conflict, storage_config_invalid,
  storage_not_configured,
}
use ctyun_zos.Database.Presets
use ctyun_zos.Database.Presets.{StorageRow, storage_preset_by_key}
use ctyun_zos.World.{
  Env, World, Snapshot, Provider, Result, ok, raised, Exn, other, provider_error, db_error, Action,
  pure, raise, attempt, raise_if, or_raise, ◌>>=◌, ◌>>◌, emit, Event, probe_ok, probe_error,
  utc_now, uuid4, database_call, query,
}
use ctyun_zos.Providers.Configs.{validate, connection_result}
use ctyun_zos.Providers.Endpoint.{endpoint_error}
use ctyun_zos.Runtime.Cache.{is_registered, raise_some}
use ctyun_zos.Uploads.Resolve.{active_snapshot}
use Snapshots.{active_storage, load_active, install_snapshot}
use Payloads.{Payload, Candidate, invalid_config, integer_in, decrypt, tested_candidate}
use Probe.{probe}

abbrev pub revision_of_row : Option StorageRow → ℕ
revision_of_row none = 0
revision_of_row (some row) = row.config.revision

-- f"****{access_key[-4:]}"
abbrev pub mask : Text → Text
mask s = codes "****" ++ drop (length s - 4) s

-- The active configuration and its masked access key, if there is one.
abbrev pub CurrentStorage : Type 0
CurrentStorage = Option (StorageRow × Text)

module _ (env : Env) where
  -- A preset that is named must be there.
  abbrev pub require_preset : Option Text → Action (Unit {0})
  require_preset none = pure tt
  require_preset (some key) = do
    found ← query env (storage_preset_by_key key)
    raise_if (not (is_some found)) (db_error (preset_not_found key))

  unfoldable pub test_storage : Payload → Option Text → Action (Candidate × ℕ)
  unfolding tested_candidate
  test_storage payload key = require_preset key >> tested_candidate env payload key true

  -- `_storage_record`; the database sets the preset, the revision and the status.
  abbrev pub storage_record : Candidate → ℕ → ℕ → ℕ → StorageConfig
  storage_record c id latency now = record {
    id = id;
    preset_id = 0;
    revision = 0;
    provider = c.provider_id;
    provider_schema_version = c.schema_version;
    config_json = env.json_dumps c.config;
    credentials_ciphertext = env.encrypt c.credentials;
    active = true;
    created_at = now;
    activated_at = now;
    last_tested_at = now;
    last_test_latency_ms = some latency;
  }

  abbrev pub masked : Option StorageRow → Action CurrentStorage
  masked none = pure none
  masked (some row) = do
    credentials ← decrypt env row.config.credentials_ciphertext
    pure (some (row, mask credentials.access_key))

  unfoldable pub current_storage : Option Text → Action CurrentStorage
  unfolding query active_storage
  current_storage key = query env (active_storage key) >>= masked

  unfoldable pub storage_preset_detail : Text → Action (Preset × CurrentStorage)
  unfolding current_storage query
  storage_preset_detail key = do
    found ← query env (storage_preset_by_key key)
    preset ← or_raise found (db_error (preset_not_found key))
    current ← current_storage (some key)
    pure (preset, current)

  abbrev pub named_preset : ℕ → Text → Text → ℕ → Preset
  named_preset id key display_name now = record {
    id = id;
    preset_key = key;
    display_name = display_name;
    enabled = true;
    is_default = false;
    state_revision = 1;
    created_at = now;
    updated_at = now;
  }

  abbrev pub store_preset : Text → Text → Candidate × ℕ → Action (Preset × CurrentStorage)
  store_preset key display_name (c, latency) = do
    now ← utc_now env
    id ← uuid4 env
    config_id ← uuid4 env
    row ← database_call env (
        Presets.create_storage_preset (named_preset id key display_name now)
          (storage_record c config_id latency now))
    install_snapshot env row c.handle
    emit (Event.storage_preset_created key 1)
    storage_preset_detail key

  unfoldable pub create_storage_preset : Text → Text → Payload → Action (Preset × CurrentStorage)
  unfolding tested_candidate database_call install_snapshot storage_preset_detail
  create_storage_preset key display_name payload =
      tested_candidate env payload none false >>= store_preset key display_name

  -- The probe of the default preset, after its bucket has answered.
  abbrev pub probed : Snapshot → ℕ → Action (Unit {0})
  probed s now w = (ok tt, if s.is_default then record w { last_probe = probe_ok now } else w)

  -- What follows the commit.
  unfoldable pub after_activation : Candidate → ℕ → StorageRow → Action CurrentStorage
  unfolding install_snapshot current_storage
  after_activation c now row = do
    s ← install_snapshot env row c.handle
    probed s now
    emit (Event.storage_config_activated row.preset.preset_key row.config.revision)
    current_storage (some row.preset.preset_key)

  abbrev pub activation : Candidate → ℕ → ℕ → Option Text → World → Db → DbResult StorageRow
  activation c latency expected key w =
      Presets.activate_storage
        (storage_record c (env.uuid (w.draws + 1)) latency (env.clock w.draws)) expected key
        (env.uuid (w.draws + 2))

  -- utc_now, uuid4 and the transaction, which may call uuid4 once more.
  abbrev pub store_activation : ℕ → Option Text → Candidate × ℕ → Action CurrentStorage
  store_activation expected key (c, latency) w =
      (database_call env (activation c latency expected key w)
          >>= after_activation c (env.clock w.draws))
        (record w { draws = w.draws + 3 })

  abbrev pub expect_revision : ℕ → Option StorageRow → Action (Unit {0})
  expect_revision expected active =
      raise_if (not (expected == revision_of_row active))
        (db_error (revision_conflict (revision_of_row active)))

  abbrev pub activate_expected : Payload → Option Text → ℕ → Action CurrentStorage
  activate_expected payload key expected =
      (query env (active_storage key) >>= expect_revision expected)
      >> (tested_candidate env payload key true >>= store_activation expected key)

  unfoldable pub activate_storage : Payload → Option Text → Action CurrentStorage
  unfolding tested_candidate database_call query active_storage after_activation
  activate_storage payload key =
      require_preset key
      >> (or_raise (integer_in payload.expected_revision) invalid_config
          >>= activate_expected payload key)

  abbrev pub change_event : Option Bool → Text → Event
  change_event none key = Event.preset_updated key
  change_event (some true) key = Event.preset_enabled key
  change_event (some false) key = Event.preset_disabled key

  unfoldable pub update_storage_preset : Text → ℕ → Option Text → Option Bool → Action Preset
  unfolding database_call load_active
  update_storage_preset key expected display_name enabled = do
    now ← utc_now env
    preset ← database_call env (Presets.update_storage_preset key expected display_name enabled now)
    load_active env
    emit (change_event enabled key)
    pure preset

  unfoldable pub set_default_storage_preset : Text → Text → ℕ → Action Preset
  unfolding database_call load_active probe
  set_default_storage_preset key expected_default expected = do
    now ← utc_now env
    preset ←
        database_call env (Presets.set_default_storage_preset key expected_default expected now)
    load_active env
    probe env
    emit (Event.default_preset_changed key)
    pure preset
