-- ===== src/Uploads/Resolve.antt =====
-- The storage that an upload goes to: app/runtime.py `active_snapshot` and
-- `resolve_upload_snapshot`, and `provider_status` and `preset_key` of app/uploads.py.
use ctyun_zos.Prelude.{
  ℕ, false, not, Option, none, some, List, [], ◌∷◌, if◌then◌else◌, Text, text_eq,
}
use ctyun_zos.Data.{
  Code, storage_preset_invalid, storage_preset_not_found, storage_preset_disabled,
  storage_config_invalid, storage_credentials_required, storage_endpoint_forbidden,
  storage_default_not_configured, storage_metrics_unavailable, storage_not_configured,
}
use ctyun_zos.Database.Presets.{storage_preset_by_key}
use ctyun_zos.World.{
  Env, World, Snapshot, Result, ok, raised, Exn, api, provider_error, Action, raise_if, or_raise,
  ◌>>=◌, ◌>>◌, query,
}
use ctyun_zos.Uploads.Fields.{matches_preset_key}

abbrev pub snapshot_at : Text → List (Text × Snapshot) → Option Snapshot
snapshot_at key [] = none
snapshot_at key ((k, s) ∷ snapshots) = if text_eq k key then some s else snapshot_at key snapshots

-- `active_snapshot`: without a key, that of the default preset.
abbrev pub snapshot_of_key : Option Text → List (Text × Snapshot) → Option Snapshot
snapshot_of_key none snapshots = none
snapshot_of_key (some key) snapshots = snapshot_at key snapshots

abbrev pub active_snapshot : Option Text → World → Option Snapshot
active_snapshot none w = snapshot_of_key w.default_preset_key w.snapshots_by_key
active_snapshot (some key) w = snapshot_at key w.snapshots_by_key

abbrev pub take_snapshot : Option Text → Exn → Action Snapshot
take_snapshot key e w = or_raise (active_snapshot key w) e w

unfoldable pub provider_status : Code → ℕ
provider_status storage_preset_not_found = 404
provider_status storage_preset_disabled = 409
provider_status storage_config_invalid = 400
provider_status storage_credentials_required = 400
provider_status storage_endpoint_forbidden = 400
provider_status storage_default_not_configured = 503
provider_status storage_metrics_unavailable = 503
provider_status storage_not_configured = 503
provider_status _ = 502

unfoldable pub preset_key : Option Text → Result (Unit {0})
preset_key none = ok tt
preset_key (some value) =
    if matches_preset_key value then ok tt else raised (api 400 storage_preset_invalid none)

module _ (env : Env) where
  unfoldable pub resolve_upload_snapshot : Option Text → Action Snapshot
  resolve_upload_snapshot none =
      take_snapshot none (provider_error storage_default_not_configured false)
  resolve_upload_snapshot (some key) = do
    found ← query env (storage_preset_by_key key)
    preset ← or_raise found (provider_error storage_preset_not_found false)
    raise_if (not preset.enabled) (provider_error storage_preset_disabled false)
    take_snapshot (some key) (provider_error storage_not_configured false)
