-- ===== src/Runtime/Storage/Snapshots.antt =====
-- app/runtime.py: the snapshots of the active configurations, and the queries of app/database.py
-- that they are made from.
use ctyun_zos.Prelude.{
  Bool, true, false, ◌&&◌, ◌||◌, Option, none, some, List, [], ◌∷◌, ltb, ◌==◌, if◌then◌else◌, Text,
  text_eq,
}
use ctyun_zos.Data.{Preset, StorageConfig, Db}
use ctyun_zos.Database.Presets.{StorageRow, find_active, target_of}
use ctyun_zos.World.{Env, Snapshot, Provider, Action, ok, pure, ◌>>=◌, query}
use ctyun_zos.Runtime.Cache.{provider_for_record, cache_provider}

abbrev pub row_of : Preset → Option StorageConfig → Option StorageRow
row_of p none = none
row_of p (some c) = some (record { config = c; preset = p })

-- The active configuration of a preset, by its key, or of the default.
unfoldable pub active_storage : Option Text → Db → Option StorageRow
active_storage key db = elim (target_of key db.presets) [
  | none ↦ none
  | some p ↦ row_of p (find_active p.id db.configs)
]

-- The order of texts, by their code points.
abbrev pub text_ltb : Text → Text → Bool
text_ltb s [] = false
text_ltb [] (d ∷ t) = true
text_ltb (c ∷ s) (d ∷ t) = ltb c d || (c == d && text_ltb s t)

abbrev pub insert_by_key : Preset → List Preset → List Preset
insert_by_key p [] = p ∷ []
insert_by_key p (q ∷ presets) =
    let rest = insert_by_key p presets in
    if text_ltb q.preset_key p.preset_key then q ∷ rest else p ∷ q ∷ presets

-- ORDER BY p.preset_key
abbrev pub order_by_key : List Preset → List Preset
order_by_key [] = []
order_by_key (p ∷ presets) = insert_by_key p (order_by_key presets)

abbrev pub join_active : List StorageConfig → List Preset → List StorageRow
join_active configs [] = []
join_active configs (p ∷ presets) = elim (row_of p (find_active p.id configs)) [
  | none ↦ join_active configs presets
  | some row ↦ row ∷ join_active configs presets
]

unfoldable pub active_storages : Db → List StorageRow
active_storages db = join_active db.configs (order_by_key db.presets)

-- `_snapshot`
abbrev pub snapshot_of : StorageRow → Provider → Snapshot
snapshot_of row provider = record {
  preset_id = row.config.preset_id;
  preset_key = row.preset.preset_key;
  enabled = row.preset.enabled;
  is_default = row.preset.is_default;
  storage_config_id = row.config.id;
  revision = row.config.revision;
  provider_id = row.config.provider;
  provider_schema_version = row.config.provider_schema_version;
  provider = provider;
}

abbrev pub SnapshotMap : Type 0
SnapshotMap = List (Text × Snapshot)

-- snapshots | {key: snapshot}
abbrev pub set_snapshot : Text → Snapshot → SnapshotMap → SnapshotMap
set_snapshot key s [] = (key, s) ∷ []
set_snapshot key s ((k, x) ∷ snapshots) =
    let rest = set_snapshot key s snapshots in
    if text_eq k key then (k, s) ∷ snapshots else (k, x) ∷ rest

-- next((key for … if snapshot.is_default), None)
abbrev pub default_of : SnapshotMap → Option Text
default_of [] = none
default_of ((key, s) ∷ snapshots) = if s.is_default then some key else default_of snapshots

abbrev pub install_all : SnapshotMap → Action (Unit {0})
install_all snapshots w =
    (ok tt, record w { snapshots_by_key = snapshots; default_preset_key = default_of snapshots })

module _ (env : Env) where
  unfoldable pub load_each : List StorageRow → Action SnapshotMap
  load_each [] = pure []
  load_each (row ∷ rows) = do
    p ← provider_for_record env row.config
    rest ← load_each rows
    pure ((row.preset.preset_key, snapshot_of row p) ∷ rest)

  -- `_load_active`
  unfoldable pub load_active : Action (Unit {0})
  load_active = do
    rows ← query env active_storages
    snapshots ← load_each rows
    install_all snapshots

  -- `_install_snapshot`
  unfoldable pub install_snapshot : StorageRow → Provider → Action Snapshot
  install_snapshot row provider w =
      let s = snapshot_of row provider in
      (
        ok s,
        record w {
          providers =
              cache_provider env.settings.provider_cache_max_entries row.config.id provider
                w.providers;
          snapshots_by_key = set_snapshot s.preset_key s w.snapshots_by_key;
          default_preset_key = if s.is_default then some s.preset_key else w.default_preset_key;
        },
      )
