-- ===== src/Database/Presets/Revisions.antt =====
-- The revisions that the operations on presets (app/database.py) expect.
use ctyun_zos.Prelude.{
  ℕ, ◌+◌, ◌≡◌, Bool, true, false, ◌&&◌, ◌||◌, Option, some, List, [], ◌∷◌, is_some, Text, arith,
  Option-cases, inl, inr,
}
use ctyun_zos.Data.{
  Preset, StorageConfig, Db, preset_state_conflict, revision_conflict, committed, rolled_back,
}
use ctyun_zos.Database.Presets.{
  StorageRow, find_key, update_presets, changed_preset, update_storage_preset,
  insert_storage_config, activate_for, disables,
}

-- The row of a key after an update of the row's columns.
find_key-update_presets :
    (key : Text) (revision now : ℕ) (name : Option Text) (enabled : Option Bool) (current : Preset)
    (presets : List Preset)
    → find_key key presets ≡ some current
    → find_key key (update_presets current.id (changed_preset revision now name enabled) presets)
      ≡ some (changed_preset revision now name enabled current)
find_key-update_presets key revision now name enabled current [] e = cc
find_key-update_presets key revision now name enabled current (p ∷ presets) e =
    ground (arith, find_key-update_presets key revision now name enabled current presets)

-- What a successful update has read and written.
pub update_storage_preset_lem :
    (key : Text) (expected now : ℕ) (name : Option Text) (enabled : Option Bool) (p : Preset)
    (db db' : Db)
    → update_storage_preset key expected name enabled now db ≡ committed p db'
    → (current : Preset) × (find_key key db.presets ≡ some current)
      × ((current.state_revision ≡ expected) × (disables enabled && current.is_default ≡ false))
      × (db'.presets
          ≡ update_presets current.id (changed_preset (expected + 1) now name enabled) db.presets)
unfolding update_storage_preset
update_storage_preset_lem key expected now name enabled p db db' done =
    elim (Option-cases (find_key key db.presets)) [
      | inl missing ↦ absurd (ground arith)
      | inr (current, found) ↦ (current, found, ground arith, ground arith)
    ]

-- After an update of a preset that commits, another one that expects the same revision, and asks
-- for a name or a state, is refused with the revision that the first has made.
pub update_once :
    (key : Text) (expected now now' : ℕ) (name name' : Option Text) (enabled enabled' : Option Bool)
    (p : Preset) (db db' : Db)
    → update_storage_preset key expected name enabled now db ≡ committed p db'
    → (is_some name' || is_some enabled') ≡ true
    → update_storage_preset key expected name' enabled' now' db'
      ≡ rolled_back (preset_state_conflict (expected + 1))
unfolding update_storage_preset
update_once key expected now now' name name' enabled enabled' p db db' done asks =
    let (current, found, _, changed) =
      update_storage_preset_lem key expected now name enabled p db db' done in
    ground (
      arith,
      found,
      changed,
      find_key-update_presets key (expected + 1) now name enabled current db.presets found,
    )

-- After an activation for a preset that commits, another one for it that expects the same revision
-- is refused with the revision that the first has made.
pub activate_once :
    (c c' : StorageConfig) (expected : ℕ) (p : Preset) (row : StorageRow) (db db' : Db)
    → activate_for c expected p db ≡ committed row db'
    → activate_for c' expected p db' ≡ rolled_back (revision_conflict (expected + 1))
unfolding activate_for insert_storage_config
activate_once c c' expected p row db db' done = ground arith
