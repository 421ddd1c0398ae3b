-- ===== src/Tests/PresetRows.antt =====
-- The methods on presets at the small installation.
use ctyun_zos.Prelude.{◌≡◌, refl, true, false, none, some, [], ◌∷◌, codes}
use ctyun_zos.Data.{Preset, StorageConfig, Db, rolled_back, preset_state_conflict}
use ctyun_zos.Database.Presets.{
  StorageRow, create_storage_preset, insert_preset, insert_storage_config, new_preset,
  active_config, changed_preset, update_storage_preset, with_default, set_default_storage_preset,
  find_default, is_empty,
}
use ctyun_zos.Database.Presets.Default.{IsDefaulted}
use ctyun_zos.Database.Presets.Moves.{
  set_default-IsDefaulted, update_storage_preset-IsDefaulted, create_storage_preset-IsDefaulted,
}
use ctyun_zos.Database.Presets.Revisions.{update_once}
use ctyun_zos.Tests.Fixtures.{small_db, default_row, second_row, first_config}

small_db-IsDefaulted : IsDefaulted small_db.presets
small_db-IsDefaulted = ((refl, (refl, tt)), refl, refl)

abbrev moved_db : Db
moved_db = record small_db {
  presets = with_default false 9 default_row ∷ with_default true 9 second_row ∷ [];
}

set_default-IsDefaulted_example :
    IsDefaulted moved_db.presets
    × (find_default moved_db.presets ≡ some (with_default true 9 second_row))
    × ((with_default true 9 second_row).preset_key ≡ codes "b")
unfolding set_default_storage_preset
set_default-IsDefaulted_example =
    set_default-IsDefaulted (codes "b") (codes "default") 1 9 (with_default true 9 second_row)
      small_db moved_db refl small_db-IsDefaulted

abbrev disabled_row : Preset
disabled_row = changed_preset 2 9 none (some false) second_row

abbrev disabled_db : Db
disabled_db = record small_db { presets = default_row ∷ disabled_row ∷ [] }

update_storage_preset-IsDefaulted_example : IsDefaulted disabled_db.presets
unfolding update_storage_preset
update_storage_preset-IsDefaulted_example =
    update_storage_preset-IsDefaulted (codes "b") 1 9 none (some false) disabled_row small_db
      disabled_db refl small_db-IsDefaulted

update_once_example :
    update_storage_preset (codes "b") 1 (some (codes "n")) none 10 disabled_db
    ≡ rolled_back (preset_state_conflict 2)
unfolding update_storage_preset
update_once_example =
    update_once (codes "b") 1 9 10 none (some (codes "n")) (some false) none disabled_row small_db
      disabled_db refl refl

abbrev third_row : Preset
third_row = record second_row { id = 3; preset_key = codes "c" }

abbrev third_config : StorageConfig
third_config = record first_config { id = 11 }

abbrev third_result : StorageRow
third_result = record {
  config = active_config third_config 3 1;
  preset = new_preset third_row false;
}

abbrev wider_db : Db
wider_db = record small_db {
  presets = new_preset third_row false ∷ small_db.presets;
  configs = active_config third_config 3 1 ∷ small_db.configs;
}

create_storage_preset-IsDefaulted_example :
    IsDefaulted wider_db.presets × (third_result.preset.is_default ≡ is_empty small_db.presets)
unfolding create_storage_preset insert_preset insert_storage_config
create_storage_preset-IsDefaulted_example =
    create_storage_preset-IsDefaulted third_row third_config third_result small_db wider_db refl
      small_db-IsDefaulted
