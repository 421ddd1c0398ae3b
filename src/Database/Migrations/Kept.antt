-- ===== src/Database/Migrations/Kept.antt =====
-- The constraints of version 5 after a start, and the rows that version 4 refuses.
use ctyun_zos.Prelude.{
  All, count, ℕ, ◌≡◌, refl, Bool, true, false, not, none, some, List, [], ◌∷◌, ◌==◌, ◌&&◌, text_eq,
  map, any, all, if◌then◌else◌, arith, Option, ◌⊎◌,
}
use ctyun_zos.Data.{
  Status, uploading, unknown, succeeded, failed, ObjectStatus, absent, pending, present, Task,
  Preset, StorageConfig, Db,
}
use ctyun_zos.Database.Tasks.{check_statuses, same_key}
use ctyun_zos.Database.Tasks.Invariant.{IsValid}
use ctyun_zos.Database.Presets.{has_preset}
use ctyun_zos.Database.Migrations.Rows.{TaskV2, task_v3_to_v4, checked_object_status}
use ctyun_zos.Database.Migrations.{
  Disk, at_v3, at_v4, at_v5, Start, migrate_v3_to_v4, old_clashes, run_migration, old_check,
  has_config, is_enabled_default, duplicate_active,
}
use ctyun_zos.Database.Migrations.Copies.{distinct, distinct-map, insert_rows_lem}

-- The unique constraints besides the identifiers: one task per key of a caller (NULL is no key),
-- one preset per key, and one configuration per revision of a preset.
abbrev pub same_upload : Task → Task → Bool
same_upload a b = a.client_id == b.client_id && same_key b.idempotency_key a.idempotency_key

abbrev pub same_preset : Preset → Preset → Bool
same_preset a b = text_eq b.preset_key a.preset_key

abbrev pub same_revision : StorageConfig → StorageConfig → Bool
same_revision a b = b.preset_id == a.preset_id && b.revision == a.revision

abbrev pub IsUnique : Db → Type 0
IsUnique db =
    (distinct same_upload db.tasks ≡ true)
    × (distinct same_preset db.presets ≡ true)
    × (distinct same_revision db.configs ≡ true)

-- What a file keeps by its constraints, by its version.
abbrev pub IsStored : Disk → Type 0
IsStored (at_v5 db) = IsValid db.tasks × IsUnique db
IsStored (at_v4 presets configs tasks) =
    (distinct same_preset presets ≡ true) × (distinct same_revision configs ≡ true)
IsStored (at_v3 presets configs tasks) =
    (distinct same_preset presets ≡ true) × (distinct same_revision configs ≡ true)
IsStored _ = Unit {0}

-- Each task has its configuration and each configuration its preset, one preset is an enabled
-- default if there is any, and no preset has two active configurations.
abbrev pub IsConsistent : Db → Type 0
IsConsistent db =
    All (λ (c : StorageConfig). has_preset c.preset_id db.presets ≡ true) db.configs
    × All (λ (t : Task). has_config db.configs t.storage_config_id ≡ true) db.tasks
    × ((db.presets ≡ []) ⊎ (count is_enabled_default db.presets ≡ 1))
    × (duplicate_active db.configs ≡ false)

-- A task that succeeded though its object is absent.
abbrev pub contradicts : Status → ObjectStatus → Bool
contradicts succeeded absent = true
contradicts _ _ = false

contradicts_iff :
    (st : Status) (o : ObjectStatus) (token : Option ℕ)
    → check_statuses st (checked_object_status st o token) ≡ not (contradicts st o)
contradicts_iff failed o token = refl
contradicts_iff uploading o token = refl
contradicts_iff unknown o token = refl
contradicts_iff succeeded pending token = ground arith
contradicts_iff succeeded present token = ground arith
contradicts_iff succeeded _ token = refl

abbrev pub is_contradiction : TaskV2 → Bool
is_contradiction t = contradicts t.status t.object_status

checked_rows :
    (tasks : List TaskV2)
    → all old_check (map task_v3_to_v4 tasks) ≡ not (any is_contradiction tasks)
checked_rows [] = refl
checked_rows (t ∷ tasks) =
    rw (contradicts_iff t.status t.object_status t.delete_token_hash, checked_rows tasks)
      (ground arith)

-- The migration from version 3, on rows with distinct identifiers and idempotency keys, with no
-- fault: it converts every task, unless some task succeeded though its object is absent. Then the
-- CHECK refuses the copy, and the file stays at version 3.
pub migrate_v3_to_v4_lem :
    (s : Start) (presets : List Preset) (configs : List StorageConfig) (tasks : List TaskV2)
    → s.fault 4 ≡ false
    → distinct old_clashes tasks ≡ true
    → run_migration s migrate_v3_to_v4 (at_v3 presets configs tasks) ≡ (
        if any is_contradiction tasks
        then none
        else some (at_v4 presets configs (map task_v3_to_v4 tasks)))
unfolding run_migration
migrate_v3_to_v4_lem s presets configs tasks f d =
    rw
      (
        f,
        insert_rows_lem old_clashes old_check (map task_v3_to_v4 tasks),
        distinct-map task_v3_to_v4 old_clashes old_clashes (λ a b. refl) tasks,
        d,
        checked_rows tasks,
      )
      (ground arith)
