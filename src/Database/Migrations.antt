-- ===== src/Database/Migrations.antt =====
-- app/database.py: `initialize` and the migrations, from each schema version to the next. Each
-- version has rows of its own. Tables that a migration leaves alone (service_logs) and the indexes
-- that constrain nothing are not part of a file.
pub mod Rows
pub mod Copies
pub mod Upgrade
pub mod Restart
pub mod Resume
pub mod Kept
use Rows.{
  ConfigV1, TaskV1, TaskV2, task_v1_to_v2, first_preset, config_v2_to_v3, task_v3_to_v4,
  task_v4_to_v5,
}
use ctyun_zos.Prelude.{
  ℕ, Bool, true, false, not, ◌&&◌, ◌||◌, Option, none, some, List, [], ◌∷◌, ◌==◌, if◌then◌else◌,
  any, all, count, map,
}
use ctyun_zos.Data.{Task, Preset, StorageConfig, Db}
use ctyun_zos.Database.Tasks.{check_statuses, check_task, same_key, clashes}
use ctyun_zos.Database.Presets.{has_preset, config_clash, is_empty}

-- A database file, by its `user_version`.
pub data Disk : Type 0 where
  new_file : Disk
  at_v1 : List ConfigV1 → List TaskV1 → Disk
  at_v2 : List ConfigV1 → List TaskV2 → Disk
  at_v3 at_v4 : List Preset → List StorageConfig → List TaskV2 → Disk
  at_v5 : Db → Disk
  unsupported : ℕ → Disk

-- One start of the service: the clock, the client 'legacy', and which step raises: 0 for the
-- backup, else the version that the migration leads to.
pub record Start : Type 0 where
  pub now : ℕ
  pub legacy : ℕ
  pub fault : ℕ → Bool

-- INSERT … SELECT: a row that clashes with another, or fails the CHECK, fails the statement.
module _ {A : Type 0} (clash : A → A → Bool) (check : A → Bool) where
  unfoldable pub insert_rows : List A → Option (List A)
  insert_rows [] = some []
  insert_rows (x ∷ xs) = elim (insert_rows xs) [
    | none ↦ none
    | some rows ↦ if any (clash x) rows || not (check x) then none else some (x ∷ rows)
  ]

-- The unique constraints of upload_tasks up to version 4, and its CHECK from then on.
abbrev pub old_clashes : TaskV2 → TaskV2 → Bool
old_clashes new t = t.id == new.id || same_key t.idempotency_key new.idempotency_key

abbrev pub old_check : TaskV2 → Bool
old_check t = check_statuses t.status t.object_status

module _ {A : Type 0} where
  abbrev pub unchecked : A → Bool
  unchecked a = true

  abbrev pub map_disk : (A → Disk) → Option A → Option Disk
  map_disk f none = none
  map_disk f (some a) = some (f a)

abbrev pub copy_to_v3 : ℕ → List ConfigV1 → List TaskV2 → Option Disk
copy_to_v3 now configs tasks =
    elim (insert_rows config_clash unchecked (map config_v2_to_v3 configs)) [
      | none ↦ none
      | some cs ↦
          map_disk (at_v3 (first_preset now ∷ []) cs) (insert_rows old_clashes unchecked tasks)
    ]

pub data Migration : Type 0 where
  create_schema_v5 migrate_v1_to_v2 migrate_v2_to_v3 migrate_v3_to_v4 migrate_v4_to_v5 : Migration

abbrev pub target_version : Migration → ℕ
target_version create_schema_v5 = 5
target_version migrate_v1_to_v2 = 2
target_version migrate_v2_to_v3 = 3
target_version migrate_v3_to_v4 = 4
target_version migrate_v4_to_v5 = 5

abbrev pub migrate : Start → Migration → Disk → Option Disk
migrate s create_schema_v5 new_file =
    some (at_v5 (record { presets = []; configs = []; tasks = [] }))
migrate s migrate_v1_to_v2 (at_v1 configs tasks) = some (at_v2 configs (map task_v1_to_v2 tasks))
migrate s migrate_v2_to_v3 (at_v2 configs tasks) = copy_to_v3 s.now configs tasks
migrate s migrate_v3_to_v4 (at_v3 presets configs tasks) =
    map_disk (at_v4 presets configs) (insert_rows old_clashes old_check (map task_v3_to_v4 tasks))
migrate s migrate_v4_to_v5 (at_v4 presets configs tasks) =
    map_disk (λ ts. at_v5 (record { presets = presets; configs = configs; tasks = ts }))
      (insert_rows clashes check_task (map (task_v4_to_v5 s.legacy) tasks))
migrate s _ _ = none

-- `_run_migration`: the migration and the new version in one transaction, or neither.
unfoldable pub run_migration : Start → Migration → Disk → Option Disk
run_migration s m disk = if s.fault (target_version m) then none else migrate s m disk

-- The migrations in turn, up to the first that raises; the flag is whether none did.
unfoldable pub run_migrations : Start → List Migration → Disk → Bool × Disk
run_migrations s [] disk = (true, disk)
run_migrations s (m ∷ ms) disk = elim (run_migration s m disk) [
  | none ↦ (false, disk)
  | some next ↦ run_migrations s ms next
]

abbrev pub migrations : Disk → List Migration
migrations new_file = create_schema_v5 ∷ []
migrations (at_v1 _ _) =
    migrate_v1_to_v2 ∷ migrate_v2_to_v3 ∷ migrate_v3_to_v4 ∷ migrate_v4_to_v5 ∷ []
migrations (at_v2 _ _) = migrate_v2_to_v3 ∷ migrate_v3_to_v4 ∷ migrate_v4_to_v5 ∷ []
migrations (at_v3 _ _ _) = migrate_v3_to_v4 ∷ migrate_v4_to_v5 ∷ []
migrations (at_v4 _ _ _) = migrate_v4_to_v5 ∷ []
migrations _ = []

abbrev pub is_old : Disk → Bool
is_old (at_v1 _ _) = true
is_old (at_v2 _ _) = true
is_old (at_v3 _ _ _) = true
is_old (at_v4 _ _ _) = true
is_old _ = false

abbrev pub is_enabled_default : Preset → Bool
is_enabled_default p = p.enabled && p.is_default

abbrev pub both_active : StorageConfig → StorageConfig → Bool
both_active c d = c.active && d.active && c.preset_id == d.preset_id

-- GROUP BY preset_id HAVING COUNT(*) > 1
abbrev pub duplicate_active : List StorageConfig → Bool
duplicate_active [] = false
duplicate_active (c ∷ cs) = any (both_active c) cs || duplicate_active cs

abbrev pub has_config : List StorageConfig → ℕ → Bool
has_config configs i = any (λ (c : StorageConfig). c.id == i) configs

-- `_verify_schema_v5` on the rows: the defaults, the active configurations and the foreign keys.
abbrev pub verified_db : Db → Bool
verified_db db =
    all (λ (c : StorageConfig). has_preset c.preset_id db.presets) db.configs
    && all (λ (t : Task). has_config db.configs t.storage_config_id) db.tasks
    && (is_empty db.presets || count is_enabled_default db.presets == 1)
    && not (duplicate_active db.configs)

unfoldable pub verify_schema_v5 : Disk → Bool
verify_schema_v5 (at_v5 db) = verified_db db
verify_schema_v5 _ = false

-- `initialize` gives the backup that it made, or raises; with the file it leaves.
pub data Started : Type 0 where
  started : Option Disk → Started
  start_failed : Started

abbrev pub verified : Option Disk → Bool × Disk → Started × Disk
verified backup (ran, disk) =
    (if ran && verify_schema_v5 disk then started backup else start_failed, disk)

unfoldable pub initialize : Start → Disk → Started × Disk
initialize s (unsupported n) = (start_failed, unsupported n)
initialize s disk =
    if is_old disk && s.fault 0
    then (start_failed, disk)
    else verified (if is_old disk then some disk else none)
        (run_migrations s (migrations disk) disk)
