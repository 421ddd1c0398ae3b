-- ===== src/Database/Migrations/Upgrade.antt =====
-- What the migrations make of a file of an older version.
use ctyun_zos.Prelude.{
  ℕ, ◌≡◌, refl, Bool, true, false, not, ◌&&◌, ◌||◌, none, some, List, [], ◌∷◌, map, any, all, ◌==◌,
  arith,
}
use ctyun_zos.Data.{Status, uploading, unknown, succeeded, failed, Task, StorageConfig, Db}
use ctyun_zos.Database.Tasks.{check_statuses, clashes, check_task, same_key}
use ctyun_zos.Database.Presets.{config_clash, has_preset}
use ctyun_zos.Database.Migrations.Rows.{
  ConfigV1, TaskV1, TaskV2, first_preset, checked_object_status, first_object_status, task_v1_to_v2,
  config_v2_to_v3, task_v3_to_v4, task_v4_to_v5,
}
use ctyun_zos.Database.Migrations.{
  migrations, at_v1, at_v5, Start, insert_rows, old_clashes, run_migration, run_migrations,
  initialize, verify_schema_v5, old_check, unchecked, has_config, duplicate_active, both_active,
  started,
}
use ctyun_zos.Database.Migrations.Copies.{
  distinct, distinct-map, insert_rows-map, insert_rows-distinct, all-map, all-unchecked,
}
use ctyun_zos.Database.Migrations.Restart.{calm_start}

-- The constraints of version 1: the keys, one active configuration, and the foreign key.
abbrev pub config_v1_clash : ConfigV1 → ConfigV1 → Bool
config_v1_clash a b = a.id == b.id || a.revision == b.revision || (a.active && b.active)

abbrev pub task_v1_clash : TaskV1 → TaskV1 → Bool
task_v1_clash new t = t.id == new.id || same_key t.idempotency_key new.idempotency_key

abbrev pub has_config_v1 : List ConfigV1 → TaskV1 → Bool
has_config_v1 configs t = any (λ (c : ConfigV1). c.id == t.storage_config_id) configs

abbrev pub sound_v1 : List ConfigV1 → List TaskV1 → Bool
sound_v1 configs tasks =
    distinct config_v1_clash configs
    && distinct task_v1_clash tasks
    && all (has_config_v1 configs) tasks

abbrev pub upgraded : Start → List ConfigV1 → List TaskV1 → Db
upgraded s configs tasks = record {
  presets = first_preset s.now ∷ [];
  configs = map config_v2_to_v3 configs;
  tasks = map (task_v4_to_v5 s.legacy) (map task_v3_to_v4 (map task_v1_to_v2 tasks));
}

-- A task of version 3 that the CHECK of version 4 refuses.
abbrev pub is_refused : TaskV2 → Bool
is_refused t = not (old_check (task_v3_to_v4 t))

-- A row that version 1 can hold passes the CHECK of version 4.
checked_v1 : (t : TaskV1) → old_check (task_v3_to_v4 (task_v1_to_v2 t)) ≡ true
checked_v1 t = go t.status
  where
    go :
        (st : Status)
        → check_statuses st (checked_object_status st (first_object_status st) none) ≡ true
    go succeeded = refl
    go failed = refl
    go uploading = refl
    go unknown = refl

module _ (s : Start) (configs : List ConfigV1) (tasks : List TaskV1) where
  abbrev tasks_v2 : List TaskV2
  tasks_v2 = map task_v1_to_v2 tasks

  abbrev tasks_v4 : List TaskV2
  tasks_v4 = map task_v3_to_v4 tasks_v2

  configs_copied :
      distinct config_v1_clash configs ≡ true
      → insert_rows config_clash unchecked (map config_v2_to_v3 configs)
        ≡ some (map config_v2_to_v3 configs)
  configs_copied d =
      insert_rows-map config_v2_to_v3 config_v1_clash config_clash unchecked (λ a b. ground arith)
        configs d (all-unchecked (map config_v2_to_v3 configs))

  tasks_v2-distinct : distinct task_v1_clash tasks ≡ true → distinct old_clashes tasks_v2 ≡ true
  tasks_v2-distinct d =
      rw (distinct-map task_v1_to_v2 task_v1_clash old_clashes (λ a b. refl) tasks) d

  tasks_v4-distinct : distinct task_v1_clash tasks ≡ true → distinct old_clashes tasks_v4 ≡ true
  tasks_v4-distinct d =
      rw (distinct-map task_v3_to_v4 old_clashes old_clashes (λ a b. refl) tasks_v2)
        (tasks_v2-distinct d)

  tasks_v4_checked : all old_check tasks_v4 ≡ true
  tasks_v4_checked =
      all-map task_v3_to_v4 (λ t. old_check (task_v3_to_v4 t)) old_check (λ a h. h) tasks_v2
        (all-map task_v1_to_v2 (λ t. true) (λ t. old_check (task_v3_to_v4 t)) (λ a h. checked_v1 a)
          tasks (all-unchecked tasks))

  tasks_copied :
      distinct task_v1_clash tasks ≡ true
      → insert_rows clashes check_task (upgraded s configs tasks).tasks
        ≡ some (upgraded s configs tasks).tasks
  tasks_copied d =
      insert_rows-map (task_v4_to_v5 s.legacy) old_clashes clashes check_task (λ a b. ground arith)
        tasks_v4 (tasks_v4-distinct d)
        (all-map (task_v4_to_v5 s.legacy) old_check check_task (λ a h. h) tasks_v4 tasks_v4_checked)

  migrated :
      sound_v1 configs tasks ≡ true
      → run_migrations (calm_start s) (migrations (at_v1 configs tasks)) (at_v1 configs tasks)
        ≡ (true, at_v5 (upgraded s configs tasks))
  unfolding run_migrations run_migration
  migrated h =
      let c : distinct config_v1_clash configs ≡ true = ground arith in
      let d : distinct task_v1_clash tasks ≡ true = ground arith in
      let a = configs_copied c in
      let b =
        insert_rows-distinct old_clashes unchecked tasks_v2 (tasks_v2-distinct d)
          (all-unchecked tasks_v2) in
      let e =
        insert_rows-distinct old_clashes old_check tasks_v4 (tasks_v4-distinct d)
          tasks_v4_checked in
      let f = tasks_copied d in ground arith

  configs_have_preset :
      all
        (λ (c : StorageConfig). has_preset c.preset_id (first_preset s.now ∷ []))
        (map config_v2_to_v3 configs)
      ≡ true
  configs_have_preset =
      all-map config_v2_to_v3 (λ c. true) _ (λ c h. refl) configs (all-unchecked configs)

has_config-map :
    (configs : List ConfigV1) (t : TaskV1)
    → has_config_v1 configs t ≡ has_config (map config_v2_to_v3 configs) t.storage_config_id
has_config-map [] t = refl
has_config-map (c ∷ configs) t = rw (has_config-map configs t) refl

none_both_active :
    (c : ConfigV1) (configs : List ConfigV1)
    → any (config_v1_clash c) configs ≡ false
    → any (both_active (config_v2_to_v3 c)) (map config_v2_to_v3 configs) ≡ false
none_both_active c [] h = refl
none_both_active c (d ∷ configs) h = ground (arith, none_both_active c configs)

one_active :
    (configs : List ConfigV1)
    → distinct config_v1_clash configs ≡ true
    → duplicate_active (map config_v2_to_v3 configs) ≡ false
one_active [] h = refl
one_active (c ∷ configs) h = ground (arith, none_both_active c configs, one_active configs)

tasks_have_config :
    (legacy : ℕ) (configs : List ConfigV1) (tasks : List TaskV1)
    → all (has_config_v1 configs) tasks ≡ true
    → all
        (λ (t : Task). has_config (map config_v2_to_v3 configs) t.storage_config_id)
        (map (task_v4_to_v5 legacy) (map task_v3_to_v4 (map task_v1_to_v2 tasks)))
      ≡ true
tasks_have_config legacy configs [] h = refl
tasks_have_config legacy configs (t ∷ tasks) h =
    ground (arith, has_config-map configs t, tasks_have_config legacy configs tasks)

-- A file of version 1 whose rows keep that version's constraints (unique identifiers, revisions and
-- idempotency keys, at most one active configuration, and a configuration for each task) is
-- initialized by a start without a fault: to version 5, with a backup of the file as it was, the
-- default preset for every configuration, and every task kept.
pub initialize_v1 :
    (s : Start) (configs : List ConfigV1) (tasks : List TaskV1)
    → sound_v1 configs tasks ≡ true
    → initialize (calm_start s) (at_v1 configs tasks)
      ≡ (started (some (at_v1 configs tasks)), at_v5 (upgraded s configs tasks))
unfolding initialize verify_schema_v5
initialize_v1 s configs tasks h =
    let c : distinct config_v1_clash configs ≡ true = ground arith in
    let a : all (has_config_v1 configs) tasks ≡ true = ground arith in
    rw
      (
        migrated s configs tasks h,
        configs_have_preset s configs tasks,
        tasks_have_config s.legacy configs tasks a,
        one_active configs c,
      )
      refl
