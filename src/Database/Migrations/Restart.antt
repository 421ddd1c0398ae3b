-- ===== src/Database/Migrations/Restart.antt =====
-- A start without a fault on the file that another start has left, at the same time.
use ctyun_zos.Prelude.{
  ℕ, ◌≡◌, refl, Bool, true, false, ◌&&◌, some, map, List, [], ◌∷◌, arith, ◌⊎◌, Bool-cases, inl, inr,
  Option-cases,
}
use ctyun_zos.Data.{Preset, StorageConfig, Db}
use ctyun_zos.Database.Tasks.{clashes, check_task}
use ctyun_zos.Database.Presets.{config_clash}
use ctyun_zos.Database.Migrations.Rows.{
  ConfigV1, TaskV2, first_preset, task_v1_to_v2, config_v2_to_v3, task_v3_to_v4, task_v4_to_v5,
}
use ctyun_zos.Database.Migrations.{
  Disk, new_file, at_v1, at_v2, at_v3, at_v4, at_v5, unsupported, Start, Migration, migrate,
  target_version, migrations, run_migration, run_migrations, verify_schema_v5, initialize,
  insert_rows, old_clashes, old_check, unchecked, migrate_v1_to_v2, migrate_v2_to_v3,
  migrate_v3_to_v4, migrate_v4_to_v5, create_schema_v5, Started, started, start_failed,
}

-- The same start without a fault.
abbrev pub calm_start : Start → Start
calm_start s = record s { fault = λ n. false }

-- A start without a fault, at another time.
abbrev pub later_start : Start → ℕ → Start
later_start s now = record s { now = now; fault = λ n. false }

-- Whether a start succeeds, and the file that it leaves.
abbrev pub is_started : Started → Bool
is_started (started backup) = true
is_started start_failed = false

abbrev pub outcome : Started × Disk → Bool × Disk
outcome (r, disk) = (is_started r, disk)

abbrev pub completes : Start → Disk → Bool × Disk
completes s disk = run_migrations (calm_start s) (migrations disk) disk

-- The file that the migrations leave.
abbrev pub left_by : Start → Disk → Disk
left_by s disk = (run_migrations s (migrations disk) disk).1

module _ (s : Start) where
  -- A step that leads to a file which resumes.
  abbrev pub Resumes : Disk → Type 0
  Resumes disk = completes s (left_by s disk) ≡ completes s disk

  abbrev LeadsOn : Migration → List Migration → Disk → Type 0
  LeadsOn m ms disk =
      (next : Disk)
      → migrate s m disk ≡ some next
      → (migrations next ≡ ms) × (migrate (calm_start s) m disk ≡ some next) × Resumes next

  resume_step :
      (m : Migration) (ms : List Migration) (disk : Disk)
      → migrations disk ≡ m ∷ ms
      → LeadsOn m ms disk
      → Resumes disk
  unfolding run_migrations run_migration
  resume_step m ms disk e on = elim (Bool-cases (s.fault (target_version m))) [
    | inl f ↦ ground arith
    | inr f ↦ elim (Option-cases (migrate s m disk)) [
      | inl n ↦ ground arith
      | inr q ↦ let later = on q.0 q.1 in ground arith
    ]
  ]

  resume_v5 : (db : Db) → Resumes (at_v5 db)
  unfolding run_migrations
  resume_v5 db = refl

  resume_v4 :
      (presets : List Preset) (configs : List StorageConfig) (tasks : List TaskV2)
      → Resumes (at_v4 presets configs tasks)
  resume_v4 presets configs tasks =
      resume_step migrate_v4_to_v5 [] (at_v4 presets configs tasks) refl λ next e.
        elim (Option-cases (insert_rows clashes check_task (map (task_v4_to_v5 s.legacy) tasks))) [
          | inl n ↦ ground arith
          | inr q ↦
              let later =
                resume_v5 (record { presets = presets; configs = configs; tasks = q.0 }) in
              ground arith
        ]

  resume_v3 :
      (presets : List Preset) (configs : List StorageConfig) (tasks : List TaskV2)
      → Resumes (at_v3 presets configs tasks)
  resume_v3 presets configs tasks =
      resume_step migrate_v3_to_v4 (migrate_v4_to_v5 ∷ []) (at_v3 presets configs tasks) refl
        λ next e.
          elim (Option-cases (insert_rows old_clashes old_check (map task_v3_to_v4 tasks))) [
            | inl n ↦ ground arith
            | inr q ↦ let later = resume_v4 presets configs q.0 in ground arith
          ]

  resume_v2 : (configs : List ConfigV1) (tasks : List TaskV2) → Resumes (at_v2 configs tasks)
  resume_v2 configs tasks =
      resume_step migrate_v2_to_v3 (migrate_v3_to_v4 ∷ migrate_v4_to_v5 ∷ []) (at_v2 configs tasks)
        refl
        λ next e.
          elim (Option-cases (insert_rows config_clash unchecked (map config_v2_to_v3 configs))) [
            | inl n ↦ ground arith
            | inr c ↦ elim (Option-cases (insert_rows old_clashes unchecked tasks)) [
              | inl n ↦ ground arith
              | inr q ↦ let later = resume_v3 (first_preset s.now ∷ []) c.0 q.0 in ground arith
            ]
          ]

  pub resumes : (disk : Disk) → Resumes disk
  unfolding run_migrations
  resumes new_file = resume_step create_schema_v5 [] new_file refl λ next e.
      let later = resume_v5 (record { presets = []; configs = []; tasks = [] }) in ground arith
  resumes (at_v1 configs tasks) =
      resume_step migrate_v1_to_v2 (migrate_v2_to_v3 ∷ migrate_v3_to_v4 ∷ migrate_v4_to_v5 ∷ [])
        (at_v1 configs tasks) refl
        λ next e. let later = resume_v2 configs (map task_v1_to_v2 tasks) in ground arith
  resumes (at_v2 configs tasks) = resume_v2 configs tasks
  resumes (at_v3 presets configs tasks) = resume_v3 presets configs tasks
  resumes (at_v4 presets configs tasks) = resume_v4 presets configs tasks
  resumes (at_v5 db) = resume_v5 db
  resumes (unsupported n) = refl

-- The file that a start leaves is the one its migrations leave, or the one it found.
pub initialize-left_by :
    (s : Start) (disk : Disk)
    → ((initialize s disk).1 ≡ left_by s disk) ⊎ ((initialize s disk).1 ≡ disk)
unfolding initialize run_migrations
initialize-left_by s (unsupported n) = inr refl
initialize-left_by s new_file = inl refl
initialize-left_by s (at_v5 db) = inl refl
initialize-left_by s (at_v1 _ _) = ground arith
initialize-left_by s (at_v2 _ _) = ground arith
initialize-left_by s (at_v3 _ _ _) = ground arith
initialize-left_by s (at_v4 _ _ _) = ground arith

abbrev pub checked : Bool × Disk → Bool × Disk
checked (ran, disk) = (ran && verify_schema_v5 disk, disk)

pub outcome-initialize :
    (s : Start) (disk : Disk)
    → outcome (initialize (calm_start s) disk) ≡ checked (completes s disk)
unfolding initialize run_migrations verify_schema_v5
outcome-initialize s (unsupported n) = refl
outcome-initialize s new_file = ground arith
outcome-initialize s (at_v5 db) = ground arith
outcome-initialize s (at_v1 _ _) = ground arith
outcome-initialize s (at_v2 _ _) = ground arith
outcome-initialize s (at_v3 _ _ _) = ground arith
outcome-initialize s (at_v4 _ _ _) = ground arith
