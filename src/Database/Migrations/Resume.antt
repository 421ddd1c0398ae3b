-- ===== src/Database/Migrations/Resume.antt =====
-- A start that may fail on the way, and a later start on the file that it leaves.
use ctyun_zos.Prelude.{
  ℕ, sym, ◌∙◌, ap, none, ◌≡◌, refl, Bool, true, false, some, map, List, [], ◌∷◌, arith, ◌⊎◌, inl,
  inr, Option-cases,
}
use ctyun_zos.Database.Tasks.{clashes, check_task}
use ctyun_zos.Database.Presets.{config_clash}
use ctyun_zos.Database.Migrations.Rows.{
  ConfigV1, TaskV1, TaskV2, task_v1_to_v2, config_v2_to_v3, task_v3_to_v4, task_v4_to_v5,
}
use ctyun_zos.Database.Migrations.{
  Disk, new_file, at_v1, at_v2, at_v3, at_v4, at_v5, unsupported, Start, Migration, migrations,
  run_migration, run_migrations, initialize, insert_rows, old_clashes, old_check, unchecked,
  migrate_v1_to_v2, migrate_v2_to_v3, migrate_v3_to_v4, migrate_v4_to_v5, create_schema_v5,
}
use ctyun_zos.Database.Migrations.Restart.{
  calm_start, later_start, outcome, completes, left_by, resumes, initialize-left_by, checked,
  outcome-initialize,
}

-- A file that has the first preset already, or needs none.
abbrev is_dated : Disk → Bool
is_dated (at_v1 _ _) = false
is_dated (at_v2 _ _) = false
is_dated _ = true

abbrev completes_at : Start → ℕ → Disk → Bool × Disk
completes_at s now disk = run_migrations (later_start s now) (migrations disk) disk

module _ (s : Start) (now : ℕ) where
  -- The time of a start has no effect on such a file.
  timeless : (disk : Disk) → is_dated disk ≡ true → completes_at s now disk ≡ completes s disk
  unfolding run_migrations run_migration
  timeless new_file d = refl
  timeless (at_v1 _ _) d = ground arith
  timeless (at_v2 _ _) d = ground arith
  timeless (at_v3 _ _ tasks) d =
      elim (Option-cases (insert_rows old_clashes old_check (map task_v3_to_v4 tasks))) [
        | inl n ↦ ground arith
        | inr q ↦ ground arith
      ]
  timeless (at_v4 _ _ tasks) d = refl
  timeless (at_v5 db) d = refl
  timeless (unsupported n) d = refl

  dated-migrate :
      (m : Migration) (disk next : Disk)
      → is_dated disk ≡ true
      → run_migration s m disk ≡ some next
      → is_dated next ≡ true
  unfolding run_migration
  dated-migrate create_schema_v5 new_file next d e = ground arith
  dated-migrate migrate_v3_to_v4 (at_v3 p c tasks) next d e =
      elim (Option-cases (insert_rows old_clashes old_check (map task_v3_to_v4 tasks))) [
        | inl n ↦ ground arith
        | inr q ↦ ground arith
      ]
  dated-migrate migrate_v4_to_v5 (at_v4 p c tasks) next d e =
      elim (Option-cases (insert_rows clashes check_task (map (task_v4_to_v5 s.legacy) tasks))) [
        | inl n ↦ ground arith
        | inr q ↦ ground arith
      ]
  dated-migrate _ _ next d e = ground arith

  stopped :
      (m : Migration) (ms : List Migration) (disk : Disk)
      → run_migration s m disk ≡ none
      → (run_migrations s (m ∷ ms) disk).1 ≡ disk
  unfolding run_migrations
  stopped m ms disk e = ground arith

  went_on :
      (m : Migration) (ms : List Migration) (disk next : Disk)
      → run_migration s m disk ≡ some next
      → (run_migrations s (m ∷ ms) disk).1 ≡ (run_migrations s ms next).1
  unfolding run_migrations
  went_on m ms disk next e = ground arith

  dated-run :
      (ms : List Migration) (disk : Disk)
      → is_dated disk ≡ true
      → is_dated (run_migrations s ms disk).1 ≡ true
  unfolding run_migrations
  dated-run [] disk d = d
  dated-run (m ∷ ms) disk d = elim (Option-cases (run_migration s m disk)) [
    | inl n ↦ ap is_dated (stopped m ms disk n) ∙ d
    | inr q ↦
        ap is_dated (went_on m ms disk q.0 q.1) ∙ dated-run ms q.0 (dated-migrate m disk q.0 d q.1)
  ]

  -- A file that is left without the first preset is migrated later like the one that was found.
  abbrev Redone : Disk → Type 0
  Redone disk =
      (completes_at s now (left_by s disk) ≡ completes_at s now disk)
      ⊎ (is_dated (left_by s disk) ≡ true)

  copied-is_dated :
      (configs : List ConfigV1) (tasks : List TaskV2) (next : Disk)
      → run_migration s migrate_v2_to_v3 (at_v2 configs tasks) ≡ some next
      → is_dated next ≡ true
  unfolding run_migration
  copied-is_dated configs tasks next e =
      elim (Option-cases (insert_rows config_clash unchecked (map config_v2_to_v3 configs))) [
        | inl n ↦ ground arith
        | inr c ↦ elim (Option-cases (insert_rows old_clashes unchecked tasks)) [
          | inl n ↦ ground arith
          | inr q ↦ ground arith
        ]
      ]

  later_v2_again : (configs : List ConfigV1) (tasks : List TaskV2) → Redone (at_v2 configs tasks)
  later_v2_again configs tasks =
      let disk = at_v2 configs tasks in
      let ms = migrate_v3_to_v4 ∷ migrate_v4_to_v5 ∷ [] in
      elim (Option-cases (run_migration s migrate_v2_to_v3 disk)) [
        | inl n ↦ inl (ap (completes_at s now) (stopped migrate_v2_to_v3 ms disk n))
        | inr (next, e) ↦ inr (
            ap is_dated (went_on migrate_v2_to_v3 ms disk next e)
            ∙ dated-run ms next (copied-is_dated configs tasks next e))
      ]

  second_version :
      (configs : List ConfigV1) (tasks : List TaskV1) (next : Disk)
      → run_migration s migrate_v1_to_v2 (at_v1 configs tasks) ≡ some next
      → next ≡ at_v2 configs (map task_v1_to_v2 tasks)
  unfolding run_migration
  second_version configs tasks next e = ground arith

  later_v1 :
      (configs : List ConfigV1) (tasks : List TaskV1)
      → completes_at s now (at_v2 configs (map task_v1_to_v2 tasks))
        ≡ completes_at s now (at_v1 configs tasks)
  unfolding run_migrations run_migration
  later_v1 configs tasks = refl

  later_v1_again : (configs : List ConfigV1) (tasks : List TaskV1) → Redone (at_v1 configs tasks)
  later_v1_again configs tasks =
      let disk = at_v1 configs tasks in
      let disk2 = at_v2 configs (map task_v1_to_v2 tasks) in
      let ms = migrate_v2_to_v3 ∷ migrate_v3_to_v4 ∷ migrate_v4_to_v5 ∷ [] in
      elim (Option-cases (run_migration s migrate_v1_to_v2 disk)) [
        | inl n ↦ inl (ap (completes_at s now) (stopped migrate_v1_to_v2 ms disk n))
        | inr (next, e) ↦
            let left : left_by s disk ≡ left_by s disk2 =
              went_on migrate_v1_to_v2 ms disk next e
              ∙ ap (λ d. (run_migrations s ms d).1) (second_version configs tasks next e) in
            elim (later_v2_again configs (map task_v1_to_v2 tasks)) [
              | inl same ↦ inl (ap (completes_at s now) left ∙ same ∙ later_v1 configs tasks)
              | inr dated ↦ inr (ap is_dated left ∙ dated)
            ]
      ]

  later_again : (disk : Disk) → Redone disk
  later_again new_file = inr (dated-run (migrations new_file) new_file refl)
  later_again (at_v1 configs tasks) = later_v1_again configs tasks
  later_again (at_v2 configs tasks) = later_v2_again configs tasks
  later_again (at_v3 p c t) = inr (dated-run (migrations (at_v3 p c t)) (at_v3 p c t) refl)
  later_again (at_v4 p c t) = inr (dated-run (migrations (at_v4 p c t)) (at_v4 p c t) refl)
  later_again (at_v5 db) = inr (dated-run [] (at_v5 db) refl)
  later_again (unsupported n) = inr (dated-run [] (unsupported n) refl)

-- A start that may fail at any step, followed by a start without a fault at a later time, has the
-- outcome of a single start without a fault, at the time of one of the two: both initialize the
-- file or both raise, and they leave the same file.
pub initialize_again :
    (s : Start) (now : ℕ) (disk : Disk)
    → (outcome (initialize (later_start s now) (initialize s disk).1)
        ≡ outcome (initialize (later_start s now) disk))
      ⊎ (outcome (initialize (later_start s now) (initialize s disk).1)
          ≡ outcome (initialize (calm_start s) disk))
initialize_again s now disk = elim (initialize-left_by s disk) [
  | inr e ↦ inl (rw e refl)
  | inl e ↦
      let again : outcome (initialize (later_start s now) (initialize s disk).1)
          ≡ checked (completes_at s now (left_by s disk)) =
        rw e (outcome-initialize (later_start s now) (left_by s disk)) in
      elim (later_again s now disk) [
        | inl same ↦
            inl (again ∙ ap checked same ∙ sym (outcome-initialize (later_start s now) disk))
        | inr dated ↦ inr (
            again
            ∙ ap checked (timeless s now (left_by s disk) dated ∙ resumes s disk)
            ∙ sym (outcome-initialize s disk))
      ]
]
