-- ===== src/Tests/MigrationRuns.antt =====
-- Starts on a file of version 1 with one configuration and one task.
use ctyun_zos.Prelude.{◌≡◌, ◌⊎◌, refl, true, none, some, [], ◌∷◌, codes, ◌==◌}
use ctyun_zos.Data.{succeeded, absent, Db}
use ctyun_zos.Database.Migrations.Rows.{ConfigV1, TaskV1, TaskV2, task_v1_to_v2}
use ctyun_zos.Database.Migrations.{
  Disk, at_v1, at_v3, at_v5, Start, initialize, run_migration, migrate_v3_to_v4, started,
}
use ctyun_zos.Database.Migrations.Restart.{calm_start, later_start, outcome}
use ctyun_zos.Database.Migrations.Resume.{initialize_again}
use ctyun_zos.Database.Migrations.Upgrade.{upgraded, initialize_v1}
use ctyun_zos.Database.Migrations.Kept.{migrate_v3_to_v4_lem}
use ctyun_zos.Tests.Fixtures.{default_row, first_config}

-- The migration to version 4 raises.
abbrev broken_start : Start
broken_start = record { now = 9; legacy = 5; fault = λ n. n == 4 }

abbrev old_config : ConfigV1
old_config = record {
  id = 10;
  revision = 1;
  provider = codes "ctyun_zos";
  provider_schema_version = 1;
  config_json = 0;
  credentials_ciphertext = 0;
  active = true;
  created_at = 0;
  activated_at = 0;
  last_tested_at = 0;
  last_test_latency_ms = none;
}

abbrev old_task : TaskV1
old_task = record {
  id = 20;
  request_id = 1;
  idempotency_key = some (codes "k");
  storage_config_id = 10;
  filename = codes "a";
  content_type = codes "a/b";
  object_key = codes "o";
  public_url = none;
  status = succeeded;
  size_bytes = some 5;
  error_code = none;
  created_at = 0;
  finished_at = none;
  duration_ms = none;
}

abbrev old_disk : Disk
old_disk = at_v1 (old_config ∷ []) (old_task ∷ [])

abbrev new_db : Db
new_db = upgraded broken_start (old_config ∷ []) (old_task ∷ [])

initialize_again_example :
    (outcome (initialize (later_start broken_start 12) (initialize broken_start old_disk).1)
      ≡ outcome (initialize (later_start broken_start 12) old_disk))
    ⊎ (outcome (initialize (later_start broken_start 12) (initialize broken_start old_disk).1)
        ≡ outcome (initialize (calm_start broken_start) old_disk))
initialize_again_example = initialize_again broken_start 12 old_disk

initialize_v1_example :
    initialize (calm_start broken_start) old_disk ≡ (started (some old_disk), at_v5 new_db)
initialize_v1_example = initialize_v1 broken_start (old_config ∷ []) (old_task ∷ []) refl

abbrev lost_task : TaskV2
lost_task = record (task_v1_to_v2 old_task) { object_status = absent }

migrate_v3_to_v4_lem_example :
    run_migration
      (calm_start broken_start)
      migrate_v3_to_v4
      (at_v3 (default_row ∷ []) (first_config ∷ []) (lost_task ∷ []))
    ≡ none
migrate_v3_to_v4_lem_example =
    migrate_v3_to_v4_lem (calm_start broken_start) (default_row ∷ []) (first_config ∷ [])
      (lost_task ∷ []) refl refl
