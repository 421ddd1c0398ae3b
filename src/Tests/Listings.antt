-- ===== src/Tests/Listings.antt =====
-- The log, the usage of callers and the readiness of the service at small tables.
use ctyun_zos.Prelude.{ℕ, ◌≡◌, ◌≤◌, refl, true, false, none, some, [], ◌∷◌, codes, filter, arith}
use ctyun_zos.Database.Tasks.{object_count, used_bytes}
use ctyun_zos.Database.Tasks.Usage.{
  find_usage, objects_in, bytes_in, quota_usage, quota_usage-agrees,
}
use ctyun_zos.Database.Logs.{LogRow, LogTable, LogQuery, is_selected, read_pages, maintain_logs}
use ctyun_zos.Database.Logs.Retention.{deletions_of, others_of, maintain_logs-bounds}
use ctyun_zos.Database.Logs.Paging.{read_pages-all}
use ctyun_zos.Data.{Db}
use ctyun_zos.Database.Tasks.Pending.{
  text_place, is_pending_upload, is_pending_deletion, offset_place, pending_tasks,
  pending_deletions,
}
use ctyun_zos.World.{probe_ok}
use ctyun_zos.Runtime.Health.{
  HealthSettings, Readings, task_ok, is_ready, recovery_backlog, seconds_since,
}
use ctyun_zos.Runtime.Health.Ready.{is_ready-recovered}
use ctyun_zos.Tests.Fixtures.{small_db, present_task, open_task, first_snapshot}

abbrev first_record : LogRow
first_record = record {
  id = 1;
  created_at = 5;
  level_no = 20;
  event = codes "object_delete_started";
  request_id = none;
  task_id = none;
  error_code = none;
}

abbrev small_log : LogTable
small_log = record {
  rows =
      record first_record { id = 3; event = codes "b" }
      ∷ record first_record { id = 2; event = codes "a" }
      ∷ first_record
      ∷ [];
  sequence = 3;
}

abbrev every_record : LogQuery
every_record = record {
  min_level = 10;
  from_time = none;
  to_time = none;
  event = none;
  request_id = none;
  task_id = none;
  error_code = none;
}

read_pages-all_example :
    read_pages every_record 2 small_log 4 none ≡ filter (is_selected every_record) small_log.rows
read_pages-all_example =
    read_pages-all every_record 1 small_log 4
      (
        (omega arith, (omega arith, (omega arith, tt))),
        (((omega arith, (omega arith, tt)), ((omega arith, tt), (tt, tt)))),
      )
      (omega arith)

maintain_logs-bounds_example :
    (deletions_of (maintain_logs 9 1 small_log).rows ≡ deletions_of small_log.rows)
    × (others_of (maintain_logs 9 1 small_log).rows ≤ 1)
maintain_logs-bounds_example = maintain_logs-bounds 9 1 small_log

quota_usage-agrees_example :
    (objects_in (find_usage 7 (quota_usage small_db)) ≡ object_count 7 small_db.tasks)
    × (bytes_in (find_usage 7 (quota_usage small_db)) ≡ used_bytes 7 small_db.tasks)
quota_usage-agrees_example = quota_usage-agrees 7 small_db

abbrev settled_db : Db
settled_db = record small_db { tasks = present_task ∷ [] }

abbrev health_settings : HealthSettings
health_settings = record {
  temp_min_free_bytes = 10;
  storage_probe_max_age_seconds = 60;
  stale_upload_seconds = 1;
  stale_delete_seconds = 1;
}

abbrev good_readings : Readings
good_readings = record {
  snapshot = some first_snapshot;
  database_writable = true;
  temp_dir = some (20, true);
  last_probe = probe_ok 5_000_000;
  now = 9_500_000;
  tables = some settled_db;
  recovery_complete = true;
  schema_ready = true;
  background_enabled = true;
  background = task_ok ∷ task_ok ∷ task_ok ∷ [];
  log_degraded = false;
}

is_ready-recovered_example :
    ((db : Db) × (good_readings.tables ≡ some db)
      × (pending_tasks (text_place 8_500_000) 4 db ≡ [])
      × (pending_deletions (text_place 8_500_000) 4 db ≡ []))
    × ((at : ℕ) × (good_readings.last_probe ≡ probe_ok at)
        × (seconds_since good_readings.now at ≤ health_settings.storage_probe_max_age_seconds))
unfolding is_ready recovery_backlog seconds_since is_pending_deletion
is_ready-recovered_example = is_ready-recovered health_settings good_readings 4 refl refl refl

-- At a whole second the two cutoffs differ: an upload of the same second is before the one of a
-- recovery round, and not before the one of the readiness.
same_second_is_stale :
    is_pending_upload (text_place 8_000_000) (record open_task { created_at = 8_500_000 }) ≡ true
unfolding is_pending_upload text_place
same_second_is_stale = refl

same_second_is_not_counted :
    is_pending_upload (offset_place 8_000_000) (record open_task { created_at = 8_500_000 }) ≡ false
unfolding is_pending_upload offset_place
same_second_is_not_counted = refl
