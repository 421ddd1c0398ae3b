-- ===== src/Runtime/Health.antt =====
-- app/runtime.py: `ready_checks`, and `recovery_backlog` of app/database.py. What the checks read
-- of the process and of its machine is a record; instants are microseconds.
pub mod Ready
use ctyun_zos.Prelude.{
  ℕ, suc, ◌+◌, ◌-◌, ◌*◌, ◌/◌, Bool, true, false, not, ◌&&◌, ◌||◌, Option, none, some, List, [], ◌∷◌,
  ltb, leb, ◌==◌, if◌then◌else◌, is_some, get_or, filter, all, count,
}
use ctyun_zos.Data.{Code, Task, Db}
use ctyun_zos.Database.Tasks.Pending.{
  text_place, offset_place, is_pending_upload, is_pending_deletion,
}
use ctyun_zos.World.{Probe, probe_pending, probe_ok, probe_error, Snapshot}

pub record Backlog : Type 0 where
  pub pending_uploads : ℕ
  pub pending_deletions : ℕ
  pub oldest_created_at : Option ℕ

-- min of two texts of instants, of which each may be missing.
unfoldable pub earlier : Option ℕ → Option ℕ → Option ℕ
unfolding text_place
earlier none b = b
earlier (some a) none = some a
earlier (some a) (some b) = some (if ltb (text_place b) (text_place a) then b else a)

-- MIN(column)
unfoldable pub minimum : (Task → ℕ) → List Task → Option ℕ
unfolding earlier
minimum column [] = none
minimum column (t ∷ rows) = earlier (some (column t)) (minimum column rows)

-- COALESCE(delete_started_at, created_at)
abbrev pub deletion_start : Task → ℕ
deletion_start t = get_or t.delete_started_at t.created_at

unfoldable pub recovery_backlog : ℕ → ℕ → Db → Backlog
unfolding is_pending_upload minimum
recovery_backlog stale_upload stale_delete db = record {
  pending_uploads = count (is_pending_upload stale_upload) db.tasks;
  pending_deletions = count (is_pending_deletion stale_delete) db.tasks;
  oldest_created_at =
      earlier (minimum (λ t. t.created_at) (filter (is_pending_upload stale_upload) db.tasks))
        (minimum deletion_start (filter (is_pending_deletion stale_delete) db.tasks));
}

-- The status of a background task.
pub data TaskStatus : Type 0 where
  task_pending task_ok task_error : TaskStatus

abbrev pub is_task_ok : TaskStatus → Bool
is_task_ok task_ok = true
is_task_ok _ = false

pub record HealthSettings : Type 0 where
  pub temp_min_free_bytes : ℕ
  pub storage_probe_max_age_seconds : ℕ
  pub stale_upload_seconds : ℕ
  pub stale_delete_seconds : ℕ

-- The runtime's fields, and what the calls give: whether SQLite can write, the free bytes of the
-- directory and whether it is writable (none after an OSError), the time, and the tables (none if
-- the query raises).
pub record Readings : Type 0 where
  pub snapshot : Option Snapshot
  pub database_writable : Bool
  pub temp_dir : Option (ℕ × Bool)
  pub last_probe : Probe
  pub now : ℕ
  pub tables : Option Db
  pub recovery_complete : Bool
  pub schema_ready : Bool
  pub background_enabled : Bool
  pub background : List TaskStatus
  pub log_degraded : Bool

-- round(seconds), half to even; a time in the future has the age 0.
abbrev pub is_even : ℕ → Bool
is_even n = (n / 2) * 2 == n

abbrev pub round_half : ℕ → ℕ → ℕ
round_half q r =
    if ltb (2 * r) 1_000_000 then q else (if 2 * r == 1_000_000 && is_even q then q else q + 1)

unfoldable pub seconds_since : ℕ → ℕ → ℕ
seconds_since now at =
    let n = now - at in round_half (n / 1_000_000) (n - (n / 1_000_000) * 1_000_000)

abbrev pub probe_age : ℕ → Probe → Option ℕ
probe_age now probe_pending = none
probe_age now (probe_ok at) = some (seconds_since now at)
probe_age now (probe_error at code) = some (seconds_since now at)

abbrev pub is_probe_ok : Probe → Bool
is_probe_ok (probe_ok at) = true
is_probe_ok _ = false

abbrev pub is_at_most : ℕ → Option ℕ → Bool
is_at_most max none = false
is_at_most max (some age) = leb age max

module _ (settings : HealthSettings) where
  abbrev pub temp_ok : Option (ℕ × Bool) → Bool
  temp_ok none = false
  temp_ok (some (free, writable)) = writable && leb settings.temp_min_free_bytes free

  abbrev pub is_probe_fresh : Readings → Bool
  is_probe_fresh r =
      is_probe_ok r.last_probe
      && is_at_most settings.storage_probe_max_age_seconds (probe_age r.now r.last_probe)

  abbrev pub backlog_of : Readings → Db → Backlog
  backlog_of r db =
      recovery_backlog (offset_place (r.now - settings.stale_upload_seconds * 1_000_000))
        (offset_place (r.now - settings.stale_delete_seconds * 1_000_000)) db

  abbrev pub is_clear : Backlog → Bool
  is_clear b = b.pending_uploads + b.pending_deletions == 0

  abbrev pub no_backlog : Readings → Option Db → Bool
  no_backlog r none = false
  no_backlog r (some db) = is_clear (backlog_of r db)

  abbrev pub background_ok : Readings → Bool
  background_ok r = not r.background_enabled || all is_task_ok r.background

  -- The first component of `ready_checks`.
  unfoldable pub is_ready : Readings → Bool
  unfolding recovery_backlog offset_place seconds_since
  is_ready r =
      is_some r.snapshot
      && r.database_writable
      && temp_ok r.temp_dir
      && r.schema_ready
      && (r.recovery_complete && no_backlog r r.tables)
      && is_probe_fresh r
      && background_ok r
      && not r.log_degraded
