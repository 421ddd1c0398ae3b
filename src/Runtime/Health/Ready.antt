-- ===== src/Runtime/Health/Ready.antt =====
-- What readiness says of the tables and of the probe.
use ctyun_zos.Prelude.{
  ℕ, zero, suc, is_some, ◌∙◌, ◌+◌, ◌-◌, ◌*◌, ◌%◌, sym, ◌≡◌, ◌≤◌, refl, Bool, true, false, not, ◌&&◌,
  Option, none, some, List, [], ◌∷◌, ◌==◌, ==_iff, leb, count, filter, take, arith,
}
use mathlib.Core.Path.{ap}
use ctyun_zos.Data.{Task, Db}
use ctyun_zos.Database.Tasks.Pending.{
  text_place, offset_place, place_of, is_pending_upload, is_pending_deletion, pending_tasks,
  pending_deletions, order_by,
}
use ctyun_zos.World.{Probe, probe_pending, probe_ok, probe_error}
use ctyun_zos.Runtime.Health.{
  HealthSettings, Readings, recovery_backlog, seconds_since, is_ready, no_backlog, is_probe_fresh,
  is_probe_ok, is_at_most, probe_age, temp_ok, background_ok,
}

none_counted : (test : Task → Bool) (rows : List Task) → count test rows ≡ 0 → filter test rows ≡ []
none_counted test [] h = refl
none_counted test (t ∷ rows) h = ground (arith, none_counted test rows)

no_work :
    (r : Readings) (settings : HealthSettings) (tables : Option Db)
    → no_backlog settings r tables ≡ true
    → (db : Db) × (tables ≡ some db)
      × (filter
            (is_pending_upload (offset_place (r.now - settings.stale_upload_seconds * 1_000_000)))
            db.tasks
          ≡ [])
      × (filter
            (is_pending_deletion (offset_place (r.now - settings.stale_delete_seconds * 1_000_000)))
            db.tasks
          ≡ [])
unfolding recovery_backlog
no_work r settings none h = ground arith
no_work r settings (some db) h =
    let up = offset_place (r.now - settings.stale_upload_seconds * 1_000_000) in
    let del = offset_place (r.now - settings.stale_delete_seconds * 1_000_000) in
    let u : count (is_pending_upload up) db.tasks ≡ 0 =
      zero_left (count (is_pending_upload up) db.tasks) (count (is_pending_deletion del) db.tasks)
        h in
    let d : count (is_pending_deletion del) db.tasks ≡ 0 =
      zero_right (count (is_pending_upload up) db.tasks) (count (is_pending_deletion del) db.tasks)
        h in
    (
      db,
      refl,
      none_counted (is_pending_upload up) db.tasks u,
      none_counted (is_pending_deletion del) db.tasks d,
    )
  where
    zero_left : (a b : ℕ) → (a + b == 0) ≡ true → a ≡ 0
    zero_left a b h = ground (arith, ==_iff (a + b) 0)

    zero_right : (a b : ℕ) → (a + b == 0) ≡ true → b ≡ 0
    zero_right a b h = ground (arith, ==_iff (a + b) 0)

fresh :
    (settings : HealthSettings) (r : Readings) (p : Probe)
    → (is_probe_ok p && is_at_most settings.storage_probe_max_age_seconds (probe_age r.now p))
      ≡ true
    → (at : ℕ) × (p ≡ probe_ok at)
      × (seconds_since r.now at ≤ settings.storage_probe_max_age_seconds)
fresh settings r probe_pending h = ground arith
fresh settings r (probe_error at code) h = ground arith
fresh settings r (probe_ok at) h =
    (at, refl, low (seconds_since r.now at) settings.storage_probe_max_age_seconds h)
  where
    low : (a b : ℕ) → leb a b ≡ true → a ≤ b
    low a b h = ground arith

-- The instants before which an upload and a deletion are stale.
abbrev pub upload_cutoff : HealthSettings → Readings → ℕ
upload_cutoff settings r = r.now - settings.stale_upload_seconds * 1_000_000

abbrev pub deletion_cutoff : HealthSettings → Readings → ℕ
deletion_cutoff settings r = r.now - settings.stale_delete_seconds * 1_000_000

-- The two ways to write an instant have the same place, if it has a fraction.
same_place : (at : ℕ) → (at % 1_000_000 == 0) ≡ false → offset_place at ≡ text_place at
unfolding offset_place text_place
same_place at e = rw e refl

-- If a service reports that it is ready, at an instant whose cutoffs for stale work are no whole
-- seconds, then a recovery round of any limit that reads the same tables at that instant finds no
-- upload and no deletion to look at, although the two write their cutoffs differently. And the last
-- probe of the default storage succeeded, at most the permitted number of seconds ago.
pub is_ready-recovered :
    (settings : HealthSettings) (r : Readings) (limit : ℕ)
    → (upload_cutoff settings r % 1_000_000 == 0) ≡ false
    → (deletion_cutoff settings r % 1_000_000 == 0) ≡ false
    → is_ready settings r ≡ true
    → ((db : Db) × (r.tables ≡ some db)
        × (pending_tasks (text_place (upload_cutoff settings r)) limit db ≡ [])
        × (pending_deletions (text_place (deletion_cutoff settings r)) limit db ≡ []))
      × ((at : ℕ) × (r.last_probe ≡ probe_ok at)
          × (seconds_since r.now at ≤ settings.storage_probe_max_age_seconds))
unfolding is_ready pending_tasks pending_deletions order_by
is_ready-recovered settings r limit not_whole not_whole' h =
    let (clear, probed) =
      parts (is_some r.snapshot) r.database_writable (temp_ok settings r.temp_dir) r.schema_ready
        r.recovery_complete (no_backlog settings r r.tables) (is_probe_fresh settings r)
        (background_ok settings r) (not r.log_degraded) h in
    let (db, read, up, del) = no_work r settings r.tables clear in
    (
      (
        db,
        read,
        rw (sym (same_place (upload_cutoff settings r) not_whole))
            (nothing (λ t. place_of (some t.created_at)) up),
        rw (sym (same_place (deletion_cutoff settings r) not_whole'))
            (nothing (λ t. place_of t.delete_started_at) del),
      ),
      fresh settings r r.last_probe probed,
    )
  where
    parts :
        (a b c d e f g i j : Bool)
        → (a && b && c && d && (e && f) && g && i && j) ≡ true
        → (f ≡ true) × (g ≡ true)
    parts a b c d e f g i j h = ground arith

    nothing :
        (column : Task → Option ℕ) {rows : List Task}
        → rows ≡ []
        → take limit (order_by column rows) ≡ []
    nothing column e = ap (λ rows. take limit (order_by column rows)) e ∙ empty limit
      where
        no_rows : List Task
        no_rows = []

        empty : (n : ℕ) → take n no_rows ≡ no_rows
        empty zero = refl
        empty (suc n) = refl
