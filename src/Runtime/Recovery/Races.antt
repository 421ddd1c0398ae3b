-- ===== src/Runtime/Recovery/Races.antt =====
-- Recovery writes by a copy of the task that it read earlier, and does not look at the row again.
use ctyun_zos.Prelude.{ℕ, ◌≡◌, refl, false, none, some, [], ◌∷◌, arith}
use ctyun_zos.Data.{Task, Db, committed, succeeded}
use ctyun_zos.Database.Tasks.{
  Change, update_task, is_present, is_unclaimed, claim_task_deletion, claim_unclaimed_deletion,
}
use ctyun_zos.Database.Tasks.Rows.{find_row}
use ctyun_zos.Database.Tasks.Invariant.{IsValid}
use ctyun_zos.Database.Tasks.Updates.{update_task_lem}
use ctyun_zos.Database.Tasks.Claims.{outcome, claim_task_deletion_lem, claim_unclaimed_deletion_lem}
use ctyun_zos.Providers.Metadata.{ObjectMetadata}
use ctyun_zos.Runtime.Recovery.{found_changes, present_status}

closed_to_claims :
    (i r s : ℕ) (db : Db) {row : Task}
    → IsValid db.tasks
    → find_row i db.tasks ≡ some row
    → is_present row ≡ false
    → is_unclaimed row ≡ false
    → (outcome (claim_task_deletion i r s db) ≡ some false)
      × (outcome (claim_unclaimed_deletion i r s db) ≡ some false)
closed_to_claims i r s db {row} valid stored absent claimed = ground (
  arith,
  stored,
  claim_task_deletion_lem i i r s db valid,
  claim_unclaimed_deletion_lem i i r s db valid,
)

-- If recovery has read a task without a token, and the row has got one before recovery writes
-- that the object is there, then on a valid table the write commits, and no deletion claims the
-- row that it leaves: neither the holder of the token nor an administrator can delete the object.
pub stale_recovery-IsStuck :
    (t row : Task) (m : ObjectMetadata) (now hash r s : ℕ) (db : Db)
    → IsValid db.tasks
    → find_row t.id db.tasks ≡ some row
    → t.delete_token_hash ≡ none
    → row.delete_token_hash ≡ some hash
    → (db' : Db) × (update_task t.id (found_changes t m now) db ≡ committed tt db')
      × (outcome (claim_task_deletion t.id r s db') ≡ some false)
      × (outcome (claim_unclaimed_deletion t.id r s db') ≡ some false)
stale_recovery-IsStuck t row m now hash r s db valid stored unhashed hashed =
    let (db', done, valid', changed, _, _) =
      update_task_lem t.id (Change.status succeeded)
        (Change.size_bytes (some m.size_bytes)
          ∷ Change.etag m.etag
          ∷ Change.version_id m.version_id
          ∷ Change.object_status (present_status t)
          ∷ Change.error_code none
          ∷ Change.finished_at (some now)
          ∷ [])
        db row valid stored (rw unhashed refl) in
    let closed =
      closed_to_claims t.id r s db' valid' changed (rw unhashed refl)
        (rw (unhashed, hashed) refl) in
    (db', done, closed.0, closed.1)
