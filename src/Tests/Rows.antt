-- ===== src/Tests/Rows.antt =====
-- The methods on upload_tasks at the small installation.
use ctyun_zos.Prelude.{ℕ, ◌+◌, ◌≡◌, ◌⊎◌, ◌≤◌, refl, false, some, List, [], ◌∷◌, codes, inl}
use ctyun_zos.Data.{DbError, Task, Db, failed, absent, rolled_back, integrity_error}
use ctyun_zos.Database.Tasks.{
  Change, update_task, create_task, create_task_with_quota, claim_task_deletion, claimed,
  claim_unclaimed_deletion, object_count, used_bytes, inserted,
}
use ctyun_zos.Database.Tasks.Claims.{outcome, claim_once}
use ctyun_zos.Database.Tasks.Quota.{create_task_with_quota_bounds}
use ctyun_zos.Uploads.Keys.{second_upload_refused}
use ctyun_zos.Tests.Fixtures.{small_db, small_db-IsValid, present_task, open_task}

-- The table after the first task was claimed.
abbrev claimed_db : Db
claimed_db = record small_db { tasks = claimed 3 9 present_task ∷ open_task ∷ [] }

claim_once_example :
    (outcome (claim_task_deletion 20 4 10 claimed_db) ≡ some false)
    × (outcome (claim_unclaimed_deletion 20 4 10 claimed_db) ≡ some false)
unfolding claim_task_deletion
claim_once_example = claim_once 20 3 9 4 10 small_db claimed_db small_db-IsValid (inl refl)

abbrev new_row : Task
new_row = record open_task { id = 22; idempotency_key = some (codes "m") }

abbrev grown_db : Db
grown_db = record small_db { tasks = inserted new_row ∷ small_db.tasks }

abbrev three : ℕ
three = 3

abbrev fifty : ℕ
fifty = 50

create_task_with_quota_bounds_example :
    (object_count 7 grown_db.tasks ≡ object_count 7 small_db.tasks + 1)
    × (used_bytes 7 grown_db.tasks ≡ used_bytes 7 small_db.tasks + 5)
    × ((three ≡ 0) ⊎ (object_count 7 grown_db.tasks ≤ three))
    × ((fifty ≡ 0) ⊎ (used_bytes 7 grown_db.tasks ≤ fifty))
unfolding create_task_with_quota
create_task_with_quota_bounds_example =
    create_task_with_quota_bounds new_row three fifty small_db grown_db refl refl

abbrev failing : List Change
failing = Change.status failed ∷ Change.object_status absent ∷ []

abbrev failed_db : Db
failed_db = record grown_db {
  tasks = record (inserted new_row) { status = failed; object_status = absent } ∷ small_db.tasks;
}

second_upload_refused_example :
    (create_task (record new_row { id = 23 }) failed_db ≡ rolled_back integrity_error)
    × ((e : DbError) × (create_task_with_quota (record new_row { id = 23 }) 3 50 failed_db
          ≡ rolled_back e))
unfolding create_task update_task
second_upload_refused_example =
    second_upload_refused new_row (record new_row { id = 23 }) (codes "m") 22 3 50 failing small_db
      grown_db failed_db refl refl refl refl refl
