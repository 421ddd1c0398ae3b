-- ===== src/Database/Tasks/Quota.antt =====
-- The quota of a caller: what an admitted upload leaves, and when one is refused.
use ctyun_zos.Prelude.{ℕ, ◌+◌, ◌≡◌, ◌≢◌, ◌≤◌, ◌<◌, ◌⊎◌, arith, get_or}
use ctyun_zos.Data.{uploading, Task, Db, committed, rolled_back, quota_exceeded}
use ctyun_zos.Database.Tasks.{object_count, used_bytes, create_task_with_quota}

-- An upload that is admitted counts against its caller at once, and leaves the caller within
-- each limit that is set.
pub create_task_with_quota_bounds :
    (t : Task) (max_objects max_bytes : ℕ) (db db' : Db)
    → t.status ≡ uploading
    → create_task_with_quota t max_objects max_bytes db ≡ committed tt db'
    → (object_count t.client_id db'.tasks ≡ object_count t.client_id db.tasks + 1)
      × (used_bytes t.client_id db'.tasks ≡ used_bytes t.client_id db.tasks + get_or t.size_bytes 0)
      × ((max_objects ≡ 0) ⊎ (object_count t.client_id db'.tasks ≤ max_objects))
      × ((max_bytes ≡ 0) ⊎ (used_bytes t.client_id db'.tasks ≤ max_bytes))
unfolding create_task_with_quota
create_task_with_quota_bounds t mo mb db db' up e = ground arith

-- An upload is refused, with the usage that was found, if one more object or the new bytes would
-- pass a limit that is set.
pub create_task_with_quota_refuses :
    (t : Task) (max_objects max_bytes : ℕ) (db : Db)
    → ((0 < max_objects) × (max_objects < object_count t.client_id db.tasks + 1))
      ⊎ ((0 < max_bytes) × (max_bytes < used_bytes t.client_id db.tasks + get_or t.size_bytes 0))
    → create_task_with_quota t max_objects max_bytes db
      ≡ rolled_back
          (quota_exceeded (object_count t.client_id db.tasks) (used_bytes t.client_id db.tasks))
unfolding create_task_with_quota
create_task_with_quota_refuses t mo mb db h = ground arith

-- An upload that is admitted changes the usage of no other caller.
pub create_task_with_quota_others :
    (t : Task) (max_objects max_bytes client : ℕ) (db db' : Db)
    → client ≢ t.client_id
    → create_task_with_quota t max_objects max_bytes db ≡ committed tt db'
    → (object_count client db'.tasks ≡ object_count client db.tasks)
      × (used_bytes client db'.tasks ≡ used_bytes client db.tasks)
unfolding create_task_with_quota
create_task_with_quota_others t mo mb client db db' ne e = ground arith
