-- ===== src/Database/Tasks.antt =====
-- app/database.py: the methods on upload_tasks, the joins they read, and the CHECK constraint of
-- the v5 table.
pub mod Rows
pub mod Invariant
pub mod Claims
pub mod Quota
pub mod Updates
pub mod Joins
pub mod Pending
pub mod Retention
pub mod Usage
use Rows.{find_row, update_rows}
use ctyun_zos.Prelude.{
  ℕ, ◌+◌, Bool, true, false, not, ◌&&◌, ◌||◌, Option, none, some, List, [], ◌∷◌, ltb, ◌==◌,
  if◌then◌else◌, is_some, get_or, filter, any, count, Text, text_eq,
}
use ctyun_zos.Data.{
  Status, uploading, unknown, succeeded, failed, ObjectStatus, pending, present, present_unclaimed,
  absent, legacy_unverified, deleting, deleted, delete_unknown, Code, Task, Preset, StorageConfig,
  Db, integrity_error, value_error, quota_exceeded, DbResult, committed, rolled_back,
}

-- `object_status IN (…)` beside `status='succeeded'`
abbrev pub succeeded_status : ObjectStatus → Bool
succeeded_status pending = false
succeeded_status absent = false
succeeded_status _ = true

-- The table's CHECK on the two status columns.
abbrev pub check_statuses : Status → ObjectStatus → Bool
check_statuses uploading pending = true
check_statuses unknown pending = true
check_statuses failed absent = true
check_statuses succeeded o = succeeded_status o
check_statuses _ _ = false

abbrev pub check_task : Task → Bool
check_task t = check_statuses t.status t.object_status

-- The columns that `update_task` may assign.
pub data Change : Type 0 where
  public_url : Option Text → Change
  status : Status → Change
  size_bytes version_id delete_token_hash : Option ℕ → Change
  etag : Option Text → Change
  object_status : ObjectStatus → Change
  delete_request_id delete_started_at deleted_at finished_at duration_ms : Option ℕ → Change
  delete_error_code error_code : Option Code → Change

abbrev pub assign : Task → Change → Task
assign t (public_url v) = record t { public_url = v }
assign t (status v) = record t { status = v }
assign t (size_bytes v) = record t { size_bytes = v }
assign t (etag v) = record t { etag = v }
assign t (version_id v) = record t { version_id = v }
assign t (delete_token_hash v) = record t { delete_token_hash = v }
assign t (object_status v) = record t { object_status = v }
assign t (delete_request_id v) = record t { delete_request_id = v }
assign t (delete_started_at v) = record t { delete_started_at = v }
assign t (deleted_at v) = record t { deleted_at = v }
assign t (finished_at v) = record t { finished_at = v }
assign t (duration_ms v) = record t { duration_ms = v }
assign t (delete_error_code v) = record t { delete_error_code = v }
assign t (error_code v) = record t { error_code = v }

abbrev pub assign_all : List Change → Task → Task
assign_all [] t = t
assign_all (c ∷ cs) t = assign_all cs (assign t c)

-- The CHECK is tested on each row that the UPDATE writes.
abbrev pub no_violation : (Task → Bool) → ℕ → (Task → Task) → List Task → Bool
no_violation check i f rows = not (any (λ t. t.id == i && not (check (f t))) rows)

abbrev pub updates_allowed : ℕ → (Task → Task) → List Task → Bool
updates_allowed = no_violation check_task

unfoldable pub update_task : ℕ → List Change → Db → DbResult (Unit {0})
unfolding update_rows
update_task i [] db = rolled_back value_error
update_task i (c ∷ cs) db =
    if updates_allowed i (assign_all (c ∷ cs)) db.tasks
    then committed tt (record db { tasks = update_rows i (assign_all (c ∷ cs)) db.tasks })
    else rolled_back integrity_error

-- The keys of the table: the primary key, and the unique index on the caller and its key.
abbrev pub same_key : Option Text → Option Text → Bool
same_key (some a) (some b) = text_eq a b
same_key _ _ = false

abbrev pub clashes : Task → Task → Bool
clashes new t =
    t.id == new.id
    || (t.client_id == new.client_id && same_key t.idempotency_key new.idempotency_key)

-- `_insert_task`: the foreign key, the unique indexes and the CHECK decide whether the row goes
-- in. Its `object_status` follows from its status.
abbrev pub initial_object_status : Status → ObjectStatus
initial_object_status failed = absent
initial_object_status succeeded = present
initial_object_status _ = pending

-- The columns that the INSERT leaves out are NULL.
abbrev pub inserted : Task → Task
inserted t = record t {
  object_status = initial_object_status t.status;
  etag = none;
  version_id = none;
  delete_token_hash = none;
  delete_request_id = none;
  delete_error_code = none;
  delete_started_at = none;
  deleted_at = none;
}

unfoldable pub insert_task : Task → Db → DbResult (Unit {0})
insert_task t db =
    if any (λ (c : StorageConfig). c.id == t.storage_config_id) db.configs
      && not (any (clashes t) db.tasks)
      && check_task (inserted t)
    then committed tt (record db { tasks = inserted t ∷ db.tasks })
    else rolled_back integrity_error

unfoldable pub create_task : Task → Db → DbResult (Unit {0})
unfolding insert_task
create_task = insert_task

-- The rows that the quota counts: objects that exist or may exist.
abbrev pub counts_for_quota : Task → Bool
counts_for_quota t = elim t.status [
  | uploading ↦ true
  | unknown ↦ true
  | succeeded ↦ elim t.object_status [ deleted ↦ false | _ ↦ true ]
  | failed ↦ false
]

-- COALESCE(SUM(size_bytes), 0)
abbrev pub sum_sizes : List Task → ℕ
sum_sizes [] = 0
sum_sizes (t ∷ rows) = get_or t.size_bytes 0 + sum_sizes rows

abbrev pub owned : ℕ → Task → Bool
owned client t = t.client_id == client && counts_for_quota t

unfoldable pub object_count : ℕ → List Task → ℕ
object_count client rows = count (owned client) rows

unfoldable pub used_bytes : ℕ → List Task → ℕ
used_bytes client rows = sum_sizes (filter (owned client) rows)

-- A limit of 0 is no limit.
abbrev pub exceeds : ℕ → ℕ → Bool
exceeds limit n = not (limit == 0) && ltb limit n

unfoldable pub create_task_with_quota : Task → ℕ → ℕ → Db → DbResult (Unit {0})
unfolding object_count used_bytes insert_task
create_task_with_quota t max_objects max_bytes db =
    let objects = object_count t.client_id db.tasks in
    let bytes = used_bytes t.client_id db.tasks in
    if exceeds max_objects (objects + 1) || exceeds max_bytes (bytes + get_or t.size_bytes 0)
    then rolled_back (quota_exceeded objects bytes)
    else insert_task t db

-- The UPDATE of both claims.
abbrev pub claimed : ℕ → ℕ → Task → Task
claimed request_id started_at t = record t {
  object_status = deleting;
  delete_request_id = some request_id;
  delete_error_code = none;
  delete_started_at = some started_at;
  deleted_at = none;
}

abbrev pub is_present : Task → Bool
is_present t = elim t.status [
  | succeeded ↦ elim t.object_status [ present ↦ true | _ ↦ false ]
  | _ ↦ false
]

abbrev pub is_unclaimed : Task → Bool
is_unclaimed t = elim t.status [
  | succeeded ↦ elim t.object_status [
    | present_unclaimed ↦ not (is_some t.delete_token_hash)
    | _ ↦ false
  ]
  | _ ↦ false
]

-- `UPDATE … WHERE id=? AND test`, and `cursor.rowcount == 1`.
abbrev pub claim : (Task → Bool) → ℕ → ℕ → ℕ → Db → DbResult Bool
claim test i request_id started_at db =
    committed (count (λ t. t.id == i && test t) db.tasks == 1) (record db {
      tasks = update_rows i (λ t. if test t then claimed request_id started_at t else t) db.tasks;
    })

unfoldable pub claim_task_deletion : ℕ → ℕ → ℕ → Db → DbResult Bool
unfolding update_rows
claim_task_deletion = claim is_present

unfoldable pub claim_unclaimed_deletion : ℕ → ℕ → ℕ → Db → DbResult Bool
unfolding update_rows
claim_unclaimed_deletion = claim is_unclaimed

-- A task row joined with its configuration and its preset.
pub record TaskRow : Type 0 where
  pub task : Task
  pub open task use *
  pub storage_preset : Text

abbrev pub find_config : ℕ → List StorageConfig → Option StorageConfig
find_config i [] = none
find_config i (c ∷ cs) = if c.id == i then some c else find_config i cs

abbrev pub find_preset : ℕ → List Preset → Option Preset
find_preset i [] = none
find_preset i (p ∷ ps) = if p.id == i then some p else find_preset i ps

abbrev pub join : Db → Option Task → Option TaskRow
join db none = none
join db (some t) = elim (find_config t.storage_config_id db.configs) [
  | none ↦ none
  | some c ↦ elim (find_preset c.preset_id db.presets) [
    | none ↦ none
    | some p ↦ some (record { task = t; storage_preset = p.preset_key })
  ]
]

unfoldable pub task_by_id : ℕ → Db → Option TaskRow
unfolding find_row
task_by_id i db = join db (find_row i db.tasks)

abbrev pub find_by_key : ℕ → Option Text → List Task → Option Task
find_by_key client key [] = none
find_by_key client key (t ∷ rows) =
    if t.client_id == client && same_key t.idempotency_key key
    then some t
    else find_by_key client key rows

-- `idempotency_key = NULL` holds of no row.
unfoldable pub task_by_idempotency : ℕ → Option Text → Db → Option TaskRow
task_by_idempotency client key db = join db (find_by_key client key db.tasks)
