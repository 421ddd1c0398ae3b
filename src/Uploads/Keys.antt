-- ===== src/Uploads/Keys.antt =====
-- The idempotency key that a caller gives with an upload (app/uploads.py), and its task.
use ctyun_zos.Prelude.{
  ℕ, ◌+◌, ◌≡◌, refl, true, ◌||◌, some, List, [], ◌∷◌, arith, Text, inl, inr, Bool-cases, any,
  text_eq_iff, is_some, get_or,
}
use ctyun_zos.Data.{Task, Db, DbError, committed, rolled_back, integrity_error}
use ctyun_zos.Database.Tasks.{
  Change, assign, assign_all, clashes, find_by_key, insert_task, create_task,
  create_task_with_quota, update_task, object_count, used_bytes, exceeds,
}
use ctyun_zos.Database.Tasks.Rows.{update_rows}

-- A row with the caller and the key is in the table.
abbrev pub IsBound : ℕ → Text → Db → Type 0
IsBound client key db = is_some (find_by_key client (some key) db.tasks) ≡ true

keys-assign :
    (t : Task) (c : Change)
    → ((assign t c).client_id ≡ t.client_id) × ((assign t c).idempotency_key ≡ t.idempotency_key)
keys-assign t (Change.public_url _) = (refl, refl)
keys-assign t _ = (refl, refl)

keys-assign_all :
    (cs : List Change) (t : Task)
    → ((assign_all cs t).client_id ≡ t.client_id)
      × ((assign_all cs t).idempotency_key ≡ t.idempotency_key)
keys-assign_all [] t = (refl, refl)
keys-assign_all (c ∷ cs) t = ground (arith, keys-assign t c, keys-assign_all cs (assign t c))

bound_rows :
    (i client : ℕ) (key : Text) (f : Task → Task) (rows : List Task)
    → ((t : Task) → ((f t).client_id ≡ t.client_id) × ((f t).idempotency_key ≡ t.idempotency_key))
    → is_some (find_by_key client (some key) (update_rows i f rows))
      ≡ is_some (find_by_key client (some key) rows)
unfolding update_rows
bound_rows i client key f [] keeps = refl
bound_rows i client key f (t ∷ rows) keeps =
    ground (arith, keeps t, bound_rows i client key f rows keeps)

-- No change of a task releases its key.
pub update_task-IsBound :
    (i client : ℕ) (key : Text) (cs : List Change) (db db' : Db)
    → update_task i cs db ≡ committed tt db'
    → IsBound client key db
    → IsBound client key db'
unfolding update_task
update_task-IsBound i client key [] db db' e b = cc
update_task-IsBound i client key (c ∷ cs) db db' e b =
    ground
      (arith, bound_rows i client key (assign_all (c ∷ cs)) db.tasks (keys-assign_all (c ∷ cs)))

clash_of_bound :
    (t : Task) (key : Text) (rows : List Task)
    → t.idempotency_key ≡ some key
    → is_some (find_by_key t.client_id (some key) rows) ≡ true
    → any (clashes t) rows ≡ true
clash_of_bound t key [] e b = cc
clash_of_bound t key (r ∷ rows) e b = ground (arith, e, b, clash_of_bound t key rows e)

insert_refused :
    (t : Task) (key : Text) (db : Db)
    → t.idempotency_key ≡ some key
    → IsBound t.client_id key db
    → insert_task t db ≡ rolled_back integrity_error
unfolding insert_task
insert_refused t key db e b = ground (arith, clash_of_bound t key db.tasks e b)

IsBound-create_task :
    (t t' : Task) (key : Text) (db db1 : Db)
    → t.idempotency_key ≡ some key
    → t'.client_id ≡ t.client_id
    → create_task t db ≡ committed tt db1
    → IsBound t'.client_id key db1
unfolding create_task insert_task
IsBound-create_task t t' key db db1 e same made = ground (arith, e, (text_eq_iff key key).1 refl)

refused_by_quota :
    (t : Task) (max_objects max_bytes : ℕ) (db : Db)
    → insert_task t db ≡ rolled_back integrity_error
    → (e : DbError) × (create_task_with_quota t max_objects max_bytes db ≡ rolled_back e)
unfolding create_task_with_quota
refused_by_quota t mo mb db refused =
    elim (Bool-cases (
      exceeds mo (object_count t.client_id db.tasks + 1)
      || exceeds mb (used_bytes t.client_id db.tasks + get_or t.size_bytes 0))) [
        | inl over ↦ rw over (_, refl)
        | inr within ↦ rw within (_, refused)
      ]

-- A task that was created with a key keeps later uploads of the same caller with that key out,
-- whatever has been written to the tasks in one update since: the row is refused, by the unique
-- index or already by the quota.
pub second_upload_refused :
    (t t' : Task) (key : Text) (i max_objects max_bytes : ℕ) (cs : List Change) (db db1 db2 : Db)
    → t.idempotency_key ≡ some key
    → t'.idempotency_key ≡ some key
    → t'.client_id ≡ t.client_id
    → create_task t db ≡ committed tt db1
    → update_task i cs db1 ≡ committed tt db2
    → (create_task t' db2 ≡ rolled_back integrity_error)
      × ((e : DbError) × (create_task_with_quota t' max_objects max_bytes db2 ≡ rolled_back e))
unfolding create_task create_task_with_quota
second_upload_refused t t' key i mo mb cs db db1 db2 e e' same made changed =
    let bound2 : IsBound t'.client_id key db2 =
      update_task-IsBound i t'.client_id key cs db1 db2 changed
        (IsBound-create_task t t' key db db1 e same made) in
    let refused = insert_refused t' key db2 e' bound2 in
    (refused, refused_by_quota t' mo mb db2 refused)
