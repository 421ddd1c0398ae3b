-- ===== src/Database/Tasks/Invariant.antt =====
-- The CHECK constraint and the primary key of upload_tasks under every writing method.
use ctyun_zos.Prelude.{ℕ, ◌≡◌, refl, true, false, none, List, [], ◌∷◌, arith, any}
use ctyun_zos.Data.{Task, Db, committed}
use ctyun_zos.Database.Tasks.Rows.{find_row, update_rows, find_row-update_rows}
use ctyun_zos.Database.Tasks.{
  check_task, Change, assign, assign_all, updates_allowed, update_task, clashes, insert_task,
}

-- Every row meets the CHECK, and no identifier is listed twice.
abbrev pub IsValid : List Task → Type 0
IsValid [] = Unit {0}
IsValid (t ∷ rows) = (check_task t ≡ true) × (find_row t.id rows ≡ none) × IsValid rows

id-assign : (t : Task) (c : Change) → (assign t c).id ≡ t.id
id-assign t (Change.public_url _) = refl
id-assign t _ = refl

pub id-assign_all : (cs : List Change) (t : Task) → (assign_all cs t).id ≡ t.id
id-assign_all [] t = refl
id-assign_all (c ∷ cs) t = ground (arith, id-assign t c, id-assign_all cs (assign t c))

-- A row update that keeps the key, and the CHECK on the rows it writes, keeps the table valid.
pub update_rows-IsValid :
    (i : ℕ) (f : Task → Task) (rows : List Task)
    → ((t : Task) → (f t).id ≡ t.id)
    → updates_allowed i f rows ≡ true
    → IsValid rows
    → IsValid (update_rows i f rows)
unfolding update_rows
update_rows-IsValid i f [] keeps h v = tt
update_rows-IsValid i f (t ∷ rows) keeps h v =
    ground
      (arith, keeps t, find_row-update_rows i t.id f rows keeps, update_rows-IsValid i f rows keeps)

allowed_of_checked :
    (i : ℕ) (f : Task → Task) (rows : List Task)
    → ((t : Task) → check_task t ≡ true → check_task (f t) ≡ true)
    → IsValid rows
    → updates_allowed i f rows ≡ true
allowed_of_checked i f [] keeps v = refl
allowed_of_checked i f (t ∷ rows) keeps v =
    ground (arith, keeps t v.0, allowed_of_checked i f rows keeps)

-- An update that commits keeps the table valid: every row meets the CHECK on its two status
-- columns, and no identifier is listed twice.
pub update_task-IsValid :
    (i : ℕ) (cs : List Change) (db db' : Db)
    → update_task i cs db ≡ committed tt db'
    → IsValid db.tasks
    → IsValid db'.tasks
unfolding update_task
update_task-IsValid i [] db db' e v = cc
update_task-IsValid i (c ∷ cs) db db' e v =
    ground (arith, update_rows-IsValid i (assign_all (c ∷ cs)) db.tasks (id-assign_all (c ∷ cs)))

pub no_row_of_no_clash :
    (t : Task) (rows : List Task) → any (clashes t) rows ≡ false → find_row t.id rows ≡ none
unfolding find_row
no_row_of_no_clash t [] h = refl
no_row_of_no_clash t (r ∷ rows) h = ground (arith, no_row_of_no_clash t rows)

-- An insert that commits keeps the table valid.
pub insert_task-IsValid :
    (t : Task) (db db' : Db)
    → insert_task t db ≡ committed tt db'
    → IsValid db.tasks
    → IsValid db'.tasks
unfolding insert_task
insert_task-IsValid t db db' e v = ground (arith, no_row_of_no_clash t db.tasks)
