-- ===== src/Database/Tasks/Updates.antt =====
-- `update_task` on a valid table: the CHECK decides on the one row that is written.
use ctyun_zos.Prelude.{ℕ, ◌≡◌, refl, Bool, true, none, some, List, [], ◌∷◌, arith}
use ctyun_zos.Data.{Task, Db, committed}
use ctyun_zos.Database.Tasks.Rows.{find_row, update_rows, find_row-update_rows}
use ctyun_zos.Database.Tasks.Invariant.{IsValid, id-assign_all, update_task-IsValid}
use ctyun_zos.Database.Tasks.{check_task, Change, assign_all, no_violation, update_task}

abbrev IsKeyed : List Task → Type 0
IsKeyed [] = Unit {0}
IsKeyed (t ∷ rows) = (find_row t.id rows ≡ none) × IsKeyed rows

IsValid-IsKeyed : (rows : List Task) → IsValid rows → IsKeyed rows
IsValid-IsKeyed [] v = tt
IsValid-IsKeyed (t ∷ rows) v = (v.1, IsValid-IsKeyed rows v.2)

module _ (check : Task → Bool) (i : ℕ) (f : Task → Task) where
  no_violation_absent :
      (rows : List Task) → find_row i rows ≡ none → no_violation check i f rows ≡ true
  unfolding find_row
  no_violation_absent [] h = refl
  no_violation_absent (t ∷ rows) h = ground (arith, no_violation_absent rows)

  no_violation-find_row :
      (rows : List Task) (row : Task)
      → IsKeyed rows
      → find_row i rows ≡ some row
      → no_violation check i f rows ≡ check (f row)
  unfolding find_row
  no_violation-find_row [] row v e = cc
  no_violation-find_row (t ∷ rows) row v e =
      ground (arith, no_violation_absent rows, no_violation-find_row rows row v.1)

-- On a valid table, for a row that is there and at least one change: if the changed row meets the
-- CHECK, the update commits, the table stays valid, the row has exactly the changes, and presets
-- and configurations are as they were.
pub update_task_lem :
    (i : ℕ) (c : Change) (cs : List Change) (db : Db) (row : Task)
    → IsValid db.tasks
    → find_row i db.tasks ≡ some row
    → check_task (assign_all (c ∷ cs) row) ≡ true
    → (db' : Db) × (update_task i (c ∷ cs) db ≡ committed tt db')
      × IsValid db'.tasks
      × (find_row i db'.tasks ≡ some (assign_all (c ∷ cs) row))
      × (db'.configs ≡ db.configs)
      × (db'.presets ≡ db.presets)
unfolding update_task
update_task_lem i c cs db row v e h =
    let f = assign_all (c ∷ cs) in
    let db' = record db { tasks = update_rows i f db.tasks } in
    let done : update_task i (c ∷ cs) db ≡ committed tt db' =
      rw (no_violation-find_row check_task i f db.tasks row (IsValid-IsKeyed db.tasks v) e, h)
        refl in
    (
      db',
      done,
      update_task-IsValid i (c ∷ cs) db db' done v,
      ground (arith, find_row-update_rows i i f db.tasks (id-assign_all (c ∷ cs)), e),
      refl,
      refl,
    )
