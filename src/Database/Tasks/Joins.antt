-- ===== src/Database/Tasks/Joins.antt =====
-- What a found row says of the table.
use ctyun_zos.Prelude.{ℕ, ◌≡◌, Option, none, some, List, [], ◌∷◌, arith}
use ctyun_zos.Data.{Task, Db}
use ctyun_zos.Database.Tasks.Rows.{find_row}
use ctyun_zos.Database.Tasks.{TaskRow, join, task_by_id}

pub id-find_row : (i : ℕ) (rows : List Task) (t : Task) → find_row i rows ≡ some t → t.id ≡ i
unfolding find_row
id-find_row i [] t h = cc
id-find_row i (r ∷ rows) t h = ground (arith, id-find_row i rows t)

task-join : (db : Db) (o : Option Task) {row : TaskRow} → join db o ≡ some row → o ≡ some row.task
task-join db none h = cc
task-join db (some t) h = ground arith

pub find_row-task_by_id :
    (i : ℕ) (db : Db) {row : TaskRow}
    → task_by_id i db ≡ some row
    → find_row i db.tasks ≡ some row.task
unfolding task_by_id
find_row-task_by_id i db h = task-join db (find_row i db.tasks) h
