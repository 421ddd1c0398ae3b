-- ===== src/Interference.antt =====
-- The database under other requests: which of their writes a proof allows, and one `update_task`
-- among them.
use ctyun_zos.Prelude.{
  ℕ, ◌+◌, ◌≡◌, refl, ◌⊎◌, inl, inr, true, Option, some, List, ◌∷◌, Bool-cases, ◌∙◌,
}
use ctyun_zos.Data.{Task, Db, sqlite_error}
use ctyun_zos.Database.Tasks.{Change, assign_all, check_task, update_task}
use ctyun_zos.Database.Tasks.Rows.{find_row}
use ctyun_zos.Database.Tasks.Invariant.{IsValid}
use ctyun_zos.Database.Tasks.Updates.{update_task_lem}
use ctyun_zos.World.{Env, World, ok, raised, db_error, database_call}

-- No other request writes the row of `i`, and all keep the table valid.
pub record LeavesRow (env : Env) (i : ℕ) : Type 0 where
  pub row : (n : ℕ) (db : Db) → find_row i (env.others n db).tasks ≡ find_row i db.tasks
  pub valid : (n : ℕ) (db : Db) → IsValid db.tasks → IsValid (env.others n db).tasks

-- The table is valid and has this row.
abbrev pub Holds : ℕ → Task → World → Type 0
Holds i row w = IsValid w.db.tasks × (find_row i w.db.tasks ≡ some row)

abbrev pub row_at : ℕ → World → Option Task
row_at i w = find_row i w.db.tasks

module _ (env : Env) (i : ℕ) (row : Task) (alone : LeavesRow env i) where
  -- One `update_task` of the row: SQLite fails and the row stays, or the row has the changes.
  pub update_cases :
      (c : Change) (cs : List Change) (w : World)
      → check_task (assign_all (c ∷ cs) row) ≡ true
      → Holds i row w
      → ((w' : World) × (database_call env (update_task i (c ∷ cs)) w
            ≡ (raised (db_error sqlite_error), w'))
          × Holds i row w')
        ⊎ ((w' : World) × (database_call env (update_task i (c ∷ cs)) w ≡ (ok tt, w'))
            × (row_at i w' ≡ some (assign_all (c ∷ cs) row)))
  unfolding database_call
  update_cases c cs w check h =
      let seen = env.others w.draws w.db in
      let next = record w { db = seen; draws = w.draws + 1 } in
      let valid = alone.valid w.draws w.db h.0 in
      let kept : find_row i seen.tasks ≡ some row = alone.row w.draws w.db ∙ h.1 in
      let (db', done, _, changed, _, _) = update_task_lem i c cs seen row valid kept check in
      elim (Bool-cases (env.fault w.draws)) [
        | inl fault ↦ inl (next, rw fault refl, (valid, kept))
        | inr fine ↦ inr (record next { db = db' }, rw (fine, done) refl, changed)
      ]
