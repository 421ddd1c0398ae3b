-- ===== src/Database/Tasks/Claims.antt =====
-- The two claims of a deletion: who wins, and what the loser sees.
use ctyun_zos.Prelude.{
  ℕ, ◌≡◌, refl, Bool, true, false, ◌&&◌, Option, none, some, List, [], ◌∷◌, arith, ◌==◌,
  if◌then◌else◌, count, ◌⊎◌, inl, inr,
}
use ctyun_zos.Data.{Task, Db, DbResult, committed, rolled_back}
use ctyun_zos.Database.Tasks.Rows.{find_row, update_rows, find_row-update_rows, map_row}
use ctyun_zos.Database.Tasks.Invariant.{IsValid, update_rows-IsValid}
use ctyun_zos.Database.Tasks.{
  check_task, updates_allowed, is_present, is_unclaimed, claimed, claim_task_deletion,
  claim_unclaimed_deletion,
}

-- What a claim does to the row that it finds.
abbrev pub claim_row : (Task → Bool) → ℕ → ℕ → Task → Task
claim_row test request_id started_at t = if test t then claimed request_id started_at t else t

abbrev pub passes : (Task → Bool) → Option Task → Bool
passes test none = false
passes test (some t) = test t

count_of_absent :
    (test : Task → Bool) (i : ℕ) (rows : List Task)
    → find_row i rows ≡ none
    → count (λ t. t.id == i && test t) rows ≡ 0
unfolding find_row
count_of_absent test i [] h = refl
count_of_absent test i (t ∷ rows) h = ground (arith, count_of_absent test i rows)

-- In a valid table the UPDATE writes one row if the row of the key passes, and none otherwise.
count-passes :
    (test : Task → Bool) (i : ℕ) (rows : List Task)
    → IsValid rows
    → (count (λ t. t.id == i && test t) rows == 1) ≡ passes test (find_row i rows)
unfolding find_row
count-passes test i [] v = refl
count-passes test i (t ∷ rows) v =
    ground (arith, count_of_absent test i rows, count-passes test i rows v.2)

id-claim_row : (test : Task → Bool) (r s : ℕ) (t : Task) → (claim_row test r s t).id ≡ t.id
id-claim_row test r s t = ground arith

module _ (test : Task → Bool)
    (only_succeeded : (t : Task) (r s : ℕ)
      → test t ≡ true
      → check_task (claimed r s t) ≡ true) where
  claim_row_allowed :
      (i r s : ℕ) (rows : List Task)
      → IsValid rows
      → updates_allowed i (claim_row test r s) rows ≡ true
  claim_row_allowed i r s [] v = refl
  claim_row_allowed i r s (t ∷ rows) v =
      ground (arith, only_succeeded t r s, claim_row_allowed i r s rows v.2)

  claim_rows-IsValid :
      (i r s : ℕ) (rows : List Task)
      → IsValid rows
      → IsValid (update_rows i (claim_row test r s) rows)
  claim_rows-IsValid i r s rows v =
      update_rows-IsValid i (claim_row test r s) rows (id-claim_row test r s)
        (claim_row_allowed i r s rows v) v

check_task-claimed : (t : Task) (r s : ℕ) → is_present t ≡ true → check_task (claimed r s t) ≡ true
check_task-claimed t r s h = ground arith

check_task-claimed_unclaimed :
    (t : Task) (r s : ℕ) → is_unclaimed t ≡ true → check_task (claimed r s t) ≡ true
check_task-claimed_unclaimed t r s h = ground arith

-- A claim by a token holder keeps the table valid.
pub claim_task_deletion-IsValid :
    (i r s : ℕ) (b : Bool) (db db' : Db)
    → claim_task_deletion i r s db ≡ committed b db'
    → IsValid db.tasks
    → IsValid db'.tasks
unfolding claim_task_deletion
claim_task_deletion-IsValid i r s b db db' e v =
    ground (arith, claim_rows-IsValid is_present check_task-claimed i r s db.tasks)

-- A claim by an administrator keeps the table valid.
pub claim_unclaimed_deletion-IsValid :
    (i r s : ℕ) (b : Bool) (db db' : Db)
    → claim_unclaimed_deletion i r s db ≡ committed b db'
    → IsValid db.tasks
    → IsValid db'.tasks
unfolding claim_unclaimed_deletion
claim_unclaimed_deletion-IsValid i r s b db db' e v =
    ground (arith, claim_rows-IsValid is_unclaimed check_task-claimed_unclaimed i r s db.tasks)

-- The row of `i` after a claim, and whether the claim reports success.
pub claim_task_deletion_lem :
    (i j r s : ℕ) (db : Db)
    → IsValid db.tasks
    → (db' : Db) × (claim_task_deletion i r s db
        ≡ committed (passes is_present (find_row i db.tasks)) db')
      × (find_row j db'.tasks ≡ (
          if i == j
          then map_row (claim_row is_present r s) (find_row j db.tasks)
          else find_row j db.tasks))
      × (db'.configs ≡ db.configs)
      × (db'.presets ≡ db.presets)
unfolding claim_task_deletion
claim_task_deletion_lem i j r s db v = (
  record db { tasks = update_rows i (claim_row is_present r s) db.tasks },
  rw (count-passes is_present i db.tasks v) refl,
  find_row-update_rows i j (claim_row is_present r s) db.tasks (id-claim_row is_present r s),
  refl,
  refl,
)

pub claim_unclaimed_deletion_lem :
    (i j r s : ℕ) (db : Db)
    → IsValid db.tasks
    → (db' : Db) × (claim_unclaimed_deletion i r s db
        ≡ committed (passes is_unclaimed (find_row i db.tasks)) db')
      × (find_row j db'.tasks ≡ (
          if i == j
          then map_row (claim_row is_unclaimed r s) (find_row j db.tasks)
          else find_row j db.tasks))
      × (db'.configs ≡ db.configs)
      × (db'.presets ≡ db.presets)
unfolding claim_unclaimed_deletion
claim_unclaimed_deletion_lem i j r s db v = (
  record db { tasks = update_rows i (claim_row is_unclaimed r s) db.tasks },
  rw (count-passes is_unclaimed i db.tasks v) refl,
  find_row-update_rows i j (claim_row is_unclaimed r s) db.tasks (id-claim_row is_unclaimed r s),
  refl,
  refl,
)

-- What a method returned, if it committed.
abbrev pub outcome : {A : Type 0} → DbResult A → Option A
outcome (committed a _) = some a
outcome (rolled_back _) = none

-- A claim that succeeds leaves a row that neither claim accepts.
claimed_row_closed :
    (i r s : ℕ) (db db' : Db)
    → IsValid db.tasks
    → (claim_task_deletion i r s db ≡ committed true db')
      ⊎ (claim_unclaimed_deletion i r s db ≡ committed true db')
    → (passes is_present (find_row i db'.tasks) ≡ false)
      × (passes is_unclaimed (find_row i db'.tasks) ≡ false)
      × IsValid db'.tasks
claimed_row_closed i r s db db' v (inl e) =
    ground (
      arith,
      claim_task_deletion_lem i i r s db v,
      claim_task_deletion-IsValid i r s true db db' e v,
    )
claimed_row_closed i r s db db' v (inr e) = ground (
  arith,
  claim_unclaimed_deletion_lem i i r s db v,
  claim_unclaimed_deletion-IsValid i r s true db db' e v,
)

-- In a valid table, after a claim of a task has succeeded, by the token holder or by an
-- administrator, every further claim of that task, of either kind, reports failure.
pub claim_once :
    (i r s r' s' : ℕ) (db db' : Db)
    → IsValid db.tasks
    → (claim_task_deletion i r s db ≡ committed true db')
      ⊎ (claim_unclaimed_deletion i r s db ≡ committed true db')
    → (outcome (claim_task_deletion i r' s' db') ≡ some false)
      × (outcome (claim_unclaimed_deletion i r' s' db') ≡ some false)
claim_once i r s r' s' db db' v e =
    let closed = claimed_row_closed i r s db db' v e in
    ground (
      arith,
      closed,
      claim_task_deletion_lem i i r' s' db' closed.2,
      claim_unclaimed_deletion_lem i i r' s' db' closed.2,
    )
