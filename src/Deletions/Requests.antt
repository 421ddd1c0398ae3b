-- ===== src/Deletions/Requests.antt =====
-- A whole deletion request: who may delete, and where the request leaves the task.
use ctyun_zos.Prelude.{
  Option-cases, ℕ, ◌+◌, ◌≡◌, ◌⊎◌, refl, true, false, Option, none, some, arith, inl, inr,
  Bool-cases, sym, ◌∙◌,
}
use mathlib.Core.Path.{subst}
use ctyun_zos.Data.{
  succeeded, present, Task, delete_token_invalid, bad_request, task_not_found, sqlite_error,
  committed, database_error_code, committed,
}
use ctyun_zos.Database.Tasks.{TaskRow, task_by_id, is_present, claimed, claim_task_deletion}
use ctyun_zos.Database.Tasks.Rows.{find_row}
use ctyun_zos.Database.Tasks.Joins.{id-find_row, find_row-task_by_id}
use ctyun_zos.Database.Tasks.Invariant.{IsValid}
use ctyun_zos.Database.Tasks.Claims.{claim_task_deletion_lem, claim_task_deletion-IsValid}
use ctyun_zos.World.{
  Env, World, Exn, Result, ok, raised, api, db_error, ◌>>=◌, database_call, query,
}
use ctyun_zos.Security.{matches_delete_token}
use ctyun_zos.Deletions.{
  DeleteRequest, DeleteResponse, lift, has_no_body, is_admin_path, deletion_gate, admit, claim,
  after_claim, delete_admitted, delete_task_object,
}
use ctyun_zos.Interference.{LeavesRow}
use ctyun_zos.Deletions.Outcomes.{Reported, row_of, strict_delete-Reported}

-- The request is well formed, and the database answers the first read.
pub record IsRead (env : Env) (q : DeleteRequest) (w : World) (row : TaskRow) : Type 0 where
  pub uuid : q.valid_uuid ≡ true
  pub no_body : has_no_body q ≡ true
  pub no_fault : env.fault w.draws ≡ false
  pub found : task_by_id q.task_id (env.others w.draws w.db) ≡ some row

-- The world after that read.
abbrev pub after_read : Env → World → World
after_read env w = record w { db = env.others w.draws w.db; draws = w.draws + 1 }

module _ (env : Env) (q : DeleteRequest) (w : World) (row : TaskRow)
    (read : IsRead env q w row) where
  delete-early :
      delete_task_object env q w
      ≡ (lift (admit env (is_admin_path q.path) q row.task)
            >>= delete_admitted env (is_admin_path q.path) q row.task)
          (after_read env w)
  unfolding delete_task_object query
  delete-early = rw (read.uuid, read.no_body, read.no_fault, read.found) refl

-- What a request has left undone: it raises, has written no row and no event, and has sent nothing
-- to the store; the tables are as they were, or as other requests have left them.
abbrev pub IsDenied : {A : Type 0} → Env → World → Result A × World → Type 0
IsDenied env w (r, w') =
    ((e : Exn) × (r ≡ raised e))
    × (w'.trace ≡ w.trace)
    × (w'.events ≡ w.events)
    × ((w'.db ≡ w.db) ⊎ (w'.db ≡ env.others w.draws w.db))

-- Outside the administrators' path, a request whose token matches the hash of no task that its
-- first read can find is denied, also when it is malformed, the task does not exist, or the
-- database fails: it has changed no row, has sent nothing to the store, and raises.
pub delete_task_object-IsDenied :
    (env : Env) (q : DeleteRequest) (w : World)
    → is_admin_path q.path ≡ false
    → ((row : TaskRow)
        → task_by_id q.task_id (env.others w.draws w.db) ≡ some row
        → matches_delete_token env q.delete_token row.task.delete_token_hash ≡ false)
    → IsDenied env w (delete_task_object env q w)
unfolding delete_task_object query admit
delete_task_object-IsDenied env q w plain wrong =
    let seen = after_read env w in
    elim (Bool-cases q.valid_uuid) [
      | inr u ↦ denied (api 400 bad_request none) w (rw u refl) refl refl (inl refl)
      | inl u ↦ elim (Bool-cases (has_no_body q)) [
        | inr b ↦ denied (api 400 bad_request none) w (rw (u, b) refl) refl refl (inl refl)
        | inl b ↦ elim (Bool-cases (env.fault w.draws)) [
          | inl f ↦ denied (db_error sqlite_error) seen (rw (u, b, f) refl) refl refl (inr refl)
          | inr f ↦ elim (Option-cases (task_by_id q.task_id (env.others w.draws w.db))) [
            | inl n ↦
                denied (api 404 task_not_found none) seen (rw (u, b, f, n) refl) refl refl
                  (inr refl)
            | inr (row, e) ↦
                denied (api 403 delete_token_invalid (some q.task_id)) seen
                  (rw (u, b, f, e, plain, wrong row e) refl) refl refl (inr refl)
          ]
        ]
      ]
    ]
  where
    denied :
        (e : Exn) (w' : World)
        → delete_task_object env q w ≡ (raised e, w')
        → w'.trace ≡ w.trace
        → w'.events ≡ w.events
        → (w'.db ≡ w.db) ⊎ (w'.db ≡ env.others w.draws w.db)
        → IsDenied env w (delete_task_object env q w)
    denied e w' run a b d = subst (IsDenied env w) (sym run) ((e, refl), a, b, d)

-- A present object of a finished upload.
abbrev pub IsPresent : Task → Type 0
IsPresent t = (t.status ≡ succeeded) × (t.object_status ≡ present)

deletion_gate-IsPresent : (t : Task) → IsPresent t → deletion_gate t ≡ ok none
unfolding deletion_gate
deletion_gate-IsPresent t p = rw (p.0, p.1) refl

-- How a claimed deletion of `t` ends: the claim failed and the row is as it was, or the row was
-- claimed at some time and is where the answer says.
abbrev pub Ended : DeleteRequest → Task → Result DeleteResponse → Option Task → Type 0
Ended q t r after =
    ((r ≡ raised (api 500 database_error_code (some q.task_id))) × (after ≡ some t))
    ⊎ ((now : ℕ) × Reported (claimed q.request_id now t) present r after)

module _ (env : Env) (q : DeleteRequest) (w : World) (t : Task) (alone : LeavesRow env t.id)
    (valid : IsValid w.db.tasks) (same : q.task_id ≡ t.id)
    (stored : find_row t.id w.db.tasks ≡ some t) (ready : IsPresent t) where
  claim-Ended : let (r, w') = delete_admitted env false q t none w in Ended q t r (row_of t w')
  unfolding delete_admitted claim after_claim database_call
  claim-Ended =
      let now = env.clock w.draws in
      let seen = env.others (w.draws + 1) w.db in
      let seen_valid = alone.valid (w.draws + 1) w.db valid in
      let kept : find_row t.id seen.tasks ≡ some t = alone.row (w.draws + 1) w.db ∙ stored in
      let (db', claims, rows, _, _) =
        claim_task_deletion_lem t.id t.id q.request_id now seen seen_valid in
      let next = record w { db = seen; draws = w.draws + 1 + 1 } in
      let passed : is_present t ≡ true = rw (ready.0, ready.1) refl in
      let won : claim_task_deletion q.task_id q.request_id now seen ≡ committed true db' =
        rw same (claims ∙ rw (kept, passed) refl) in
      let changed : find_row t.id db'.tasks ≡ some (claimed q.request_id now t) =
        ground (arith, rows, kept, passed) in
      let valid' =
        claim_task_deletion-IsValid q.task_id q.request_id now true seen db' won seen_valid in
      elim (Bool-cases (env.fault (w.draws + 1))) [
        | inl fault ↦ rw fault (inl (refl, kept))
        | inr fine ↦
            rw (fine, won)
              (inr (
                now,
                strict_delete-Reported env t (claimed q.request_id now t) present
                    (record next { db = db' }) ready.0 alone refl (valid', changed),
              ))
      ]

-- A well-formed request with the token, for a present object, whose first read finds the task in a
-- valid table, when no other request writes that row: either
-- the claim fails in the database and the row is unchanged, or the row was claimed under this
-- request and is where the answer says: deleted at the reported time (200), `delete_unknown`
-- (202), still claimed (a failed write), or present again with the code of the error.
pub delete_with_token :
    (env : Env) (q : DeleteRequest) (w : World) (row : TaskRow)
    → IsRead env q w row
    → is_admin_path q.path ≡ false
    → matches_delete_token env q.delete_token row.task.delete_token_hash ≡ true
    → IsPresent row.task
    → LeavesRow env row.task.id
    → IsValid w.db.tasks
    → let (r, w') = delete_task_object env q w in Ended q row.task r (row_of row.task w')
unfolding admit
delete_with_token env q w row read plain token ready alone valid =
    let seen = env.others w.draws w.db in
    let stored = find_row-task_by_id q.task_id seen read.found in
    let same = sym (id-find_row q.task_id seen.tasks row.task stored) in
    rw (delete-early env q w row read, plain, token, deletion_gate-IsPresent row.task ready)
      (claim-Ended env q (after_read env w) row.task alone (alone.valid w.draws w.db valid) same
        (subst (λ i. find_row i seen.tasks ≡ some row.task) same stored) ready)
