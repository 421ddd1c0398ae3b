-- ===== src/Database/Tasks/Retention.antt =====
-- app/database.py: `maintain` on upload_tasks and storage_configs; the log's rows are left out.
use ctyun_zos.Prelude.{
  ℕ, ◌≡◌, refl, Bool, true, false, not, ◌&&◌, List, [], ◌∷◌, arith, ltb, ◌==◌, ==_iff, sym, filter,
  any, Bool-cases, inl, inr,
}
use mathlib.Core.Path.{subst}
use ctyun_zos.Data.{
  succeeded, failed, absent, deleted, Task, StorageConfig, Db, DbResult, committed,
}
use ctyun_zos.Database.Tasks.{object_count, used_bytes, find_config}
use ctyun_zos.Database.Tasks.Invariant.{IsValid}

-- status IN ('succeeded','failed') AND object_status IN ('absent','deleted')
abbrev pub is_settled : Task → Bool
is_settled t = elim t.status [
  | succeeded ↦ elim t.object_status [ absent ↦ true | deleted ↦ true | _ ↦ false ]
  | failed ↦ elim t.object_status [ absent ↦ true | deleted ↦ true | _ ↦ false ]
  | _ ↦ false
]

abbrev pub is_expired : ℕ → Task → Bool
is_expired cutoff t = is_settled t && ltb t.created_at cutoff

abbrev pub is_used : ℕ → List Task → Bool
is_used i = any (λ (t : Task). t.storage_config_id == i)

abbrev pub is_obsolete : ℕ → List Task → StorageConfig → Bool
is_obsolete cutoff tasks c = not c.active && ltb c.activated_at cutoff && not (is_used c.id tasks)

unfoldable pub maintain : ℕ → Db → DbResult (Unit {0})
maintain cutoff db =
    let tasks = filter (λ t. not (is_expired cutoff t)) db.tasks in
    committed tt (record db {
      tasks = tasks;
      configs = filter (λ c. not (is_obsolete cutoff tasks c)) db.configs;
    })

kept_usage :
    (cutoff client : ℕ) (rows : List Task)
    → IsValid rows
    → let kept = filter (λ t. not (is_expired cutoff t)) rows in
      (object_count client kept ≡ object_count client rows)
      × (used_bytes client kept ≡ used_bytes client rows)
unfolding object_count used_bytes
kept_usage cutoff client [] v = (refl, refl)
kept_usage cutoff client (t ∷ rows) v = ground (arith, v.0, kept_usage cutoff client rows v.2)

kept_config :
    (cutoff i : ℕ) (tasks : List Task) (configs : List StorageConfig)
    → is_used i tasks ≡ true
    → find_config i (filter (λ c. not (is_obsolete cutoff tasks c)) configs) ≡ find_config i configs
kept_config cutoff i tasks [] u = refl
kept_config cutoff i tasks (c ∷ configs) u = elim (Bool-cases (c.id == i)) [
  | inl same ↦
      let used : is_used c.id tasks ≡ true =
        subst (λ j. is_used j tasks ≡ true) (sym ((==_iff c.id i).0 same)) u in
      ground (arith, same, used)
  | inr differs ↦ ground (arith, differs, kept_config cutoff i tasks configs u)
]

-- On a valid table, the daily maintenance changes no caller's usage, so it deletes no row of an
-- object that may exist; and each task that stays keeps the configuration that it names.
pub maintain-keeps :
    (cutoff client : ℕ) (t : Task) (db db' : Db)
    → IsValid db.tasks
    → maintain cutoff db ≡ committed tt db'
    → is_used t.storage_config_id db'.tasks ≡ true
    → (object_count client db'.tasks ≡ object_count client db.tasks)
      × (used_bytes client db'.tasks ≡ used_bytes client db.tasks)
      × (find_config t.storage_config_id db'.configs ≡ find_config t.storage_config_id db.configs)
unfolding maintain
maintain-keeps cutoff client t db db' v e u =
    let kept = filter (λ (r : Task). not (is_expired cutoff r)) db.tasks in
    ground (
      arith,
      kept_usage cutoff client db.tasks v,
      kept_config cutoff t.storage_config_id kept db.configs,
    )
