-- ===== src/Runtime/Recovery/Uploads.antt =====
-- Where recovery leaves an upload whose outcome is unknown.
use ctyun_zos.Prelude.{ℕ, ◌≡◌, ◌⊎◌, Option, none, some, List}
use ctyun_zos.Data.{Task, Code, object_size_mismatch, recovery_pending, sqlite_error}
use ctyun_zos.Database.Tasks.{Change, assign_all}
use ctyun_zos.World.{Env, World, Result, ok, raised, Exn, db_error}
use ctyun_zos.Interference.{LeavesRow, Holds, row_at}
use ctyun_zos.Providers.Metadata.{ObjectMetadata}
use ctyun_zos.Runtime.Recovery.{not_found_changes, found_changes, unresolved_changes}

-- The object has the recorded size, if one is recorded.
abbrev pub HasSize : Option ℕ → ObjectMetadata → Type 0
HasSize none m = Unit {0}
HasSize (some n) m = m.size_bytes ≡ n

-- The three ways to resolve an upload.
pub data Resolution (t : Task) : List Change → Type 0 where
  not_found : (now : ℕ) → Resolution t (not_found_changes now)
  found :
      (m : ObjectMetadata) (now : ℕ) → HasSize t.size_bytes m → Resolution t (found_changes t m now)
  unresolved :
      (code : Code)
      → (code ≡ object_size_mismatch) ⊎ (code ≡ recovery_pending)
      → Resolution t (unresolved_changes code)

-- The row has one of the resolutions, or SQLite failed and it is as it was.
abbrev pub Recovered : Task → Task → Result (Unit {0}) → Option Task → Type 0
Recovered t row r after =
    ((r ≡ raised (db_error sqlite_error)) × (after ≡ some row))
    ⊎ ((cs : List Change) × Resolution t cs × (r ≡ ok tt) × (after ≡ some (assign_all cs row)))

module _ (env : Env) (t row : Task) (alone : LeavesRow env t.id) where
  -- How the `try` ends: with an exception and the row as it was, or with a resolution.
  abbrev Tried : Result (Unit {0}) × World → Type 0
  Tried (r, w') =
      ((e : Exn) × (r ≡ raised e) × Holds t.id row w')
      ⊎ ((cs : List Change) × Resolution t cs
          × (r ≡ ok tt)
          × (row_at t.id w' ≡ some (assign_all cs row)))
