-- ===== src/Backups.antt =====
-- app/deploy_backups.py: `prune`, which decides what snapshots stay. The files come in the order
-- that `sorted` gives, the newest first; the loop unlinks the files that do not stay.
use ctyun_zos.Prelude.{
  ℕ, ◌+◌, ◌≡◌, ◌≤◌, refl, Bool, true, not, ◌&&◌, ◌||◌, Option, none, some, List, [], ◌∷◌, arith,
  ltb, leb, ◌==◌, if◌then◌else◌, count, Bool-cases, inl, inr,
}

-- A snapshot by its name: the schema versions it is from and to, and its size.
pub record SnapshotFile : Type 0 where
  pub from_version : ℕ
  pub to_version : ℕ
  pub size : ℕ

pub record PruneLimits : Type 0 where
  pub keep_releases : ℕ
  pub keep_migrations : ℕ
  pub max_bytes : ℕ

-- What the loop has kept so far.
pub record Kept : Type 0 where
  pub files : ℕ
  pub releases : ℕ
  pub migrations : ℕ
  pub bytes : ℕ

abbrev pub is_migration : SnapshotFile → Bool
is_migration f = not (f.from_version == f.to_version)

abbrev pub has_room : PruneLimits → Kept → SnapshotFile → Bool
has_room l k f =
    if is_migration f then ltb k.migrations l.keep_migrations else ltb k.releases l.keep_releases

abbrev pub is_mandatory : Kept → SnapshotFile → Bool
is_mandatory k f = k.files == 0 || (is_migration f && k.migrations == 0)

abbrev pub stays : PruneLimits → Kept → SnapshotFile → Bool
stays l k f = has_room l k f && (is_mandatory k f || leb (k.bytes + f.size) l.max_bytes)

abbrev pub counted : Kept → SnapshotFile → Kept
counted k f = record {
  files = k.files + 1;
  releases = if is_migration f then k.releases else k.releases + 1;
  migrations = if is_migration f then k.migrations + 1 else k.migrations;
  bytes = k.bytes + f.size;
}

unfoldable pub prune_from : PruneLimits → Kept → List SnapshotFile → List SnapshotFile
prune_from l k [] = []
prune_from l k (f ∷ files) =
    let with_it = prune_from l (counted k f) files in
    let without = prune_from l k files in if stays l k f then f ∷ with_it else without

-- The files that stay.
unfoldable pub prune : PruneLimits → List SnapshotFile → List SnapshotFile
unfolding prune_from
prune l files = prune_from l (record { files = 0; releases = 0; migrations = 0; bytes = 0 }) files

abbrev pub first_migration : List SnapshotFile → Option SnapshotFile
first_migration [] = none
first_migration (f ∷ files) = if is_migration f then some f else first_migration files

abbrev pub releases_of : List SnapshotFile → ℕ
releases_of = count (λ f. not (is_migration f))

abbrev pub migrations_of : List SnapshotFile → ℕ
migrations_of = count is_migration

counted-bounds :
    (l : PruneLimits) (k : Kept) (f : SnapshotFile)
    → k.releases ≤ l.keep_releases
    → k.migrations ≤ l.keep_migrations
    → stays l k f ≡ true
    → ((counted k f).releases ≤ l.keep_releases) × ((counted k f).migrations ≤ l.keep_migrations)
counted-bounds l k f r m keep = ground arith

prune_from-bounds :
    (l : PruneLimits) (k : Kept) (files : List SnapshotFile)
    → k.releases ≤ l.keep_releases
    → k.migrations ≤ l.keep_migrations
    → (k.releases + releases_of (prune_from l k files) ≤ l.keep_releases)
      × (k.migrations + migrations_of (prune_from l k files) ≤ l.keep_migrations)
unfolding prune_from
prune_from-bounds l k [] r m = ground arith
prune_from-bounds l k (f ∷ files) r m = elim (Bool-cases (stays l k f)) [
  | inl keep ↦
      let counts = counted-bounds l k f r m keep in
      let rest = prune_from-bounds l (counted k f) files counts.0 counts.1 in
      rw keep (ground (arith, rest))
  | inr drop ↦ rw drop (prune_from-bounds l k files r m)
]

first_migration-prune_from :
    (l : PruneLimits) (k : Kept) (files : List SnapshotFile)
    → k.migrations ≡ 0
    → 1 ≤ l.keep_migrations
    → first_migration (prune_from l k files) ≡ first_migration files
unfolding prune_from
first_migration-prune_from l k [] z h = refl
first_migration-prune_from l k (f ∷ files) z h = ground (
  arith,
  first_migration-prune_from l k files z h,
  first_migration-prune_from l (counted k f) files,
)

keeps_newest :
    (l : PruneLimits) (f : SnapshotFile) (files : List SnapshotFile)
    → 1 ≤ l.keep_releases
    → 1 ≤ l.keep_migrations
    → let none_kept : Kept = record { files = 0; releases = 0; migrations = 0; bytes = 0 } in
      prune_from l none_kept (f ∷ files) ≡ f ∷ prune_from l (counted none_kept f) files
unfolding prune_from
keeps_newest l f files r m = ground arith

-- With limits of at least one, pruning keeps at most the given number of snapshots of releases
-- and of migrations, keeps the newest snapshot, and keeps the newest one of a migration.
pub prune-bounds :
    (l : PruneLimits) (f : SnapshotFile) (files : List SnapshotFile)
    → 1 ≤ l.keep_releases
    → 1 ≤ l.keep_migrations
    → (releases_of (prune l (f ∷ files)) ≤ l.keep_releases)
      × (migrations_of (prune l (f ∷ files)) ≤ l.keep_migrations)
      × ((rest : List SnapshotFile) × (prune l (f ∷ files) ≡ f ∷ rest))
      × (first_migration (prune l (f ∷ files)) ≡ first_migration (f ∷ files))
unfolding prune
prune-bounds l f files r m =
    let none_kept : Kept = record { files = 0; releases = 0; migrations = 0; bytes = 0 } in
    let bounds = prune_from-bounds l none_kept (f ∷ files) (omega arith) (omega arith) in
    (
      omega (arith, bounds.0),
      omega (arith, bounds.1),
      (prune_from l (counted none_kept f) files, keeps_newest l f files r m),
      first_migration-prune_from l none_kept (f ∷ files) refl m,
    )
