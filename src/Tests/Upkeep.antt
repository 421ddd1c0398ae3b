-- ===== src/Tests/Upkeep.antt =====
-- The guard, the maintenance and the pruning of snapshots on small inputs.
use ctyun_zos.Prelude.{
  if◌then◌else◌, any, text_eq, true, ◌≡◌, ◌≤◌, ◌⊎◌, refl, some, List, [], ◌∷◌, codes, arith, length,
  Text,
}
use ctyun_zos.World.{ok, raised, other}
use ctyun_zos.Database.Tasks.{object_count, used_bytes, find_config}
use ctyun_zos.Database.Tasks.Retention.{maintain, maintain-keeps}
use ctyun_zos.Guard.{
  is_ascii, compare_digest, match_keys, match_clients, valid_admin_key, client_identity,
}
use ctyun_zos.Guard.Keys.{IsListed, IsClient, client_identity_lem, valid_admin_key_lem}
use ctyun_zos.Guard.Rate.{recent, run, run-bounds, last_time}
use ctyun_zos.Backups.{
  SnapshotFile, PruneLimits, prune, releases_of, migrations_of, first_migration, prune-bounds,
}
use ctyun_zos.Tests.Fixtures.{small_db, small_db-IsValid, present_task}

abbrev one_client : List (Text × Text)
one_client = (codes "c", codes "k") ∷ []

client_identity_lem_example :
    ((codes "c" ≡ codes "admin-dashboard") × IsListed (codes "x") (codes "a" ∷ []))
    ⊎ (((codes "c" ≡ codes "legacy") × (one_client ≡ []))
        ⊎ ((codes "c" ≡ codes "c") × IsClient (codes "c") (codes "k") one_client))
unfolding client_identity valid_admin_key match_keys match_clients compare_digest
client_identity_lem_example =
    client_identity_lem (some (codes "x")) (codes "c") (codes "k") (codes "c") (codes "a" ∷ [])
      one_client refl

valid_admin_key_lem_example : valid_admin_key (some (codes "b")) (codes "b" ∷ codes "a" ∷ []) ≡ (
    if is_ascii (codes "b")
    then ok (any (text_eq (codes "b")) (codes "b" ∷ codes "a" ∷ []))
    else raised other)
valid_admin_key_lem_example = valid_admin_key_lem (codes "b") (codes "b") (codes "a" ∷ []) refl

first_key_is_valid : valid_admin_key (some (codes "b")) (codes "b" ∷ codes "a" ∷ []) ≡ ok true
unfolding valid_admin_key match_keys compare_digest
first_key_is_valid = refl

other_characters_raise : valid_admin_key (some (233 ∷ [])) (codes "a" ∷ []) ≡ raised other
unfolding valid_admin_key match_keys compare_digest
other_characters_raise = refl

run-bounds_example :
    let s = run 2 (1 ∷ 2 ∷ 3 ∷ 70_000_000 ∷ []) (record { attempts = []; log = [] }) in
    length (recent (last_time 0 (1 ∷ 2 ∷ 3 ∷ 70_000_000 ∷ [])) s.log) ≤ 2
run-bounds_example =
    run-bounds 2 (1 ∷ 2 ∷ 3 ∷ 70_000_000 ∷ [])
      (omega arith, (omega arith, (omega arith, (omega arith, tt))))

maintain-keeps_example :
    (object_count 7 small_db.tasks ≡ object_count 7 small_db.tasks)
    × (used_bytes 7 small_db.tasks ≡ used_bytes 7 small_db.tasks)
    × (find_config 10 small_db.configs ≡ find_config 10 small_db.configs)
unfolding maintain
maintain-keeps_example =
    maintain-keeps 9 7 present_task small_db small_db small_db-IsValid refl refl

abbrev limits : PruneLimits
limits = record { keep_releases = 1; keep_migrations = 1; max_bytes = 10 }

abbrev newest_file : SnapshotFile
newest_file = record { from_version = 5; to_version = 5; size = 8 }

abbrev older_files : List SnapshotFile
older_files =
    record newest_file { size = 1 }
    ∷ record newest_file { from_version = 4; size = 9 }
    ∷ record newest_file { from_version = 3; size = 1 }
    ∷ []

prune-bounds_example :
    (releases_of (prune limits (newest_file ∷ older_files)) ≤ 1)
    × (migrations_of (prune limits (newest_file ∷ older_files)) ≤ 1)
    × ((rest : List SnapshotFile) × (prune limits (newest_file ∷ older_files) ≡ newest_file ∷ rest))
    × (first_migration (prune limits (newest_file ∷ older_files))
        ≡ first_migration (newest_file ∷ older_files))
prune-bounds_example = prune-bounds limits newest_file older_files (omega arith) (omega arith)
