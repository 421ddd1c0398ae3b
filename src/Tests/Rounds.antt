-- ===== src/Tests/Rounds.antt =====
-- Recovery, the provider cache, and the fields of an upload at the small installation.
use ctyun_zos.Prelude.{
  ℕ, ◌-◌, ◌≡◌, ◌≤◌, ◌⊎◌, ◌++◌, ◌||◌, ◌+◌, refl, true, false, Option, none, some, List, [], ◌∷◌,
  codes, arith, length, drop, All, Text,
}
use ctyun_zos.Data.{Db, committed}
use ctyun_zos.Database.Tasks.{update_task, claim_task_deletion, claim_unclaimed_deletion}
use ctyun_zos.Database.Tasks.Pending.{pending_tasks, pending_deletions}
use ctyun_zos.Database.Tasks.Rows.{find_row}
use ctyun_zos.Database.Tasks.Claims.{outcome}
use ctyun_zos.World.{
  World, ok, query, database_call, Interaction, ClientOutcome, HeadResponse, client_error,
}
use ctyun_zos.Providers.{head_object, head_result, has_status, is_missing_code}
use ctyun_zos.Providers.Metadata.{ObjectMetadata, require_upload_metadata}
use ctyun_zos.Providers.Endpoint.{endpoint_error}
use ctyun_zos.Runtime.Cache.{recovery_provider_for_config, cache_provider, get, remove}
use ctyun_zos.Runtime.Cache.Bounded.{IsValid, cache_provider_lem}
use ctyun_zos.Runtime.Recovery.{
  recover_upload, deletion_verdict, found_changes, recover, gather, work_of, recovery_work,
  after_settled, try_upload, settle_upload,
}
use ctyun_zos.Runtime.Recovery.Verdicts.{deletion_verdict-deleted}
use ctyun_zos.Runtime.Recovery.Races.{stale_recovery-IsStuck}
use ctyun_zos.Runtime.Recovery.Reads.{IsHead}
use ctyun_zos.Runtime.Recovery.Rounds.{recover-gather, recover-OnlyHeads}
use ctyun_zos.Tests.Fixtures.{
  calm, small_world, small_db, small_db-IsValid, present_task, open_task, small_provider,
}
use ctyun_zos.Uploads.Fields.{safe_filename}
use ctyun_zos.Uploads.Fields.Safe.{IsName, safe_filename-IsName}

abbrev missing_reply : ClientOutcome HeadResponse
missing_reply = client_error (some 404) none

deletion_verdict-deleted_example :
    (status : Option ℕ) × (code : Option Text) × (missing_reply ≡ client_error status code)
    × ((has_status 404 status || is_missing_code code) ≡ true)
unfolding deletion_verdict head_result
deletion_verdict-deleted_example = deletion_verdict-deleted present_task missing_reply refl

abbrev found_object : ObjectMetadata
found_object = record {
  size_bytes = 5;
  etag = some (codes "e");
  version_id = none;
  content_type = none;
  last_modified = none;
}

-- Recovery has read the first task before its upload finished.
stale_recovery-IsStuck_example :
    (db' : Db) × (update_task 20
        (found_changes (record present_task { delete_token_hash = none }) found_object 9)
        small_db
      ≡ committed tt db')
    × (outcome (claim_task_deletion 20 3 10 db') ≡ some false)
    × (outcome (claim_unclaimed_deletion 20 3 10 db') ≡ some false)
unfolding find_row
stale_recovery-IsStuck_example =
    stale_recovery-IsStuck (record present_task { delete_token_hash = none }) present_task
      found_object 9 77 3 10 small_db small_db-IsValid refl refl refl

recover-OnlyHeads_example :
    (xs : List Interaction) × All IsHead xs × ((recover calm none small_world).1.trace ≡ xs ++ [])
recover-OnlyHeads_example = recover-OnlyHeads calm none small_world

-- The round finds the open task of the small installation.
abbrev round_start : World
round_start = record small_world { recovery_complete = false }

abbrev read_world : World
read_world = (recovery_work calm round_start).1

abbrev done_world : World
done_world = (gather (work_of calm (open_task ∷ []) []) read_world).1

recover-gather_example : recover calm none small_world ≡ (
  ok tt,
  record done_world {
    recovery_complete = true;
    last_recovery_success_at = some (calm.clock done_world.draws);
    draws = done_world.draws + 1;
  },
)
unfolding recovery_work gather pending_tasks query pending_deletions recover_upload after_settled
    try_upload recovery_provider_for_config endpoint_error head_object head_result settle_upload
    require_upload_metadata database_call update_task
recover-gather_example =
    recover-gather calm (open_task ∷ []) [] small_world read_world done_world (omega arith) refl
      refl

abbrev room : ℕ
room = 1

cache_provider_lem_example :
    let after = cache_provider room 2 small_provider ((1, small_provider) ∷ []) in
    IsValid after
    × (length after ≤ room)
    × ((room ≡ 0) ⊎ (get 2 after ≡ some small_provider))
    × (let all = remove 2 ((1, small_provider) ∷ []) ++ (2, small_provider) ∷ [] in
        after ≡ drop (length all - room) all)
unfolding get
cache_provider_lem_example =
    cache_provider_lem room 2 small_provider ((1, small_provider) ∷ []) (refl, tt)

safe_filename-IsName_example : IsName (safe_filename (some (codes "a/b")))
safe_filename-IsName_example = safe_filename-IsName (some (codes "a/b"))
