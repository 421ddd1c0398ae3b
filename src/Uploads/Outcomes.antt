-- ===== src/Uploads/Outcomes.antt =====
-- Where an upload leaves its row, and what its answer says of it.
use ctyun_zos.Prelude.{
  ℕ, ◌+◌, ◌-◌, ◌≡◌, ◌⊎◌, refl, Bool, true, Option, none, some, [], ◌∷◌, Text, inl, inr, Bool-cases,
  ltb, ◌==◌, ==_iff,
}
use ctyun_zos.Data.{
  succeeded, failed, unknown, present, pending, absent, Code, database_error_code, file_too_large,
  file_empty, Task, sqlite_error,
}
use ctyun_zos.Database.Tasks.{Change}
use ctyun_zos.Interference.{LeavesRow, Holds, row_at, update_cases}
use ctyun_zos.World.{
  Env, World, Snapshot, ClientOutcome, HeadResponse, Result, ok, raised, api, provider_error,
  db_error,
}
use ctyun_zos.Providers.{head_object, upload_file, head_result, upload_result}
use ctyun_zos.Security.{issue_delete_token}
use mathlib.Core.Path.{subst}
use ctyun_zos.Providers.Results.{head_result_cases, upload_result_cases}
use ctyun_zos.Providers.Metadata.{ObjectMetadata, has_etag, require_upload_metadata}
use ctyun_zos.Uploads.{
  UploadRequest, UploadBody, UploadResponse, created, replayed, confirm, upload_response,
  round_thousandths,
}
use ctyun_zos.Uploads.Handler.{
  reject, after_save, finish, after_confirm, after_upload, send, store_upload,
}

-- The row of a finished upload, for the metadata that HeadObject gave.
abbrev pub IsFinished : Env → ℕ → Task → UploadBody → Task → Type 0
IsFinished env size row body after =
    (after.status ≡ succeeded)
    × (after.object_status ≡ present)
    × (after.error_code ≡ none)
    × (after.size_bytes ≡ some size)
    × (has_etag after.etag ≡ true)
    × (body.size_bytes ≡ after.size_bytes)
    × (body.etag ≡ after.etag)
    × (body.version_id ≡ after.version_id)
    × ((token : Text) × (body.delete_token ≡ some token)
        × (after.delete_token_hash ≡ some (env.sha256 token)))

-- A row that is `failed` and `absent`, or `unknown` and `pending`.
abbrev pub IsOpen : Code → Task → Type 0
IsOpen code after =
    (after.error_code ≡ some code)
    × (((after.status ≡ failed) × (after.object_status ≡ absent))
        ⊎ ((after.status ≡ unknown) × (after.object_status ≡ pending)))
    × (after.delete_token_hash ≡ none)

-- What each answer says of the row after it.
abbrev pub Stored : Env → ℕ → Task → Result UploadResponse → Option Task → Type 0
Stored env size row (ok (created body)) after =
    (t : Task) × (after ≡ some t) × IsFinished env size row body t
Stored env size row (ok (replayed body)) after = ⊥
Stored env size row (raised (api _ code _)) after =
    ((code ≡ database_error_code) × (after ≡ some row))
    ⊎ ((t : Task) × (after ≡ some t) × IsOpen code t)
Stored env size row (raised (db_error e)) after = (e ≡ sqlite_error) × (after ≡ some row)
Stored env size row (raised _) after = ⊥

require_cases :
    (m : ObjectMetadata) (size : ℕ)
    → ((require_upload_metadata m size ≡ ok tt) × (m.size_bytes ≡ size) × (has_etag m.etag ≡ true))
      ⊎ ((c : Code) × (require_upload_metadata m size ≡ raised (provider_error c true)))
unfolding require_upload_metadata
require_cases m size = elim (Bool-cases (m.size_bytes == size)) [
  | inr differs ↦ rw differs (inr (_, refl))
  | inl same ↦ rw same (elim (Bool-cases (has_etag m.etag)) [
    | inr bare ↦ rw bare (inr (_, refl))
    | inl tagged ↦ rw tagged (inl (refl, (==_iff m.size_bytes size).0 same, refl))
  ])
]

confirm_cases :
    (size : ℕ) (reply : ClientOutcome HeadResponse)
    → ((m : ObjectMetadata) × (confirm size (head_result reply) ≡ ok m)
        × (m.size_bytes ≡ size)
        × (has_etag m.etag ≡ true))
      ⊎ ((c : Code) × (confirm size (head_result reply) ≡ raised (provider_error c true)))
unfolding confirm
confirm_cases size reply = elim (head_result_cases reply) [
  | inr (inl missing) ↦ rw missing (inr (_, refl))
  | inr (inr (c, broke)) ↦ rw broke (inr (c, refl))
  | inl (m, e) ↦ rw e (elim (require_cases m size) [
    | inl (good, same, tagged) ↦ rw (confirm, good) (inl (m, refl, same, tagged))
    | inr (c, bad) ↦ rw (confirm, bad) (inr (c, refl))
  ])
]

module _ (env : Env) (q : UploadRequest) (t row : Task) (snapshot : Snapshot)
    (alone : LeavesRow env t.id) (fresh : row.delete_token_hash ≡ none) where
  Stored-reject :
      (size size' : ℕ) (code : Code) (status : ℕ) (w : World)
      → Holds t.id row w
      → let (r, w') = reject env q t size code status w in Stored env size' row r (row_at t.id w')
  unfolding reject
  Stored-reject size size' code status w h =
      let now = env.clock w.draws in
      let took = round_thousandths (env.clock (w.draws + 1) - q.started_at) in
      elim (update_cases env t.id row alone (Change.status failed)
        (Change.size_bytes (some size)
          ∷ Change.object_status absent
          ∷ Change.error_code (some code)
          ∷ Change.finished_at (some now)
          ∷ Change.duration_ms (some took)
          ∷ [])
        (record w { draws = w.draws + 1 + 1 }) refl h) [
          | inl (w', broke, kept) ↦ rw broke (refl, kept.1)
          | inr (w', done, changed) ↦ rw done (inr (_, changed, (refl, inl (refl, refl), fresh)))
        ]

  Stored-finish :
      (m : ObjectMetadata) (w : World)
      → has_etag m.etag ≡ true
      → Holds t.id row w
      → let (r, w') = finish env q t snapshot m w in Stored env m.size_bytes row r (row_at t.id w')
  unfolding finish after_save issue_delete_token upload_response
  Stored-finish m w tagged h =
      let took = round_thousandths (env.clock w.draws - q.started_at) in
      let token = env.token (w.draws + 1) in
      let now = env.clock (w.draws + 1 + 1) in
      elim (update_cases env t.id row alone (Change.status succeeded)
        (Change.size_bytes (some m.size_bytes)
          ∷ Change.etag m.etag
          ∷ Change.version_id m.version_id
          ∷ Change.delete_token_hash (some (env.sha256 token))
          ∷ Change.object_status present
          ∷ Change.error_code none
          ∷ Change.finished_at (some now)
          ∷ Change.duration_ms (some took)
          ∷ [])
        (record w { draws = w.draws + 1 + 1 + 1 }) refl h) [
          | inl (w', broke, kept) ↦ rw broke (inl (refl, kept.1))
          | inr (w', done, changed) ↦
              rw done (
                _,
                changed,
                (refl, refl, refl, refl, tagged, refl, refl, refl, (token, refl, refl)),
              )
        ]

  Stored-unconfirmed :
      (size size' : ℕ) (c : Code) (b : Bool) (w : World)
      → Holds t.id row w
      → let (r, w') = after_confirm env q t size snapshot (raised (provider_error c b)) w in
        Stored env size' row r (row_at t.id w')
  unfolding after_confirm
  Stored-unconfirmed size size' c b w h =
      let took = round_thousandths (env.clock w.draws - q.started_at) in
      elim (update_cases env t.id row alone (Change.status unknown)
        (Change.size_bytes (some size)
          ∷ Change.object_status pending
          ∷ Change.error_code (some c)
          ∷ Change.duration_ms (some took)
          ∷ [])
        (record w { draws = w.draws + 1 }) refl h) [
          | inl (w', broke, kept) ↦ rw broke (refl, kept.1)
          | inr (w', done, changed) ↦ rw done (inr (_, changed, (refl, inr (refl, refl), fresh)))
        ]

  Stored-confirmed :
      (size : ℕ) (reply : ClientOutcome HeadResponse) (w : World)
      → Holds t.id row w
      → let (r, w') = after_confirm env q t size snapshot (confirm size (head_result reply)) w in
        Stored env size row r (row_at t.id w')
  unfolding after_confirm
  Stored-confirmed size reply w h = elim (confirm_cases size reply) [
    | inr (c, broke) ↦ rw broke (Stored-unconfirmed size size c true w h)
    | inl (m, found, same, tagged) ↦ rw found (
        subst
          (λ n.
            Stored env n row (finish env q t snapshot m w).0
              (row_at t.id (finish env q t snapshot m w).1))
          same (Stored-finish m w tagged h))
  ]

  Stored-uncertain :
      (size : ℕ) (c : Code) (w : World)
      → Holds t.id row w
      → let (r, w') = after_upload env q t size snapshot (raised (provider_error c true)) w in
        Stored env size row r (row_at t.id w')
  unfolding after_upload
  Stored-uncertain size c w h =
      let took = round_thousandths (env.clock w.draws - q.started_at) in
      elim (update_cases env t.id row alone (Change.status unknown)
        (Change.size_bytes (some size)
          ∷ Change.object_status pending
          ∷ Change.error_code (some c)
          ∷ Change.finished_at none
          ∷ Change.duration_ms (some took)
          ∷ [])
        (record w { draws = w.draws + 1 }) refl h) [
          | inl (w', broke, kept) ↦ rw broke (refl, kept.1)
          | inr (w', done, changed) ↦ rw done (inr (_, changed, (refl, inr (refl, refl), fresh)))
        ]

  Stored-after_upload :
      (size : ℕ) (reply : ClientOutcome (Unit {0})) (w : World)
      → Holds t.id row w
      → let (r, w') = after_upload env q t size snapshot (upload_result reply) w in
        Stored env size row r (row_at t.id w')
  unfolding after_upload head_object
  Stored-after_upload size reply w h = elim (upload_result_cases reply) [
    | inl sent ↦ rw sent (Stored-confirmed size _ _ h)
    | inr (inl (c, lost)) ↦ rw lost (Stored-uncertain size c w h)
    | inr (inr (c, refused)) ↦ rw refused (Stored-reject size size c 502 w h)
  ]

-- On a valid table that holds the row without a token, if no other request writes it, the answer
-- tells where the row is. A
-- 201 leaves it succeeded and present, with the size of the file, an ETag, the digest of the
-- token that the answer carries, and the metadata that the answer reports. Any other error
-- leaves it failed and absent, or unknown and pending, with the code of the error and without a
-- token, unless the write itself failed: then the row is as it was. No other exception is raised.
pub store_upload-Stored :
    (env : Env) (q : UploadRequest) (t row : Task) (size : ℕ) (snapshot : Snapshot) (w : World)
    → LeavesRow env t.id
    → row.delete_token_hash ≡ none
    → Holds t.id row w
    → let (r, w') = store_upload env q t size snapshot w in Stored env size row r (row_at t.id w')
unfolding store_upload send upload_file
store_upload-Stored env q t row size snapshot w alone fresh h =
    elim (Bool-cases (ltb env.settings.max_upload_bytes size)) [
      | inl large ↦
          rw large (Stored-reject env q t row snapshot alone fresh size size file_too_large 413 _ h)
      | inr fits ↦ rw fits (elim (Bool-cases (size == 0)) [
        | inl empty ↦
            rw empty (Stored-reject env q t row snapshot alone fresh 0 size file_empty 400 _ h)
        | inr content ↦ rw content (Stored-after_upload env q t row snapshot alone fresh size _ _ h)
      ])
    ]
