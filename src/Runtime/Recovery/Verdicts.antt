-- ===== src/Runtime/Recovery/Verdicts.antt =====
-- What recovery concludes of a deletion whose outcome is unknown.
use ctyun_zos.Prelude.{ℕ, ◌≡◌, ◌||◌, true, Option, arith, Text, inl, inr}
use ctyun_zos.Data.{deleted, Task}
use ctyun_zos.World.{ClientOutcome, client_error, HeadResponse}
use ctyun_zos.Providers.{head_result, has_status, is_missing_code}
use ctyun_zos.Providers.Results.{head_result_cases, head_result_absent}
use ctyun_zos.Runtime.Recovery.{deletion_verdict}

-- If recovery declares an object deleted, the store has answered that it is missing: with status
-- 404, or with one of the three codes for a missing key.
pub deletion_verdict-deleted :
    (t : Task) (reply : ClientOutcome HeadResponse)
    → (deletion_verdict t (head_result reply)).0 ≡ deleted
    → (status : Option ℕ) × (code : Option Text) × (reply ≡ client_error status code)
      × ((has_status 404 status || is_missing_code code) ≡ true)
unfolding deletion_verdict
deletion_verdict-deleted t reply e = elim (head_result_cases reply) [
  | inl (m, found) ↦ absurd (ground arith)
  | inr (inl absent) ↦ head_result_absent reply absent
  | inr (inr (c, failed)) ↦ absurd (ground arith)
]
