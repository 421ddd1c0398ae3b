-- ===== src/Providers/Results.antt =====
-- How the provider calls can end.
use ctyun_zos.Prelude.{
  ◌≡◌, refl, ◌⊎◌, inl, inr, ◌||◌, true, false, Option, none, some, arith, ℕ, Text, Bool-cases,
  Option-cases,
}
use ctyun_zos.Data.{
  Code, upload_failed, upload_confirmation_failed, storage_timeout, delete_pending, delete_failed,
}
use ctyun_zos.World.{
  ok, raised, provider_error, ClientOutcome, returned, network_error, client_error, other_error,
  HeadResponse, connect_timeout, read_timeout, endpoint_connection, connection_closed,
  name_resolution,
}
use ctyun_zos.Providers.{
  head_result, upload_result, delete_result, metadata_of, has_status, is_missing_code,
  is_server_error,
}
use ctyun_zos.Providers.Metadata.{ObjectMetadata}

-- HeadObject finds metadata, or finds nothing, or raises a `ProviderError` that is uncertain: no
-- failure of it is ever taken for an absent object or for a definite refusal.
pub head_result_cases :
    (reply : ClientOutcome HeadResponse)
    → ((m : ObjectMetadata) × (head_result reply ≡ ok (some m)))
      ⊎ ((head_result reply ≡ ok none)
          ⊎ ((c : Code) × (head_result reply ≡ raised (provider_error c true))))
unfolding head_result
head_result_cases (returned r) = elim (Option-cases r.content_length) [
  | inl missing ↦ inr (inr (upload_confirmation_failed, rw missing refl))
  | inr (size, e) ↦ inl (metadata_of r size, rw e refl)
]
head_result_cases (network_error connect_timeout) = inr (inr (storage_timeout, refl))
head_result_cases (network_error read_timeout) = inr (inr (storage_timeout, refl))
head_result_cases (network_error endpoint_connection) = inr (inr (storage_timeout, refl))
head_result_cases (network_error _) = inr (inr (upload_confirmation_failed, refl))
head_result_cases (client_error status code) =
    elim (Bool-cases (has_status 404 status || is_missing_code code)) [
      | inl missing ↦ inr (inl (rw missing refl))
      | inr present ↦ inr (inr (upload_confirmation_failed, rw present refl))
    ]
head_result_cases other_error = inr (inr (upload_confirmation_failed, refl))

pub delete_result_cases :
    (reply : ClientOutcome (Unit {0}))
    → (delete_result reply ≡ ok tt)
      ⊎ (((c : Code) × (delete_result reply ≡ raised (provider_error c true)))
          ⊎ ((c : Code) × (delete_result reply ≡ raised (provider_error c false))))
unfolding delete_result
delete_result_cases (returned _) = inl refl
delete_result_cases (network_error _) = inr (inl (delete_pending, refl))
delete_result_cases (client_error status code) = elim (Bool-cases (is_server_error status)) [
  | inl server ↦ inr (inl (delete_pending, rw server refl))
  | inr refused ↦ inr (inr (delete_failed, rw refused refl))
]
delete_result_cases other_error = inr (inl (delete_pending, refl))

pub upload_result_cases :
    (reply : ClientOutcome (Unit {0}))
    → (upload_result reply ≡ ok tt)
      ⊎ (((c : Code) × (upload_result reply ≡ raised (provider_error c true)))
          ⊎ ((c : Code) × (upload_result reply ≡ raised (provider_error c false))))
unfolding upload_result
upload_result_cases (returned _) = inl refl
upload_result_cases (network_error _) = inr (inl (storage_timeout, refl))
upload_result_cases (client_error status code) = elim (Bool-cases (is_server_error status)) [
  | inl server ↦ inr (inl (upload_failed, rw server refl))
  | inr refused ↦ inr (inr (upload_failed, rw refused refl))
]
upload_result_cases other_error = inr (inl (upload_failed, refl))

-- Only an S3 answer that says so makes HeadObject report an absent object: status 404, or one of
-- the three codes for a missing key.
pub head_result_absent :
    (reply : ClientOutcome HeadResponse)
    → head_result reply ≡ ok none
    → (status : Option ℕ) × (code : Option Text) × (reply ≡ client_error status code)
      × ((has_status 404 status || is_missing_code code) ≡ true)
unfolding head_result
head_result_absent (returned r) e = elim (Option-cases r.content_length) [
  | inl missing ↦ absurd (cc (rw missing at e))
  | inr (size, found) ↦ absurd (cc (rw found at e))
]
head_result_absent (network_error connection_closed) e = cc
head_result_absent (network_error name_resolution) e = cc
head_result_absent (network_error _) e = cc
head_result_absent (client_error status code) e =
    elim (Bool-cases (has_status 404 status || is_missing_code code)) [
      | inl missing ↦ (status, code, refl, missing)
      | inr present ↦ ground arith
    ]
head_result_absent other_error e = cc
