-- ===== src/Tests/Slots.antt =====
-- Two uploads at a service with one slot, and the chunks of a body that is too large.
use ctyun_zos.Prelude.{
  ℕ, ◌+◌, ◌≡◌, ◌≤◌, ◌<◌, ◌⊎◌, refl, true, false, none, List, [], ◌∷◌, codes, all,
}
use ctyun_zos.Guard.Middleware.{
  GuardSettings, GuardRequest, length_of, app_returned, app_raised, limited_receive,
}
use ctyun_zos.Guard.Body.{body_bytes, limited_receive-bounds}
use ctyun_zos.Guard.Slots.{Arrival, arrive, run_steps, holders, is_done, run_steps-slots}

abbrev one_slot : ℕ
one_slot = 1

abbrev guard_settings : GuardSettings
guard_settings = record {
  dashboard_enabled = true;
  admin_api_keys = codes "a" ∷ [];
  client_api_keys = [];
  upload_rate_limit_per_minute = 5;
  max_request_body_bytes = 10;
}

abbrev guard_request : GuardRequest
guard_request = record {
  is_http = true;
  path = codes "/v1/uploads";
  method = codes "POST";
  request_id = none;
  admin_key = none;
  client_id = [];
  client_key = [];
  content_length = length_of 8;
  chunks = 4 ∷ 4 ∷ [];
  has_started = false;
  app_end = app_raised;
}

abbrev two_arrivals : List Arrival
two_arrivals =
    (guard_request, (7, []))
    ∷ (record guard_request { chunks = 8 ∷ 8 ∷ []; app_end = app_returned }, (8, 7 ∷ []))
    ∷ []

abbrev one_order : List ℕ
one_order = 0 ∷ 1 ∷ 0 ∷ 0 ∷ 0 ∷ 0 ∷ 1 ∷ 0 ∷ 1 ∷ 1 ∷ 1 ∷ 1 ∷ []

run_steps-slots_example :
    ((run_steps one_order (one_slot, arrive guard_settings two_arrivals)).0
        + holders (run_steps one_order (one_slot, arrive guard_settings two_arrivals)).1
      ≡ one_slot)
    × ((all is_done (run_steps one_order (one_slot, arrive guard_settings two_arrivals)).1 ≡ false)
        ⊎ ((run_steps one_order (one_slot, arrive guard_settings two_arrivals)).0 ≡ one_slot))
run_steps-slots_example = run_steps-slots guard_settings one_slot two_arrivals one_order

two_chunks_of_three : limited_receive 10 0 (4 ∷ 6 ∷ 1 ∷ []) ≡ (4 ∷ 6 ∷ [], true)
unfolding limited_receive
two_chunks_of_three = refl

limited_receive-bounds_example :
    (body_bytes (limited_receive 10 0 (4 ∷ 6 ∷ 1 ∷ [])).0 ≤ 10)
    × (((limited_receive 10 0 (4 ∷ 6 ∷ 1 ∷ []) ≡ (4 ∷ 6 ∷ 1 ∷ [], false))
          × (body_bytes (4 ∷ 6 ∷ 1 ∷ []) ≤ 10))
        ⊎ (((limited_receive 10 0 (4 ∷ 6 ∷ 1 ∷ [])).1 ≡ true) × (10 < body_bytes (4 ∷ 6 ∷ 1 ∷ []))))
limited_receive-bounds_example = limited_receive-bounds 10 (4 ∷ 6 ∷ 1 ∷ [])
