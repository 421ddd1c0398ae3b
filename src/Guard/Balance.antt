-- ===== src/Guard/Balance.antt =====
-- How one request takes and returns its slot, on every path of the guard (app/http.py).
use ctyun_zos.Prelude.{
  ℕ, ◌≡◌, inl, inr, refl, Bool, true, false, not, ◌&&◌, Option, none, some, List, [], ◌∷◌, ◌++◌,
  map, if◌then◌else◌, Bool-cases, Text,
}
use ctyun_zos.World.{Result, ok, raised}
use ctyun_zos.Guard.{
  admin_path, valid_admin_key, client_identity, Admission, admitted, rate_limited, attempt_upload,
}
use ctyun_zos.Providers.Configs.{strip_slashes}
use ctyun_zos.Guard.Middleware.{
  valid_request_id, is_dashboard, or_root, bad_request_id, not_found, GuardSettings, GuardRequest,
  AppEnd, app_returned, app_raised, Effect, acquired, released, delivered, refused, limited_receive,
  guard, run_app, run_upload, with_slot, admit_upload, guard_upload, past_admin, admin_gate,
  is_upload, end_of, answer_too_large, exceeds_length,
}

-- Whether a request that has these effects left takes and returns the slot in turn, given whether
-- it holds one now, and holds none at the end.
abbrev pub is_balanced : Bool → List Effect → Bool
is_balanced held [] = not held
is_balanced held (acquired ∷ effects) = not held && is_balanced true effects
is_balanced held (released ∷ effects) = held && is_balanced false effects
is_balanced held (_ ∷ effects) = is_balanced held effects

balanced_delivered :
    (held : Bool) (chunks : List ℕ) (effects : List Effect)
    → is_balanced held effects ≡ true
    → is_balanced held (map delivered chunks ++ effects) ≡ true
balanced_delivered held [] effects h = h
balanced_delivered held (c ∷ chunks) effects h = balanced_delivered held chunks effects h

balanced_end : (e : AppEnd) → is_balanced false (end_of e) ≡ true
balanced_end app_returned = refl
balanced_end app_raised = refl

balanced_app : (q : GuardRequest) → is_balanced false (run_app q) ≡ true
balanced_app q = balanced_delivered false q.chunks (end_of q.app_end) (balanced_end q.app_end)

balanced_upload :
    (s : GuardSettings) (q : GuardRequest) (client : Text)
    → is_balanced false (run_upload s q client) ≡ true
balanced_upload s q client =
    let r = limited_receive s.max_request_body_bytes 0 q.chunks in
    balanced_delivered true r.0
      (if r.1
        then answer_too_large q.has_started ++ (released ∷ [])
        else released ∷ end_of q.app_end)
      (tail r.1 q.has_started)
  where
    tail :
        (too_large has_started : Bool)
        → is_balanced true (
            if too_large
            then answer_too_large has_started ++ (released ∷ [])
            else released ∷ end_of q.app_end)
          ≡ true
    tail true true = refl
    tail true false = refl
    tail false b = balanced_end q.app_end

balanced_slot :
    (s : GuardSettings) (q : GuardRequest) (client : Text)
    → is_balanced false (with_slot s q client) ≡ true
balanced_slot s q client =
    elim (Bool-cases (exceeds_length s.max_request_body_bytes q.content_length)) [
      | inl e ↦ rw e refl
      | inr e ↦ rw e (balanced_upload s q client)
    ]

balanced_admit :
    (s : GuardSettings) (q : GuardRequest) (client : Text) (a : Admission × List ℕ)
    → is_balanced false (admit_upload s q client a).0 ≡ true
balanced_admit s q client (rate_limited n, attempts) = refl
balanced_admit s q client (admitted, attempts) = balanced_slot s q client

balanced_guard_upload :
    (s : GuardSettings) (q : GuardRequest) (now : ℕ) (attempts : List ℕ) (r : Result (Option Text))
    → is_balanced false (guard_upload s q now attempts r).0 ≡ true
balanced_guard_upload s q now attempts (raised e) = refl
balanced_guard_upload s q now attempts (ok none) = refl
balanced_guard_upload s q now attempts (ok (some client)) =
    balanced_admit s q client (attempt_upload s.upload_rate_limit_per_minute now attempts)

balanced_past :
    (s : GuardSettings) (q : GuardRequest) (now : ℕ) (attempts : List ℕ)
    → is_balanced false (past_admin s q now attempts).0 ≡ true
balanced_past s q now attempts = elim (Bool-cases (is_upload q)) [
  | inl e ↦ rw e (
      balanced_guard_upload s q now attempts
        (client_identity q.admin_key q.client_id q.client_key s.admin_api_keys s.client_api_keys))
  | inr e ↦ rw e (balanced_app q)
]

balanced_gate :
    (s : GuardSettings) (q : GuardRequest) (now : ℕ) (attempts : List ℕ) (r : Result Bool)
    → is_balanced false (admin_gate r s q now attempts).0 ≡ true
balanced_gate s q now attempts (raised e) = refl
balanced_gate s q now attempts (ok false) = refl
balanced_gate s q now attempts (ok true) = balanced_past s q now attempts

pub guard-is_balanced :
    (s : GuardSettings) (q : GuardRequest) (now : ℕ) (attempts : List ℕ)
    → is_balanced false (guard s q now attempts).0 ≡ true
unfolding guard
guard-is_balanced s q now attempts =
    choose q.is_http (valid_request_id q.request_id)
      (not s.dashboard_enabled && is_dashboard q.path)
      (admin_path (or_root (strip_slashes q.path)) q.method)
  where
    choose :
        (http valid hidden admin : Bool)
        → is_balanced false
            (if not http
              then (run_app q, attempts)
              else (if not valid
                  then (refused bad_request_id ∷ [], attempts)
                  else (if hidden
                      then (refused not_found ∷ [], attempts)
                      else (if admin
                          then admin_gate
                              (valid_admin_key q.admin_key s.admin_api_keys)
                              s
                              q
                              now
                              attempts
                          else past_admin s q now attempts)))).0
          ≡ true
    choose false valid hidden admin = balanced_app q
    choose true false hidden admin = refl
    choose true true true admin = refl
    choose true true false true =
        balanced_gate s q now attempts (valid_admin_key q.admin_key s.admin_api_keys)
    choose true true false false = balanced_past s q now attempts
