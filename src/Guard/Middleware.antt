-- ===== src/Guard/Middleware.antt =====
-- app/http.py: `RequestGuardMiddleware.__call__`, as the sequence of what it does for one request.
-- The application behind it is an input: the sizes of the chunks of the body that it reads, and
-- how it ends.
use ctyun_zos.Prelude.{
  ℕ, ◌+◌, Bool, true, false, not, ◌&&◌, ◌||◌, Option, none, some, List, [], ◌∷◌, ◌++◌, ltb, leb,
  if◌then◌else◌, any, length, map, Text, codes, text_eq, starts_with,
}
use ctyun_zos.World.{Result, ok, raised}
use ctyun_zos.Providers.Configs.{strip_slashes}
use ctyun_zos.Guard.{
  admin_path, valid_admin_key, client_identity, Admission, admitted, rate_limited, attempt_upload,
}

pub record GuardSettings : Type 0 where
  pub dashboard_enabled : Bool
  pub admin_api_keys : List Text
  pub client_api_keys : List (Text × Text)
  pub upload_rate_limit_per_minute : ℕ
  pub max_request_body_bytes : ℕ

-- How the application ends, if the middleware does not stop it.
pub data AppEnd : Type 0 where
  app_returned app_raised : AppEnd

-- What a request shows: `admin_key` is what `_admin_key` gives, `content_length` the header's
-- number, or that it is no number, or none if it is missing or empty.
pub data ContentLength : Type 0 where
  no_length malformed_length : ContentLength
  length_of : ℕ → ContentLength

pub record GuardRequest : Type 0 where
  pub is_http : Bool
  pub path : Text
  pub method : Text
  pub request_id : Option Text
  pub admin_key : Option Text
  pub client_id : Text
  pub client_key : Text
  pub content_length : ContentLength
  pub chunks : List ℕ
  pub has_started : Bool
  pub app_end : AppEnd

pub data Refusal : Type 0 where
  bad_request_id not_found admin_auth_required client_auth_required request_too_large : Refusal
  upload_rate_limited : ℕ → Refusal

abbrev pub status_of : Refusal → ℕ
status_of bad_request_id = 400
status_of not_found = 404
status_of admin_auth_required = 401
status_of client_auth_required = 401
status_of request_too_large = 413
status_of (upload_rate_limited retry_after) = 429

-- The slot is that of the semaphore of uploads; `escaped` is an exception that leaves the guard.
pub data Effect : Type 0 where
  acquired released : Effect
  entered : Option Text → Effect
  delivered : ℕ → Effect
  refused : Refusal → Effect
  escaped : Effect

-- A missing or empty header is replaced by a new UUID.
abbrev pub valid_request_id : Option Text → Bool
valid_request_id none = true
valid_request_id (some s) = leb (length s) 128 && not (any (λ c. ltb c 32 || ltb 126 c) s)

abbrev pub is_dashboard : Text → Bool
is_dashboard path =
    text_eq path (codes "/dashboard")
    || text_eq path (codes "/dashboard/settings")
    || starts_with (codes "/static/") path
    || starts_with (codes "/v1/dashboard/") path

-- path.rstrip("/") or "/"
abbrev pub or_root : Text → Text
or_root [] = codes "/"
or_root (c ∷ s) = c ∷ s

abbrev pub is_upload : GuardRequest → Bool
is_upload q =
    text_eq q.method (codes "POST")
    && (text_eq (strip_slashes q.path) (codes "/v1/uploads")
        || text_eq (strip_slashes q.path) (codes "/v1/uploads/validate"))

-- `limited_receive`: the chunks that the application gets, and whether `BodyTooLarge` was raised.
unfoldable pub limited_receive : ℕ → ℕ → List ℕ → List ℕ × Bool
limited_receive max total [] = ([], false)
limited_receive max total (c ∷ chunks) =
    let (rest, too_large) = limited_receive max (total + c) chunks in
    if ltb max (total + c) then ([], true) else (c ∷ rest, too_large)

abbrev pub end_of : AppEnd → List Effect
end_of app_returned = []
end_of app_raised = escaped ∷ []

-- except BodyTooLarge: an answer, unless the application has begun its own.
abbrev pub answer_too_large : Bool → List Effect
answer_too_large has_started = if has_started then [] else refused request_too_large ∷ []

abbrev pub run_upload : GuardSettings → GuardRequest → Text → List Effect
run_upload s q client =
    let (chunks, too_large) = limited_receive s.max_request_body_bytes 0 q.chunks in
    acquired
    ∷ entered (some client)
    ∷ (map delivered chunks
        ++ (if too_large
            then answer_too_large q.has_started ++ (released ∷ [])
            else released ∷ end_of q.app_end))

abbrev pub exceeds_length : ℕ → ContentLength → Bool
exceeds_length max no_length = false
exceeds_length max malformed_length = true
exceeds_length max (length_of n) = ltb max n

abbrev pub with_slot : GuardSettings → GuardRequest → Text → List Effect
with_slot s q client =
    if exceeds_length s.max_request_body_bytes q.content_length
    then acquired ∷ released ∷ refused request_too_large ∷ []
    else run_upload s q client

abbrev pub admit_upload :
    GuardSettings → GuardRequest → Text → Admission × List ℕ → List Effect × List ℕ
admit_upload s q client (rate_limited n, attempts) =
    (refused (upload_rate_limited n) ∷ [], attempts)
admit_upload s q client (admitted, attempts) = (with_slot s q client, attempts)

abbrev pub guard_upload :
    GuardSettings → GuardRequest → ℕ → List ℕ → Result (Option Text) → List Effect × List ℕ
guard_upload s q now attempts (raised e) = (escaped ∷ [], attempts)
guard_upload s q now attempts (ok none) = (refused client_auth_required ∷ [], attempts)
guard_upload s q now attempts (ok (some client)) =
    admit_upload s q client (attempt_upload s.upload_rate_limit_per_minute now attempts)

abbrev pub run_app : GuardRequest → List Effect
run_app q = entered none ∷ (map delivered q.chunks ++ end_of q.app_end)

abbrev pub past_admin : GuardSettings → GuardRequest → ℕ → List ℕ → List Effect × List ℕ
past_admin s q now attempts =
    if is_upload q
    then guard_upload s q now attempts
        (client_identity q.admin_key q.client_id q.client_key s.admin_api_keys s.client_api_keys)
    else (run_app q, attempts)

abbrev pub admin_gate :
    Result Bool → GuardSettings → GuardRequest → ℕ → List ℕ → List Effect × List ℕ
admin_gate (raised e) s q now attempts = (escaped ∷ [], attempts)
admin_gate (ok false) s q now attempts = (refused admin_auth_required ∷ [], attempts)
admin_gate (ok true) s q now attempts = past_admin s q now attempts

-- `__call__` at the time `now`, with the attempts of the request's source.
unfoldable pub guard : GuardSettings → GuardRequest → ℕ → List ℕ → List Effect × List ℕ
unfolding admin_path valid_admin_key client_identity limited_receive attempt_upload
guard s q now attempts =
    if not q.is_http
    then (run_app q, attempts)
    else (if not (valid_request_id q.request_id)
        then (refused bad_request_id ∷ [], attempts)
        else (if not s.dashboard_enabled && is_dashboard q.path
            then (refused not_found ∷ [], attempts)
            else (if admin_path (or_root (strip_slashes q.path)) q.method
                then admin_gate (valid_admin_key q.admin_key s.admin_api_keys) s q now attempts
                else past_admin s q now attempts)))
