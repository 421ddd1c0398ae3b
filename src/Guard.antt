-- ===== src/Guard.antt =====
-- app/http.py: the request guard's tests of credentials, and its limit on the rate of uploads.
-- Headers are texts decoded as latin1; the deque of a source has its oldest attempt first.
pub mod Keys
pub mod Rate
pub mod Middleware
pub mod Balance
pub mod Body
pub mod Slots
use ctyun_zos.Prelude.{
  ℕ, ◌+◌, ◌-◌, ◌/◌, Bool, true, false, not, ◌&&◌, ◌||◌, Option, none, some, List, [], ◌∷◌, ◌++◌,
  ltb, leb, if◌then◌else◌, any, length, get_or, Text, codes, text_eq, starts_with,
}
use ctyun_zos.World.{Result, ok, raised, Exn, other}

-- `admin_path`, for a path without a slash at its end.
unfoldable pub admin_path : Text → Text → Bool
admin_path path method =
    starts_with (codes "/v1/settings/") path
    || text_eq path (codes "/v1/settings/storage")
    || starts_with (codes "/v1/dashboard/") path
    || starts_with (codes "/v1/admin/") path
    || any (text_eq path) (
        codes "/dashboard"
        ∷ codes "/dashboard/settings"
        ∷ codes "/openapi.json"
        ∷ codes "/docs"
        ∷ codes "/redoc"
        ∷ [])
    || starts_with (codes "/static/") path
    || (text_eq method (codes "GET")
        && (text_eq path (codes "/v1/upload-tasks")
            || starts_with (codes "/v1/upload-tasks/") path))

abbrev pub is_ascii : Text → Bool
is_ascii s = not (any (λ c. ltb 127 c) s)

-- `secrets.compare_digest` of two `str`, which raises `TypeError` if one is not ASCII.
unfoldable pub compare_digest : Text → Text → Result Bool
compare_digest a b = if is_ascii a && is_ascii b then ok (text_eq a b) else raised other

-- matched |= test, for a test that may raise.
abbrev pub or_matched : Result Bool → Result Bool → Result Bool
or_matched (raised e) rest = raised e
or_matched (ok a) (raised e) = raised e
or_matched (ok a) (ok b) = ok (a || b)

-- The loop over the expected keys, all of which are compared.
unfoldable pub match_keys : Text → List Text → Result Bool
unfolding compare_digest
match_keys candidate [] = ok false
match_keys candidate (key ∷ keys) =
    let rest = match_keys candidate keys in or_matched (compare_digest candidate key) rest

-- `_valid_admin_key`
unfoldable pub valid_admin_key : Option Text → List Text → Result Bool
unfolding match_keys
valid_admin_key supplied expected = match_keys (get_or supplied []) expected

abbrev pub and_matched : Result Bool → Result Bool → Result Bool
and_matched (raised e) b = raised e
and_matched (ok a) (raised e) = raised e
and_matched (ok a) (ok b) = ok (a && b)

unfoldable pub match_clients : Text → Text → List (Text × Text) → Result Bool
unfolding compare_digest
match_clients client_id supplied [] = ok false
match_clients client_id supplied ((i, k) ∷ clients) =
    let rest = match_clients client_id supplied clients in
    or_matched (and_matched (compare_digest client_id i) (compare_digest supplied k)) rest

abbrev pub identified : Text → Result Bool → Result (Option Text)
identified client_id (raised e) = raised e
identified client_id (ok true) = ok (some client_id)
identified client_id (ok false) = ok none

abbrev pub client_by_key : List (Text × Text) → Text → Text → Result (Option Text)
client_by_key [] client_id supplied = ok (some (codes "legacy"))
client_by_key (c ∷ clients) client_id supplied =
    identified client_id (match_clients client_id supplied (c ∷ clients))

abbrev pub unless_admin : Result Bool → Result (Option Text) → Result (Option Text)
unless_admin (raised e) r = raised e
unless_admin (ok true) r = ok (some (codes "admin-dashboard"))
unless_admin (ok false) r = r

-- `_client_identity`, from the administrator's key and the two client headers.
unfoldable pub client_identity :
    Option Text → Text → Text → List Text → List (Text × Text) → Result (Option Text)
client_identity admin_key client_id supplied admin_keys client_keys =
    unless_admin (valid_admin_key admin_key admin_keys)
      (client_by_key client_keys client_id supplied)

-- 60 seconds
abbrev pub window : ℕ
window = 60_000_000

-- while attempts and attempts[0] <= now - 60: attempts.popleft()
unfoldable pub expire : ℕ → List ℕ → List ℕ
expire now [] = []
expire now (a ∷ attempts) =
    let rest = expire now attempts in if leb (a + window) now then rest else a ∷ attempts

-- The answer to an upload: it goes on, or it is refused for some seconds.
pub data Admission : Type 0 where
  admitted : Admission
  rate_limited : ℕ → Admission

-- max(1, math.ceil(60 - (now - attempts[0])))
abbrev pub at_least_one : ℕ → ℕ
at_least_one n = if leb 1 n then n else 1

abbrev pub retry_after : ℕ → List ℕ → ℕ
retry_after now [] = 1
retry_after now (a ∷ attempts) = at_least_one ((a + window - now + 999_999) / 1_000_000)

abbrev pub decide : ℕ → ℕ → List ℕ → Admission × List ℕ
decide limit now attempts =
    if leb limit (length attempts)
    then (rate_limited (retry_after now attempts), attempts)
    else (admitted, attempts ++ now ∷ [])

-- One upload of a source, at the limit `upload_rate_limit_per_minute`.
unfoldable pub attempt_upload : ℕ → ℕ → List ℕ → Admission × List ℕ
unfolding expire
attempt_upload limit now attempts = decide limit now (expire now attempts)
