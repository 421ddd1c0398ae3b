-- ===== src/Providers/Configs.antt =====
-- app/providers.py: `validate` of a provider's settings, with `_normalize_url` and `_integer`, and
-- `test_connection`.
use ctyun_zos.Prelude.{
  ℕ, Bool, true, false, not, ◌&&◌, ◌||◌, Option, none, some, List, [], ◌∷◌, map, leb, ◌==◌,
  if◌then◌else◌, length, any, all, Text, codes, text_eq,
}
use ctyun_zos.Values.{
  Json, boolean, integer, string, Fields, get_field, has_field, UrlParts, ProviderConfig,
  Credentials,
}
use ctyun_zos.Data.{
  Code, storage_config_invalid, storage_credentials_required, storage_endpoint_unreachable,
  storage_credentials_rejected, storage_bucket_unavailable,
}
use ctyun_zos.World.{
  Env, Result, ok, raised, provider_error, other, ClientOutcome, returned, network_error,
  client_error, other_error, connection_closed,
}
use ctyun_zos.Providers.{has_status}
use ctyun_zos.Uploads.Fields.{is_alphanumeric, is_key_char, last_of}

infixl 5 ◌>>=◌ ◌>>◌
abbrev pub ◌>>=◌ : {A B : Type 0} → Result A → (A → Result B) → Result B
ok a >>= f = f a
raised e >>= f = raised e

abbrev pub ◌>>◌ : {A B : Type 0} → Result A → Result B → Result B
m >> k = m >>= λ _. k

abbrev pub refuse_if : Bool → Code → Result (Unit {0})
refuse_if b code = if b then raised (provider_error code false) else ok tt

abbrev pub invalid : {A : Type 0} → Result A
invalid = raised (provider_error storage_config_invalid false)

-- A dictionary of credentials: `credentials.get(name)`.
abbrev pub is_given : Json → Bool
is_given (string (c ∷ s)) = true
is_given _ = false

abbrev pub text_of : Json → Text
text_of (string s) = s
text_of _ = []

-- The names of the settings.
abbrev pub expected_fields : List Text
expected_fields = map codes (
    "endpoint_url" ∷ "bucket" ∷ "public_base_url" ∷ "connect_timeout_seconds"
    ∷ "read_timeout_seconds" ∷ "max_attempts" ∷ "verify_tls" ∷ "enable_bucket_metrics" ∷ [])

-- set(config) == expected
abbrev pub has_expected_fields : Fields → Bool
has_expected_fields config =
    all (λ name. has_field name config) expected_fields
    && all (λ (f : Text × Json). any (text_eq f.0) expected_fields) config

-- BUCKET_PATTERN.fullmatch
unfoldable pub matches_bucket : Text → Bool
matches_bucket [] = false
matches_bucket (c ∷ s) =
    leb 3 (length (c ∷ s))
    && leb (length (c ∷ s)) 63
    && is_alphanumeric c
    && all is_key_char s
    && is_alphanumeric (last_of c s)

abbrev pub bucket_of : Json → Result Text
bucket_of (string s) = if matches_bucket s then ok s else invalid
bucket_of _ = invalid

abbrev pub boolean_of : Json → Result Bool
boolean_of (boolean b) = ok b
boolean_of _ = invalid

-- `_integer`, whose lower bound is never negative here.
abbrev pub integer_between : ℕ → ℕ → Json → Result ℕ
integer_between minimum maximum (integer n) =
    if leb minimum n && leb n maximum then ok n else invalid
integer_between minimum maximum _ = invalid

-- path.rstrip("/")
abbrev pub strip_slashes : Text → Text
strip_slashes [] = []
strip_slashes (c ∷ s) = elim (strip_slashes s) [
  | [] ↦ if c == 47 then [] else c ∷ []
  | d ∷ rest ↦ c ∷ d ∷ rest
]

abbrev pub is_root : Text → Bool
is_root path = text_eq path [] || text_eq path (codes "/")

abbrev pub is_plain_url : UrlParts → Bool
is_plain_url u =
    (text_eq u.scheme (codes "http") || text_eq u.scheme (codes "https"))
    && u.has_hostname
    && not u.has_username
    && not u.has_password
    && not u.has_query
    && not u.has_fragment

module _ (env : Env) where
  -- `urlsplit` raises ValueError on a text that is no URL.
  abbrev pub normalize_parts : Bool → Option UrlParts → Result Text
  normalize_parts allow_path none = raised other
  normalize_parts allow_path (some u) =
      if not (is_plain_url u) || (not allow_path && not (is_root u.path))
      then invalid
      else ok (env.urlunsplit u.scheme u.netloc (if allow_path then strip_slashes u.path else []))

  -- `_normalize_url`
  abbrev pub normalize_url : Bool → Json → Result Text
  normalize_url allow_path (string s) =
      if text_eq (env.strip s) []
      then invalid
      else normalize_parts allow_path (env.urlsplit (env.strip s))
  normalize_url allow_path _ = invalid

  abbrev pub is_stripped : Json → Bool
  is_stripped v = text_eq (text_of v) (env.strip (text_of v))

  -- `value.strip()` of a further credential that is no text raises.
  abbrev pub check_stripped : Fields → Result (Unit {0})
  check_stripped [] = ok tt
  check_stripped ((name, string s) ∷ credentials) =
      if text_eq s (env.strip s) then check_stripped credentials else invalid
  check_stripped ((name, _) ∷ credentials) = raised other

  unfoldable pub validate_fields : Fields → Fields → Result (ProviderConfig × Credentials)
  unfolding matches_bucket
  validate_fields config credentials = do
    refuse_if (not (has_expected_fields config)) storage_config_invalid
    bucket ← bucket_of (get_field (codes "bucket") config)
    let access_key = get_field (codes "access_key") credentials
    let secret_key = get_field (codes "secret_key") credentials
    refuse_if (not (is_given access_key && is_given secret_key)) storage_credentials_required
    check_stripped credentials
    verify_tls ← boolean_of (get_field (codes "verify_tls") config)
    metrics ← boolean_of (get_field (codes "enable_bucket_metrics") config)
    endpoint_url ← normalize_url false (get_field (codes "endpoint_url") config)
    public_base_url ← normalize_url true (get_field (codes "public_base_url") config)
    connect ← integer_between 1 60 (get_field (codes "connect_timeout_seconds") config)
    read ← integer_between 1 3_600 (get_field (codes "read_timeout_seconds") config)
    attempts ← integer_between 0 5 (get_field (codes "max_attempts") config)
    ok (
      record {
        endpoint_url = endpoint_url;
        bucket = bucket;
        public_base_url = public_base_url;
        connect_timeout_seconds = connect;
        read_timeout_seconds = read;
        max_attempts = attempts;
        verify_tls = verify_tls;
        enable_bucket_metrics = metrics;
      },
      record { access_key = text_of access_key; secret_key = text_of secret_key },
    )

  abbrev pub refuse_metrics :
      Bool → ProviderConfig × Credentials → Result (ProviderConfig × Credentials)
  refuse_metrics generic (config, credentials) =
      if generic && config.enable_bucket_metrics then invalid else ok (config, credentials)

  -- `validate` of the class that is registered under a name; `S3CompatibleProvider` has no metrics.
  unfoldable pub validate : Text → Fields → Fields → Result (ProviderConfig × Credentials)
  unfolding validate_fields
  validate provider config credentials =
      validate_fields config credentials
      >>= refuse_metrics (text_eq provider (codes "s3_compatible"))

-- status in {401, 403} or code in {…}
abbrev pub is_rejected : Option ℕ → Option Text → Bool
is_rejected status none = has_status 401 status || has_status 403 status
is_rejected status (some code) =
    has_status 401 status
    || has_status 403 status
    || any (text_eq code)
        (codes "InvalidAccessKeyId" ∷ codes "SignatureDoesNotMatch" ∷ codes "AccessDenied" ∷ [])

-- `test_connection`; a closed connection is not among the errors that it names.
abbrev pub connection_result : ℕ → ClientOutcome (Unit {0}) → Result ℕ
connection_result latency (returned _) = ok latency
connection_result latency (network_error connection_closed) = raised other
connection_result latency (network_error _) =
    raised (provider_error storage_endpoint_unreachable false)
connection_result latency (client_error status code) = raised (
    provider_error
      (if is_rejected status code then storage_credentials_rejected else storage_bucket_unavailable)
      false)
connection_result latency other_error = raised other
