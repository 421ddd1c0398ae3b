-- ===== src/Values.antt =====
-- The values of a request to change the settings, as `json` and `urllib.parse` give them, and the
-- normalized settings of a provider (app/providers.py).
use ctyun_zos.Prelude.{ℕ, Bool, List, [], ◌∷◌, if◌then◌else◌, any, Text, text_eq}

-- A JSON value; a missing entry and `null` are both None. Numbers with a fraction, lists and
-- objects are refused wherever one of the others is asked for.
pub data Json : Type 0 where
  null : Json
  boolean : Bool → Json
  integer : ℕ → Json
  negative_integer : ℕ → Json
  string : Text → Json
  other_value : Json

abbrev pub Fields : Type 0
Fields = List (Text × Json)

-- fields.get(name)
abbrev pub get_field : Text → Fields → Json
get_field name [] = null
get_field name ((k, v) ∷ fields) =
    let rest = get_field name fields in if text_eq k name then v else rest

-- name in fields
abbrev pub has_field : Text → Fields → Bool
has_field name fields = any (λ (f : Text × Json). text_eq f.0 name) fields

-- What `urlsplit` gives of a text; the flags are whether the part is there and not empty.
pub record UrlParts : Type 0 where
  pub scheme : Text
  pub netloc : Text
  pub path : Text
  pub has_hostname : Bool
  pub has_username : Bool
  pub has_password : Bool
  pub has_query : Bool
  pub has_fragment : Bool

pub record ProviderConfig : Type 0 where
  pub endpoint_url : Text
  pub bucket : Text
  pub public_base_url : Text
  pub connect_timeout_seconds : ℕ
  pub read_timeout_seconds : ℕ
  pub max_attempts : ℕ
  pub verify_tls : Bool
  pub enable_bucket_metrics : Bool

pub record Credentials : Type 0 where
  pub access_key : Text
  pub secret_key : Text
