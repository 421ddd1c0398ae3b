-- ===== src/Runtime/Storage/Payloads.antt =====
-- app/runtime.py: `_candidate`, the settings that a request would store.
use ctyun_zos.Prelude.{
  ℕ, ◌+◌, Bool, true, false, not, ◌&&◌, Option, none, some, [], ◌∷◌, ◌==◌, if◌then◌else◌, Text,
  codes, text_eq,
}
use ctyun_zos.Values.{
  Json, null, boolean, integer, negative_integer, string, Fields, get_field, has_field,
  ProviderConfig, Credentials,
}
use ctyun_zos.Data.{StorageConfig, storage_config_invalid}
use ctyun_zos.Database.Presets.{StorageRow}
use ctyun_zos.World.{
  ok, raised, Env, Provider, Result, Exn, other, provider_error, Action, pure, or_raise, ◌>>=◌,
  ◌>>◌, query,
}
use ctyun_zos.Providers.Configs.{validate, connection_result}
use ctyun_zos.Providers.Endpoint.{endpoint_error}
use ctyun_zos.Runtime.Cache.{is_registered, raise_some}
use ctyun_zos.Runtime.Storage.Snapshots.{active_storage}

-- `credentials` of a payload: missing, no object, or its entries.
pub data Submitted : Type 0 where
  omitted not_an_object : Submitted
  submitted : Fields → Submitted

-- The body of a request; `config` is none if it is no object.
pub record Payload : Type 0 where
  pub provider : Json
  pub provider_schema_version : Json
  pub config : Option Fields
  pub credentials : Submitted
  pub expected_revision : Json

-- What `_candidate` gives, with the provider that it constructed.
pub record Candidate : Type 0 where
  pub provider_id : Text
  pub schema_version : ℕ
  pub config : ProviderConfig
  pub credentials : Credentials
  pub handle : Provider

abbrev pub invalid_config : Exn
invalid_config = provider_error storage_config_invalid false

abbrev pub of_result : {A : Type 0} → Result A → Action A
of_result r w = (r, w)

-- isinstance(value, str)
abbrev pub string_in : Json → Option Text
string_in (string s) = some s
string_in _ = none

-- isinstance(value, int), of which True and False are instances.
abbrev pub integer_in : Json → Option ℕ
integer_in (integer n) = some n
integer_in (boolean b) = some (if b then 1 else 0)
integer_in _ = none

abbrev pub submitted_fields : Submitted → Option Fields
submitted_fields omitted = some []
submitted_fields not_an_object = none
submitted_fields (submitted fields) = some fields

-- A payload whose parts have their types, for a provider that is registered.
pub record Parsed : Type 0 where
  pub provider_id : Text
  pub schema_version : ℕ
  pub config : Fields
  pub given : Fields

abbrev pub parsed : Option Text → Option ℕ → Option Fields → Option Fields → Result Parsed
parsed (some provider) (some version) (some config) (some given) =
    if is_registered provider version
    then ok (record {
      provider_id = provider;
      schema_version = version;
      config = config;
      given = given;
    })
    else raised invalid_config
parsed _ _ _ _ = raised invalid_config

unfoldable pub parse_payload : Payload → Result Parsed
parse_payload p =
    parsed (string_in p.provider) (integer_in p.provider_schema_version) p.config
      (submitted_fields p.credentials)

-- The stored endpoint against the given one; what is stored is a text.
abbrev pub same_value : Json → Json → Bool
same_value null null = true
same_value (string s) (string t) = text_eq s t
same_value (integer m) (integer n) = m == n
same_value (negative_integer m) (negative_integer n) = m == n
same_value (boolean true) (boolean b) = b
same_value (boolean false) (boolean b) = not b
same_value _ _ = false

abbrev pub fill : Text → Text → Fields → Fields
fill name value fields = if has_field name fields then fields else (name, string value) ∷ fields

-- The stored credentials, for those that the request leaves out.
abbrev pub fill_credentials : Credentials → Fields → Fields
fill_credentials old fields =
    fill (codes "secret_key") old.secret_key (fill (codes "access_key") old.access_key fields)

abbrev pub config_fields : ProviderConfig → Fields
config_fields c =
    (codes "endpoint_url", string c.endpoint_url)
    ∷ (codes "bucket", string c.bucket)
    ∷ (codes "public_base_url", string c.public_base_url)
    ∷ (codes "connect_timeout_seconds", integer c.connect_timeout_seconds)
    ∷ (codes "read_timeout_seconds", integer c.read_timeout_seconds)
    ∷ (codes "max_attempts", integer c.max_attempts)
    ∷ (codes "verify_tls", boolean c.verify_tls)
    ∷ (codes "enable_bucket_metrics", boolean c.enable_bucket_metrics)
    ∷ []

abbrev pub credential_fields : Credentials → Fields
credential_fields c =
    (codes "access_key", string c.access_key) ∷ (codes "secret_key", string c.secret_key) ∷ []

abbrev pub candidate_of : Text → ℕ → ProviderConfig × Credentials → Provider → Candidate
candidate_of provider version normalized handle = record {
  provider_id = provider;
  schema_version = version;
  config = normalized.0;
  credentials = normalized.1;
  handle = handle;
}

module _ (env : Env) where
  abbrev pub same_identity : Text → ℕ → Fields → StorageConfig → Bool
  same_identity provider version config active =
      text_eq active.provider provider
      && active.provider_schema_version == version
      && same_value (get_field (codes "endpoint_url") (env.json_loads active.config_json))
          (get_field (codes "endpoint_url") config)

  abbrev pub decrypt : ℕ → Action Credentials
  decrypt ciphertext = or_raise (env.decrypt ciphertext) other

  abbrev pub inherit_from : Text → ℕ → Fields → Fields → Option StorageRow → Action Fields
  inherit_from provider version config fields none = pure fields
  inherit_from provider version config fields (some row) =
      if same_identity provider version config row.config
      then (decrypt row.config.credentials_ciphertext >>= λ old. pure (fill_credentials old fields))
      else pure fields

  abbrev pub with_credentials : Bool → Option Text → Text → ℕ → Fields → Fields → Action Fields
  with_credentials false key provider version config fields = pure fields
  with_credentials true key provider version config fields = do
    active ← query env (active_storage key)
    inherit_from provider version config fields active

  abbrev pub permit_endpoint : ProviderConfig → Action (Unit {0})
  permit_endpoint config w =
      raise_some (endpoint_error env w.draws (env.endpoint (env.json_dumps config)))
        (record w { draws = w.draws + 1 })

  -- The constructor: it validates again, and makes the boto3 client.
  abbrev pub make_client : Provider → ProviderConfig × Credentials → Action Provider
  make_client handle (config, credentials) w =
      (raise_some (env.client w.draws config credentials) >> pure handle)
        (record w { draws = w.draws + 1 })

  abbrev pub handle_of : Text → ProviderConfig → Credentials → Provider
  handle_of provider config credentials = record {
    provider_id = provider;
    config_json = env.json_dumps config;
    credentials_ciphertext = env.encrypt credentials;
    for_recovery = false;
  }

  abbrev pub construct_provider : Text → ProviderConfig → Credentials → Action Provider
  construct_provider provider config credentials =
      of_result (validate env provider (config_fields config) (credential_fields credentials))
      >>= make_client (handle_of provider config credentials)

  abbrev pub build_candidate : Text → ℕ → ProviderConfig × Credentials → Action Candidate
  build_candidate provider version normalized =
      permit_endpoint normalized.0
      >> (construct_provider provider normalized.0 normalized.1 >>= λ handle.
          pure (candidate_of provider version normalized handle))

  abbrev pub validated : Parsed → Fields → Action Candidate
  validated p fields =
      of_result (validate env p.provider_id p.config fields)
      >>= build_candidate p.provider_id p.schema_version

  abbrev pub completed : Option Text → Bool → Parsed → Action Candidate
  completed key inherit p =
      with_credentials inherit key p.provider_id p.schema_version p.config p.given >>= validated p

  -- `_candidate`
  unfoldable pub candidate : Payload → Option Text → Bool → Action Candidate
  unfolding query active_storage validate parse_payload
  candidate payload key inherit = of_result (parse_payload payload) >>= completed key inherit

  abbrev pub test_connection : Provider → Action ℕ
  test_connection p w = (
    connection_result (env.latency w.draws) (env.head_bucket w.draws p),
    record w { draws = w.draws + 1 },
  )

  abbrev pub with_latency : Candidate → Action (Candidate × ℕ)
  with_latency c = test_connection c.handle >>= λ latency. pure (c, latency)

  -- A candidate whose bucket has answered.
  unfoldable pub tested_candidate : Payload → Option Text → Bool → Action (Candidate × ℕ)
  unfolding candidate
  tested_candidate payload key inherit = candidate payload key inherit >>= with_latency
