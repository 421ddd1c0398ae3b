-- ===== src/Runtime/Storage/Inherits.antt =====
-- Where the credentials of a candidate come from.
use ctyun_zos.Prelude.{◌≡◌, true, Option, some, Text, codes, text_eq, arith, if◌then◌else◌}
use ctyun_zos.Values.{Fields, has_field, get_field, ProviderConfig, Credentials}
use ctyun_zos.Data.{Db}
use ctyun_zos.Database.Presets.{StorageRow}
use ctyun_zos.Providers.Configs.{validate, validate_fields, is_given, text_of}
use ctyun_zos.World.{Env, World, ok}
use ctyun_zos.Runtime.Storage.Snapshots.{active_storage}
use ctyun_zos.Runtime.Storage.Payloads.{Parsed, same_value}

module _ (env : Env) where
  pub given_fields :
      (provider : Text) (config fields : Fields) (n : ProviderConfig) (k : Credentials)
      → validate env provider config fields ≡ ok (n, k)
      → (is_given (get_field (codes "access_key") fields) ≡ true)
        × (is_given (get_field (codes "secret_key") fields) ≡ true)
  unfolding validate validate_fields
  given_fields provider config fields n k e = ground arith

-- The value of a credential that is used: the given one, or else the stored one.
abbrev pub given_or : Text → Fields → Text → Text
given_or name given stored = if has_field name given then text_of (get_field name given) else stored

-- The active configuration of the preset: it has the identity that the payload gives, and its
-- credentials are used for those that the payload leaves out.
abbrev pub OwnsCredentials : (env : Env) → Parsed → Option Text → Db → Credentials → Type 0
OwnsCredentials env q key db used =
    (row : StorageRow) × (old : Credentials) × (active_storage key db ≡ some row)
    × (text_eq row.config.provider q.provider_id ≡ true)
    × (row.config.provider_schema_version ≡ q.schema_version)
    × (same_value (get_field (codes "endpoint_url") (env.json_loads row.config.config_json))
          (get_field (codes "endpoint_url") q.config)
        ≡ true)
    × (env.decrypt row.config.credentials_ciphertext ≡ some old)
    × (used.access_key ≡ given_or (codes "access_key") q.given old.access_key)
    × (used.secret_key ≡ given_or (codes "secret_key") q.given old.secret_key)
