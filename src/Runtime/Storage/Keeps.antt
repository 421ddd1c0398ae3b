-- ===== src/Runtime/Storage/Keeps.antt =====
-- Actions that leave the presets, the configurations and the snapshots as they are.
use ctyun_zos.Prelude.{
  ℕ, ◌+◌, ◌≡◌, refl, ◌∙◌, inl, inr, Bool, true, false, not, Option, none, some, Text, Bool-cases,
  is_some,
}
use ctyun_zos.Values.{Fields, ProviderConfig, Credentials}
use ctyun_zos.Data.{Db, preset_not_found}
use ctyun_zos.Database.Presets.{StorageRow, storage_preset_by_key}
use ctyun_zos.World.{
  Env, World, Provider, Result, ok, raised, Exn, other, db_error, Action, pure, raise_if, or_raise,
  ◌>>=◌, continue, query,
}
use ctyun_zos.Providers.Configs.{validate}
use ctyun_zos.Providers.Endpoint.{endpoint_error}
use ctyun_zos.Runtime.Cache.{raise_some}
use ctyun_zos.Runtime.Storage.Snapshots.{active_storage}
use ctyun_zos.Runtime.Storage.Payloads.{
  Payload, parse_payload, validated, completed, build_candidate, candidate_of, handle_of,
  make_client, with_latency, tested_candidate, of_result, config_fields, credential_fields,
  same_identity, fill_credentials, decrypt, inherit_from, with_credentials, permit_endpoint,
  construct_provider, candidate, test_connection,
}
use ctyun_zos.Runtime.Storage.{masked, mask, test_storage, current_storage, require_preset}

-- No other request writes the presets or their configurations.
pub record LeavesPresets (env : Env) : Type 0 where
  pub presets : (n : ℕ) (db : Db) → (env.others n db).presets ≡ db.presets
  pub configs : (n : ℕ) (db : Db) → (env.others n db).configs ≡ db.configs

pub record Kept (w w' : World) : Type 0 where
  pub presets : w'.db.presets ≡ w.db.presets
  pub configs : w'.db.configs ≡ w.db.configs
  pub snapshots : w'.snapshots_by_key ≡ w.snapshots_by_key
  pub default_key : w'.default_preset_key ≡ w.default_preset_key

pub Kept_refl : (w : World) → Kept w w
Kept_refl w = record { presets = refl; configs = refl; snapshots = refl; default_key = refl }

pub Kept_trans : (u v w : World) → Kept u v → Kept v w → Kept u w
Kept_trans u v w h k = record {
  presets = k.presets ∙ h.presets;
  configs = k.configs ∙ h.configs;
  snapshots = k.snapshots ∙ h.snapshots;
  default_key = k.default_key ∙ h.default_key;
}

abbrev pub Keeps : {A : Type 0} → Action A → Type 0
Keeps m = (w : World) → Kept w (m w).1

pub Keeps-continue :
    {A B : Type 0} (r : Result A) (f : A → Action B) (w : World)
    → ((a : A) → Keeps (f a))
    → Kept w (continue r f w).1
Keeps-continue (ok a) f w h = h a w
Keeps-continue (raised e) f w h = Kept_refl w

pub Keeps-bind :
    {A B : Type 0} (m : Action A) (f : A → Action B)
    → Keeps m
    → ((a : A) → Keeps (f a))
    → Keeps (m >>= f)
Keeps-bind m f h k w =
    Kept_trans w (m w).1 ((m >>= f) w).1 (h w) (Keeps-continue (m w).0 f (m w).1 k)

pub Keeps-or_raise : {A : Type 0} (o : Option A) (e : Exn) → Keeps (or_raise o e)
Keeps-or_raise none e w = Kept_refl w
Keeps-or_raise (some a) e w = Kept_refl w

pub Keeps-raise_some : (o : Option Exn) → Keeps (raise_some o)
Keeps-raise_some none w = Kept_refl w
Keeps-raise_some (some e) w = Kept_refl w

pub Keeps-of_result : {A : Type 0} (r : Result A) → Keeps (of_result r)
Keeps-of_result r w = Kept_refl w

pub Keeps-raise_if : (b : Bool) (e : Exn) → Keeps (raise_if b e)
Keeps-raise_if b e w = Kept_refl w

module _ (env : Env) (alone : LeavesPresets env) where
  pub Keeps-query : {A : Type 0} (read : Db → A) → Keeps (query env read)
  unfolding query
  Keeps-query read w = elim (Bool-cases (env.fault w.draws)) [
    | inl e ↦ rw e (kept w)
    | inr e ↦ rw e (kept w)
  ]
    where
      kept : (w : World) → Kept w (record w { db = env.others w.draws w.db; draws = w.draws + 1 })
      kept w = record {
        presets = alone.presets w.draws w.db;
        configs = alone.configs w.draws w.db;
        snapshots = refl;
        default_key = refl;
      }

  Keeps-with_credentials :
      (inherit : Bool) (key : Option Text) (provider : Text) (version : ℕ) (config fields : Fields)
      → Keeps (with_credentials env inherit key provider version config fields)
  Keeps-with_credentials false key provider version config fields = Kept_refl
  Keeps-with_credentials true key provider version config fields =
      Keeps-bind (query env (active_storage key)) (inherit_from env provider version config fields)
        (Keeps-query (active_storage key)) from
    where
      from : (row : Option StorageRow) → Keeps (inherit_from env provider version config fields row)
      from none w = Kept_refl w
      from (some row) w = elim (Bool-cases (same_identity env provider version config row.config)) [
        | inl e ↦ rw e (
            Keeps-bind (decrypt env row.config.credentials_ciphertext)
              (λ old. pure (fill_credentials old fields))
              (Keeps-or_raise (env.decrypt row.config.credentials_ciphertext) other)
              (λ old w'. Kept_refl w') w)
        | inr e ↦ rw e (Kept_refl w)
      ]

  -- The draws alone.
  moved : (w : World) (n : ℕ) → Kept w (record w { draws = n })
  moved w n = record { presets = refl; configs = refl; snapshots = refl; default_key = refl }

  Keeps-raise_later :
      (o : World → Option Exn) → Keeps (λ w. raise_some (o w) (record w { draws = w.draws + 1 }))
  Keeps-raise_later o w =
      Kept_trans w (record w { draws = w.draws + 1 })
        (raise_some (o w) (record w { draws = w.draws + 1 })).1 (moved w (w.draws + 1))
        (Keeps-raise_some (o w) (record w { draws = w.draws + 1 }))

  Keeps-permit : (config : ProviderConfig) → Keeps (permit_endpoint env config)
  Keeps-permit config =
      Keeps-raise_later (λ w. endpoint_error env w.draws (env.endpoint (env.json_dumps config)))

  Keeps-make_client :
      (handle : Provider) (n : ProviderConfig × Credentials) → Keeps (make_client env handle n)
  Keeps-make_client handle n =
      Keeps-bind (λ w. raise_some (env.client w.draws n.0 n.1) (record w { draws = w.draws + 1 }))
        (λ _. pure handle) (Keeps-raise_later (λ w. env.client w.draws n.0 n.1)) (λ _. Kept_refl)

  Keeps-build :
      (provider : Text) (version : ℕ) (n : ProviderConfig × Credentials)
      → Keeps (build_candidate env provider version n)
  Keeps-build provider version n =
      Keeps-bind (permit_endpoint env n.0)
        (λ _. construct_provider env provider n.0 n.1 >>= λ handle.
          pure (candidate_of provider version n handle))
        (Keeps-permit n.0)
        (λ _.
          Keeps-bind (construct_provider env provider n.0 n.1)
            (λ handle. pure (candidate_of provider version n handle))
            (Keeps-bind
              (of_result (validate env provider (config_fields n.0) (credential_fields n.1)))
              (make_client env (handle_of env provider n.0 n.1))
              (Keeps-of_result (validate env provider (config_fields n.0) (credential_fields n.1)))
              (Keeps-make_client (handle_of env provider n.0 n.1)))
            (λ _. Kept_refl))

  pub Keeps-candidate :
      (p : Payload) (key : Option Text) (inherit : Bool) → Keeps (candidate env p key inherit)
  unfolding candidate
  Keeps-candidate p key inherit =
      Keeps-bind (of_result (parse_payload p)) (completed env key inherit)
        (Keeps-of_result (parse_payload p))
        λ q.
          Keeps-bind
            (with_credentials env inherit key q.provider_id q.schema_version q.config q.given)
            (validated env q)
            (Keeps-with_credentials inherit key q.provider_id q.schema_version q.config q.given)
            λ fields.
              Keeps-bind (of_result (validate env q.provider_id q.config fields))
                (build_candidate env q.provider_id q.schema_version)
                (Keeps-of_result (validate env q.provider_id q.config fields))
                (Keeps-build q.provider_id q.schema_version)

  pub Keeps-tested_candidate :
      (p : Payload) (key : Option Text) (inherit : Bool)
      → Keeps (tested_candidate env p key inherit)
  unfolding tested_candidate
  Keeps-tested_candidate p key inherit =
      Keeps-bind (candidate env p key inherit) (with_latency env) (Keeps-candidate p key inherit)
        λ c.
          Keeps-bind (test_connection env c.handle) (λ latency. pure (c, latency))
            (λ w. moved w (w.draws + 1)) (λ _. Kept_refl)

  pub Keeps-require_preset : (key : Option Text) → Keeps (require_preset env key)
  Keeps-require_preset none = Kept_refl
  Keeps-require_preset (some key) =
      Keeps-bind (query env (storage_preset_by_key key))
        (λ found. raise_if (not (is_some found)) (db_error (preset_not_found key)))
        (Keeps-query (storage_preset_by_key key))
        (λ found. Keeps-raise_if (not (is_some found)) (db_error (preset_not_found key)))

  -- A test of the settings changes nothing.
  pub Keeps-test_storage : (p : Payload) (key : Option Text) → Keeps (test_storage env p key)
  unfolding test_storage
  Keeps-test_storage p key =
      Keeps-bind (require_preset env key) (λ _. tested_candidate env p key true)
        (Keeps-require_preset key) (λ _. Keeps-tested_candidate p key true)

  pub Keeps-current_storage : (key : Option Text) → Keeps (current_storage env key)
  unfolding current_storage
  Keeps-current_storage key =
      Keeps-bind (query env (active_storage key)) (masked env) (Keeps-query (active_storage key))
        shown
    where
      shown : (row : Option StorageRow) → Keeps (masked env row)
      shown none = Kept_refl
      shown (some row) =
          Keeps-bind (decrypt env row.config.credentials_ciphertext)
            (λ credentials. pure (some (row, mask credentials.access_key)))
            (Keeps-or_raise (env.decrypt row.config.credentials_ciphertext) other) (λ _. Kept_refl)
