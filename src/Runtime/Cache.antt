-- ===== src/Runtime/Cache.antt =====
-- app/runtime.py: the two caches of constructed providers. An `OrderedDict` is a list of entries,
-- the oldest first.
pub mod Bounded
pub mod Sound
use ctyun_zos.Prelude.{
  ℕ, ◌+◌, Bool, true, false, not, ◌&&◌, ◌||◌, Option, none, some, List, [], ◌∷◌, ◌++◌, ltb, ◌==◌,
  if◌then◌else◌, length, Text, codes, text_eq,
}
use ctyun_zos.Data.{Code, StorageConfig, Db, storage_config_invalid, recovery_pending}
use ctyun_zos.Providers.Endpoint.{endpoint_error}
use ctyun_zos.World.{
  Env, World, Provider, Action, ok, pure, raise, raise_if, or_raise, ◌>>=◌, ◌>>◌, Exn,
  provider_error, query,
}

abbrev pub Cache : Type 0
Cache = List (ℕ × Provider)

unfoldable pub get : ℕ → Cache → Option Provider
get i [] = none
get i ((j, p) ∷ cache) = if j == i then some p else get i cache

unfoldable pub remove : ℕ → Cache → Cache
remove i [] = []
remove i ((j, p) ∷ cache) = let rest = remove i cache in if j == i then rest else (j, p) ∷ rest

-- cache[i] = p; cache.move_to_end(i)
unfoldable pub put_last : ℕ → Provider → Cache → Cache
unfolding remove
put_last i p cache = remove i cache ++ ((i, p) ∷ [])

-- while len(cache) > max: cache.popitem(last=False)
unfoldable pub evict : ℕ → Cache → Cache
evict max [] = []
evict max (e ∷ cache) = if ltb max (length (e ∷ cache)) then evict max cache else e ∷ cache

-- `_cache_provider`
unfoldable pub cache_provider : ℕ → ℕ → Provider → Cache → Cache
unfolding put_last evict
cache_provider max i p cache = evict max (put_last i p cache)

-- `default_registry().get`: the providers that are registered, each at its schema version.
abbrev pub is_registered : Text → ℕ → Bool
is_registered provider_id version =
    (text_eq provider_id (codes "ctyun_zos") || text_eq provider_id (codes "s3_compatible"))
    && version == 1

abbrev pub find_storage : ℕ → List StorageConfig → Option StorageConfig
find_storage i [] = none
find_storage i (c ∷ cs) = if c.id == i then some c else find_storage i cs

unfoldable pub storage_by_id : ℕ → Db → Option StorageConfig
storage_by_id i db = find_storage i db.configs

abbrev pub provider_of : Bool → StorageConfig → Provider
provider_of for_recovery c = record {
  provider_id = c.provider;
  config_json = c.config_json;
  credentials_ciphertext = c.credentials_ciphertext;
  for_recovery = for_recovery;
}

abbrev pub raise_some : Option Exn → Action (Unit {0})
raise_some none = pure tt
raise_some (some e) = raise e

-- `registry.get`, which raises before anything is constructed.
abbrev pub registry_get : StorageConfig → Action (Unit {0})
registry_get c =
    raise_if (not (is_registered c.provider c.provider_schema_version))
      (provider_error storage_config_invalid false)

module _ (env : Env) where
  abbrev pub validate_endpoint_access : StorageConfig → Action (Unit {0})
  validate_endpoint_access c w =
      raise_some (endpoint_error env w.draws (env.endpoint c.config_json))
        (record w { draws = w.draws + 1 })

  -- Decrypting the credentials, and the provider's constructor.
  abbrev pub construct : StorageConfig → Action (Unit {0})
  construct c w = raise_some (env.construct w.draws c) (record w { draws = w.draws + 1 })

  abbrev pub remember : ℕ → Provider → Action Provider
  remember i p w = (
    ok p,
    record w { providers = cache_provider env.settings.provider_cache_max_entries i p w.providers },
  )

  abbrev pub remember_recovery : ℕ → Provider → Action Provider
  remember_recovery i p w = (
    ok p,
    record w {
      recovery_providers =
          cache_provider env.settings.provider_cache_max_entries i p w.recovery_providers;
    },
  )

  abbrev pub build : StorageConfig → Action Provider
  build c = do
    registry_get c
    validate_endpoint_access c
    construct c
    remember c.id (provider_of false c)

  -- A hit moves its entry to the end.
  abbrev use_cached : ℕ → Option Provider → Action Provider → Action Provider
  use_cached i none miss w = miss w
  use_cached i (some p) miss w = (ok p, record w { providers = put_last i p w.providers })

  abbrev use_recovery : ℕ → Option Provider → Action Provider → Action Provider
  use_recovery i none miss w = miss w
  use_recovery i (some p) miss w =
      (ok p, record w { recovery_providers = put_last i p w.recovery_providers })

  unfoldable pub provider_for_record : StorageConfig → Action Provider
  unfolding get cache_provider
  provider_for_record c w = use_cached c.id (get c.id w.providers) (build c) w

  abbrev load : ℕ → Action Provider
  load i = do
    found ← query env (storage_by_id i)
    c ← or_raise found (provider_error recovery_pending true)
    provider_for_record c

  unfoldable pub provider_for_config : ℕ → Action Provider
  unfolding get provider_for_record query storage_by_id
  provider_for_config i w = use_cached i (get i w.providers) (load i) w

  abbrev load_recovery : ℕ → Action Provider
  load_recovery i = do
    found ← query env (storage_by_id i)
    c ← or_raise found (provider_error recovery_pending true)
    validate_endpoint_access c
    registry_get c
    construct c
    remember_recovery i (provider_of true c)

  unfoldable pub recovery_provider_for_config : ℕ → Action Provider
  unfolding get cache_provider query storage_by_id
  recovery_provider_for_config i w = use_recovery i (get i w.recovery_providers) (load_recovery i) w
