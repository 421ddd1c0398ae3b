-- ===== src/World.antt =====
-- The state of the running service, what is outside it, and the methods that act on both.
-- `Env` answers each question that the code puts to the outside: the clock, `uuid4`, the boto3
-- client, a fault of SQLite, the addresses that a name resolves to and whether the
-- stored credentials decrypt. The n-th question has the n-th answer, so an `Env` is any behaviour
-- of the outside. `others` is what other requests have committed since the last step, before the
-- n-th call of the database.
use ctyun_zos.Prelude.{
  ℕ, ◌+◌, Bool, true, false, Option, none, some, List, ◌∷◌, if◌then◌else◌, Text,
}
use ctyun_zos.Data.{
  Code, Db, StorageConfig, DbError, sqlite_error, integrity_error, DbResult, committed, rolled_back,
}
use ctyun_zos.Values.{Fields, UrlParts, ProviderConfig, Credentials}

-- app/config.py: the settings that the modelled parts read.
pub record Settings : Type 0 where
  pub max_upload_bytes : ℕ
  pub client_max_objects : ℕ
  pub client_max_bytes : ℕ
  pub recovery_batch_size : ℕ
  pub recovery_max_concurrency : ℕ
  pub stale_upload_seconds : ℕ
  pub stale_delete_seconds : ℕ
  pub provider_cache_max_entries : ℕ
  pub allow_insecure_storage_http : Bool
  pub storage_endpoint_allowlist : List Text

-- A constructed `StorageProvider`: what it was constructed from. A recovery provider has the
-- recovery timeouts in place of its own.
pub record Provider : Type 0 where
  pub provider_id : Text
  pub config_json : ℕ
  pub credentials_ciphertext : ℕ
  pub for_recovery : Bool

-- app/runtime.py: `StorageSnapshot`, a preset's active configuration with its provider.
pub record Snapshot : Type 0 where
  pub preset_id : ℕ
  pub preset_key : Text
  pub enabled : Bool
  pub is_default : Bool
  pub storage_config_id : ℕ
  pub revision : ℕ
  pub provider_id : Text
  pub provider_schema_version : ℕ
  pub provider : Provider

-- The exceptions of botocore and of the socket library that the providers tell apart.
pub data NetworkError : Type 0 where
  connect_timeout read_timeout endpoint_connection connection_closed name_resolution : NetworkError

-- How a call of the boto3 client ends; a `ClientError` has a status and a code, if any.
pub data ClientOutcome (A : Type 0) : Type 0 where
  returned : A → ClientOutcome A
  network_error : NetworkError → ClientOutcome A
  client_error : Option ℕ → Option Text → ClientOutcome A
  other_error : ClientOutcome A

-- A HeadObject response; the length is missing if it is no non-negative integer.
pub record HeadResponse : Type 0 where
  pub content_length : Option ℕ
  pub etag : Option Text
  pub version_id : Option ℕ
  pub content_type : Option Text
  pub last_modified : Option ℕ

-- An exception that a method raises: `APIError` with its status, code and task, `ProviderError`
-- with its code and whether the outcome is uncertain, one of the database's, or another.
pub data Exn : Type 0 where
  api : ℕ → Code → Option ℕ → Exn
  provider_error : Code → Bool → Exn
  db_error : DbError → Exn
  other : Exn

-- What `urlsplit` gives of a URL.
pub record Url : Type 0 where
  pub scheme : Text
  pub hostname : Option Text
  pub port : Option ℕ

-- An address of the `ipaddress` module.
pub record Address : Type 0 where
  pub is_v4 : Bool
  pub value : ℕ
  pub is_loopback : Bool
  pub is_link_local : Bool
  pub is_multicast : Bool
  pub is_unspecified : Bool
  pub is_private : Bool

pub record Env : Type 0 where
  pub settings : Settings
  pub clock : ℕ → ℕ
  pub uuid : ℕ → ℕ
  pub fault : ℕ → Bool
  pub others : ℕ → Db → Db
  pub endpoint : ℕ → Url
  pub lower : Text → Text
  pub ip_network : Text → Option ℕ
  pub is_in_network : Address → ℕ → Bool
  pub ip_address : Text → Option Address
  pub getaddrinfo : ℕ → Text → ℕ → Option (List Address)
  pub construct : ℕ → StorageConfig → Option Exn
  pub head : ℕ → Provider → Text → Option ℕ → ClientOutcome HeadResponse
  pub upload : ℕ → Provider → Text → ClientOutcome (Unit {0})
  pub delete : ℕ → Provider → Text → Option ℕ → ClientOutcome (Unit {0})
  pub token : ℕ → Text
  pub sha256 : Text → ℕ
  pub local_date : ℕ → Text
  pub uuid_text : ℕ → Text
  pub public_base_url : Provider → Text
  pub quote : Text → Text
  pub strip : Text → Text
  pub urlsplit : Text → Option UrlParts
  pub urlunsplit : Text → Text → Text → Text
  pub json_loads : ℕ → Fields
  pub json_dumps : ProviderConfig → ℕ
  pub decrypt : ℕ → Option Credentials
  pub encrypt : Credentials → ℕ
  pub client : ℕ → ProviderConfig → Credentials → Option Exn
  pub head_bucket : ℕ → Provider → ClientOutcome (Unit {0})
  pub latency : ℕ → ℕ

-- A request that has reached the remote store, with its answer.
pub data Interaction : Type 0 where
  headed : Text → Option ℕ → ClientOutcome HeadResponse → Interaction
  uploaded : Text → ClientOutcome (Unit {0}) → Interaction
  deleted_object : Text → Option ℕ → ClientOutcome (Unit {0}) → Interaction

-- The names that `runtime.log.emit` records.
pub data Event : Type 0 where
  object_delete_started object_delete_succeeded object_delete_pending : ℕ → Event
  object_delete_changed object_delete_failed : ℕ → Event
  object_delete_recovered object_delete_recovery_pending : ℕ → Event
  upload_started upload_succeeded database_error : ℕ → Event
  storage_preset_created storage_config_activated : Text → ℕ → Event
  preset_enabled preset_disabled preset_updated default_preset_changed : Text → Event

-- runtime.last_probe, whose status is 'pending', 'ok' or 'error'.
pub data Probe : Type 0 where
  probe_pending : Probe
  probe_ok : ℕ → Probe
  probe_error : ℕ → Code → Probe

-- The trace and the log have their newest entry first; a cache has its oldest entry first.
pub record World : Type 0 where
  pub db : Db
  pub providers : List (ℕ × Provider)
  pub recovery_providers : List (ℕ × Provider)
  pub snapshots_by_key : List (Text × Snapshot)
  pub default_preset_key : Option Text
  pub last_probe : Probe
  pub recovery_complete : Bool
  pub last_recovery_success_at : Option ℕ
  pub trace : List Interaction
  pub events : List Event
  pub draws : ℕ

pub data Result (A : Type 0) : Type 0 where
  ok : A → Result A
  raised : Exn → Result A

-- What was done before a raise stays done.
abbrev pub Action : Type 0 → Type 0
Action A = World → Result A × World

module _ {A : Type 0} where
  abbrev pub pure : A → Action A
  pure a w = (ok a, w)

  abbrev pub raise : Exn → Action A
  raise e w = (raised e, w)

  -- try: … except …: the result as a value, for a handler by clauses.
  abbrev pub attempt : Action A → Action (Result A)
  attempt m w = let (r, w') = m w in (ok r, w')

  abbrev pub or_raise : Option A → Exn → Action A
  or_raise none e = raise e
  or_raise (some a) e = pure a

abbrev pub continue : {A B : Type 0} → Result A → (A → Action B) → Action B
continue (ok a) f w = f a w
continue (raised e) f w = (raised e, w)

infixl 5 ◌>>=◌ ◌>>◌
abbrev pub ◌>>=◌ : {A B : Type 0} → Action A → (A → Action B) → Action B
◌>>=◌ m f w = let (r, w') = m w in continue r f w'

abbrev pub ◌>>◌ : {A B : Type 0} → Action A → Action B → Action B
m >> k = m >>= λ _. k

abbrev pub raise_if : Bool → Exn → Action (Unit {0})
raise_if b e w = (if b then raised e else ok tt, w)

abbrev pub emit : Event → Action (Unit {0})
emit e w = (ok tt, record w { events = e ∷ w.events })

-- `except sqlite3.Error`
abbrev pub is_sqlite_error : DbError → Bool
is_sqlite_error sqlite_error = true
is_sqlite_error integrity_error = true
is_sqlite_error _ = false

abbrev pub settle : {A : Type 0} → DbResult A → Action A
settle (committed a db) w = (ok a, record w { db = db })
settle (rolled_back e) w = (raised (db_error e), w)

module _ (env : Env) where
  abbrev pub utc_now : Action ℕ
  utc_now w = (ok (env.clock w.draws), record w { draws = w.draws + 1 })

  abbrev pub uuid4 : Action ℕ
  uuid4 w = (ok (env.uuid w.draws), record w { draws = w.draws + 1 })

  -- A method of `Database` on a worker thread: SQLite may fail, and then nothing is written.
  unfoldable pub database_call : {A : Type 0} → (Db → DbResult A) → Action A
  database_call method w =
      let next = record w { db = env.others w.draws w.db; draws = w.draws + 1 } in
      if env.fault w.draws
      then (raised (db_error sqlite_error), next)
      else settle (method next.db) next

  -- A method that only reads.
  unfoldable pub query : {A : Type 0} → (Db → A) → Action A
  query read w =
      let next = record w { db = env.others w.draws w.db; draws = w.draws + 1 } in
      if env.fault w.draws
      then (raised (db_error sqlite_error), next)
      else (ok (read next.db), next)
