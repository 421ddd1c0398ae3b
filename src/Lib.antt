-- ===== src/Lib.antt =====
-- A model of the ZOS upload service (app/), and theorems about it.
--
-- The service takes files over HTTP, stores them in an S3-compatible object store, and records
-- each upload as a row of an SQLite table. A row has two status columns: `status`, of the upload,
-- and `object_status`, of the object. A handler changes the row, calls the store, and changes the
-- row again; when the outcome of a call is uncertain, or the process stops in between, a background
-- round of recovery asks the store and settles the row. Storage is configured by presets, each
-- with revisions of a configuration, of which one is active; one preset is the default.
--
-- Parts and files:
-- - Prelude (Tests, Lists): library names passed on, Boolean tests, lists and texts.
-- - Data: the rows of the tables and the error codes (app/database.py).
-- - World: the state of the process, what is outside it (`Env`), and the monad of the methods. A
--   result is `ok` or `raised`, and what was done before a raise stays done.
-- - Database: the methods of `Database`. Tasks is upload_tasks, with children for rows, the
--   validity of the table, claims, quota, usage, updates, joins, the pending queries and retention;
--   Presets is storage_presets and storage_configs, with children for revisions and the default. A
--   method is one transaction: a function from the tables to a commit or a rollback. Migrations is
--   `initialize`, with the rows of each schema version. Logs is service_logs, with the pages of
--   `dashboard_logs` (app/main.py).
-- - Values: JSON values, parsed URLs and a provider's settings.
-- - Interference: the writes of other requests between the steps of a handler.
-- - Providers: HeadObject, PutObject and DeleteObject with the classification of their failures
--   (app/providers.py); Metadata, Endpoint (`validate_endpoint_access`), Configs (`validate`,
--   `test_connection`) and Results below it.
-- - Security: delete tokens (app/security.py).
-- - Runtime: Cache is the two provider caches (proofs in Bounded and Sound), Recovery is `recover`
--   with `_recover_upload` and `_recover_deletion` (app/runtime.py); its children are Uploads,
--   Verdicts, Races, Reads, Rounds.
--   Storage is the settings of storage: Payloads (`_candidate`), Snapshots, Probe, and proofs in
--   Keeps, Checked, Inherits, Activation, Installed, Settled and Agreement.
--   Health is `ready_checks`.
-- - Uploads: `upload` of app/uploads.py; Fields for names and types, Resolve for the choice of the
--   storage, Handler for the phases, Outcomes and Keys for proofs.
-- - Guard: `admin_path`, the tests of keys and the rate limit (app/http.py), and Middleware is
--   `RequestGuardMiddleware`; Keys, Rate, Balance, Body and Slots are their proofs.
-- - EventLog: `_clean` and the logger's state of app/eventlog.py; Redaction is its proof.
-- - Backups: `prune` of app/deploy_backups.py.
-- - Deletions: `delete_task_object` of app/deletions.py, with Strict, Outcomes and Requests.
-- - Tests: a small installation, and instances of the theorems on it.
--
-- A handler that awaits in the middle is split there: each `except` or branch after an await is a
-- function by clauses on the result. Before every call of the database, `Env.others` may change the
-- tables in any way that a theorem does not exclude; this is how other requests are seen.
-- Identifiers, digests, ciphertexts and parsed JSON are only compared, so they are numbers; texts
-- are lists of code points; instants are microseconds. The queries of recovery and readiness
-- compare the texts of instants, and there an instant has its place in the order of the texts;
-- elsewhere the order of instants stands for that of their texts. Messages of errors and of the
-- log are left out, and codes are kept.
--
-- Parameters: the clock, `uuid4`, the boto3 client, faults of SQLite, SHA-256, the random token,
-- the time zone, `urllib.parse.quote`, the parsed JSON of a configuration, the decryption of
-- credentials, `urlsplit`, `urlunsplit`, `str.strip`, `str.lower` of a host, name resolution and the
-- `ipaddress` module. A ciphertext stands for the credentials in it. Multipart parsing is an
-- input: a form has parsed, is malformed, or is too large.
--
-- A start of the service may fail at the backup or at any migration; the migration is then rolled
-- back, and the file keeps the version of the last one that was committed.
--
-- Fuel: the loop over groups of a recovery round runs on the number of its calls, and a reader of
-- the log on one more page than there are records.
--
-- Not modelled: routes and OpenAPI (app/main.py, app/models.py), the guard's parsing of the
-- Authorization header (app/http.py), the line of JSON that app/eventlog.py prints, app/backup.py,
-- the supervision of background tasks, the bootstrap of storage from environment variables, the
-- list of tasks, its statistics, and the dashboard.
pub mod Prelude
pub mod Data
pub mod Database
pub mod Values
pub mod World
pub mod Interference
pub mod Providers
pub mod Runtime
pub mod Security
pub mod Guard
pub mod EventLog
pub mod Backups
pub mod Deletions
pub mod Uploads
pub mod Tests
