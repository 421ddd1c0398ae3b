-- ===== src/Runtime/Storage/Settled.antt =====
-- Changes of the settings: what is left when a request ends.
use ctyun_zos.Prelude.{
  List, ◌∷◌, map, ℕ, ◌+◌, ◌≡◌, refl, sym, ◌∙◌, ◌⊎◌, inl, inr, true, false, not, Option, some, Text,
  Bool-cases, if◌then◌else◌, ◌==◌,
}
use mathlib.Core.Path.{ap}
use ctyun_zos.Data.{
  Preset, StorageConfig, DbResult, committed, rolled_back, sqlite_error, revision_conflict,
}
use ctyun_zos.Database.Presets
use ctyun_zos.Database.Presets.{
  StorageRow, find_active, find_default, find_key, target_of, activate_for, make_default,
  insert_storage_config, insert_preset, active_config, default_preset, deactivate, revision_of,
}
use ctyun_zos.World.{
  Env, World, Snapshot, db_error, settle, ◌>>=◌, ◌>>◌, or_raise, emit, Event, probe_ok, query,
  database_call,
}
use ctyun_zos.Runtime.Cache.{provider_of}
use ctyun_zos.Runtime.Storage.Snapshots.{active_storage, snapshot_of, install_snapshot}
use ctyun_zos.Runtime.Storage.Payloads.{
  Candidate, Payload, integer_in, invalid_config, tested_candidate,
}
use ctyun_zos.Runtime.Storage.{
  after_activation, probed, current_storage, storage_record, store_activation, activation,
  activate_expected, revision_of_row, activate_storage, expect_revision, require_preset,
}
use ctyun_zos.Runtime.Storage.Checked.{IsChecked, tested_candidate-IsChecked}
use ctyun_zos.Runtime.Storage.Keeps.{
  LeavesPresets, Kept, Kept_refl, Keeps, Keeps-bind, Keeps-query, Keeps-raise_if, Keeps-or_raise,
  Keeps-current_storage, Keeps-require_preset, Keeps-tested_candidate,
}
use ctyun_zos.Uploads.Resolve.{snapshot_at}
use ctyun_zos.Runtime.Storage.Activation.{retired, activate_storage_lem, snapshot_at-set_snapshot}
use ctyun_zos.Runtime.Storage.Installed.{
  IsOfPayload, IsInstalled, IsSettled, Settles, later, Settles-after, IsInstalled-Kept,
  IsOfPayload-candidate, or_raise-ok,
}

module _ (env : Env) (alone : LeavesPresets env) where
  Keeps-shown :
      (c : Candidate) (now : ℕ) (row : StorageRow) (s : Snapshot)
      → Keeps (
          probed env s now
          >> (emit (Event.storage_config_activated row.preset.preset_key row.config.revision)
              >> current_storage env (some row.preset.preset_key)))
  Keeps-shown c now row s =
      Keeps-bind (probed env s now)
        (λ _.
          emit (Event.storage_config_activated row.preset.preset_key row.config.revision)
          >> current_storage env (some row.preset.preset_key))
        (λ w.
          elim s.is_default
            as (λ b. Kept w (if b then record w { last_probe = probe_ok now } else w)) [
              | true ↦ record {
                presets = refl;
                configs = refl;
                snapshots = refl;
                default_key = refl;
              }
              | false ↦ Kept_refl w
            ])
        (λ _.
          Keeps-bind
            (emit (Event.storage_config_activated row.preset.preset_key row.config.revision))
            (λ _. current_storage env (some row.preset.preset_key))
            (λ w. record { presets = refl; configs = refl; snapshots = refl; default_key = refl })
            (λ _. Keeps-current_storage env alone (some row.preset.preset_key)))

  after_activation-IsInstalled :
      (p : Payload) (key : Option Text) (presets : List Preset) (configs : List StorageConfig)
      (c : Candidate) (now : ℕ) (row : StorageRow) (w : World)
      → active_storage key w.db ≡ some row
      → provider_of false row.config ≡ c.handle
      → IsOfPayload env p key row.config
      → integer_in p.expected_revision ≡ some (revision_of (find_active row.preset.id configs))
      → row.config.revision ≡ revision_of (find_active row.preset.id configs) + 1
      → w.db.configs ≡ row.config ∷ map (retired row.preset.id) configs
      → (w.db.presets ≡ presets) ⊎ (w.db.presets ≡ row.preset ∷ presets)
      → IsInstalled env p key presets configs (after_activation env c now row w).1
  unfolding after_activation install_snapshot
  after_activation-IsInstalled p key presets configs c now row w is_active handle of expected next
        rows shown =
      let s = snapshot_of row c.handle in
      let w1 = (install_snapshot env row c.handle w).1 in
      let w2 = (after_activation env c now row w).1 in
      let at : snapshot_at row.preset.preset_key w1.snapshots_by_key
          ≡ some (snapshot_of row (provider_of false row.config)) =
        rw handle (snapshot_at-set_snapshot row.preset.preset_key s w.snapshots_by_key) in
      IsInstalled-Kept env p key presets configs w1 w2 (Keeps-shown c now row s w1)
        (row, is_active, at, of, expected, next, rows, shown)

  -- The transaction of the activation, on tables `db`, and what follows it.
  settled-IsSettled :
      (p : Payload) (expected : ℕ) (key : Option Text) (c : Candidate) (latency id now fresh : ℕ)
      (w0 w : World) (r : DbResult StorageRow)
      → IsChecked env p key true w0 c
      → integer_in p.expected_revision ≡ some expected
      → Presets.activate_storage (storage_record env c id latency now) expected key fresh w.db ≡ r
      → IsSettled env p key w ((settle r >>= after_activation env c now) w)
  settled-IsSettled p expected key c latency id now fresh w0 w (rolled_back x) checked given e =
      inl (Kept_refl w, (db_error x, refl))
  settled-IsSettled p expected key c latency id now fresh w0 w (committed row db') checked given e =
      let (is_active, provider, (made, was, rows, shown)) =
        activate_storage_lem (storage_record env c id latency now) expected key fresh w.db row db'
          e in
      inr (
        after_activation-IsInstalled p key w.db.presets w.db.configs c now row
          (record w { db = db' }) is_active (provider ∙ sym checked.handle)
          (IsOfPayload-candidate env p key w0 c id latency now row.preset.id (expected + 1)
            row.config checked made)
          (given ∙ ap some (sym was))
          (ap (λ (x : StorageConfig). x.revision) made ∙ ap (λ n. n + 1) (sym was)) rows shown)

  store_activation-IsSettled :
      (p : Payload) (expected : ℕ) (key : Option Text) (c : Candidate) (latency : ℕ) (w0 w : World)
      → IsChecked env p key true w0 c
      → integer_in p.expected_revision ≡ some expected
      → IsSettled env p key w (store_activation env expected key (c, latency) w)
  unfolding database_call
  store_activation-IsSettled p expected key c latency w0 w checked given =
      let seen = record w { db = env.others (w.draws + 3) w.db; draws = w.draws + 3 + 1 } in
      let kept : Kept w seen = record {
        presets = alone.presets (w.draws + 3) w.db;
        configs = alone.configs (w.draws + 3) w.db;
        snapshots = refl;
        default_key = refl;
      } in
      elim (Bool-cases (env.fault (w.draws + 3))) [
        | inl fault ↦ rw fault (inl (kept, (db_error sqlite_error, refl)))
        | inr fine ↦ rw fine (
            later env p key w seen
              ((settle (activation env c latency expected key w seen.db)
                  >>= after_activation env c (env.clock w.draws))
                seen)
              kept
              (settled-IsSettled p expected key c latency (env.uuid (w.draws + 1))
                (env.clock w.draws) (env.uuid (w.draws + 2)) w0 seen
                (activation env c latency expected key w seen.db) checked given refl))
      ]

  -- A request to activate new settings, when no other request writes the presets meanwhile, ends
  -- in one of two ways. Either it raises, and the presets, the configurations and the snapshots are
  -- as they were. Or the expected revision was that of the preset's active configuration, and the
  -- preset has a new active configuration in the table, of the next revision, with the payload's
  -- provider, its normalized settings, and its credentials, completed by stored ones where it leaves
  -- them out; every other configuration stays, those of the preset without being active; the presets
  -- stay, or the first was added; and the snapshot that uploads use is the new configuration's,
  -- with its provider.
  pub activate_storage-IsSettled :
      (p : Payload) (key : Option Text) (w : World)
      → IsSettled env p key w (activate_storage env p key w)
  unfolding activate_storage
  activate_storage-IsSettled p key =
      Settles-after env p key (require_preset env key)
        (λ _.
          or_raise (integer_in p.expected_revision) invalid_config >>= activate_expected env p key)
        (Keeps-require_preset env alone key)
        (λ w u v e.
          Settles-after env p key (or_raise (integer_in p.expected_revision) invalid_config)
            (activate_expected env p key)
            (Keeps-or_raise (integer_in p.expected_revision) invalid_config)
            (λ w expected v e.
              expected_settles expected
                (or_raise-ok (integer_in p.expected_revision) invalid_config w v expected e) v)
            v)
    where
      expected_settles :
          (expected : ℕ)
          → integer_in p.expected_revision ≡ some expected
          → Settles env p key (activate_expected env p key expected)
      expected_settles expected given =
          Settles-after env p key (query env (active_storage key) >>= expect_revision env expected)
            (λ _. tested_candidate env p key true >>= store_activation env expected key)
            (Keeps-bind (query env (active_storage key)) (expect_revision env expected)
              (Keeps-query env alone (active_storage key))
              (λ active.
                Keeps-raise_if (not (expected == revision_of_row active))
                  (db_error (revision_conflict (revision_of_row active)))))
            (λ w u v e.
              Settles-after env p key (tested_candidate env p key true)
                (store_activation env expected key) (Keeps-tested_candidate env alone p key true)
                (λ w c v e.
                  store_activation-IsSettled p expected key c.0 c.1 w v
                    (tested_candidate-IsChecked env p key true w c.0 c.1 v e) given)
                v)
