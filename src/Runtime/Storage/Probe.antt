-- ===== src/Runtime/Storage/Probe.antt =====
-- app/runtime.py: `probe`, the health of the default storage.
use ctyun_zos.Prelude.{ℕ, ◌+◌, Option, none, some}
use ctyun_zos.Data.{Code, storage_not_configured}
use ctyun_zos.World.{
  Probe, Env, Snapshot, Result, ok, raised, provider_error, Action, raise, attempt, ◌>>=◌, probe_ok,
  probe_error,
}
use ctyun_zos.Uploads.Resolve.{active_snapshot}
use ctyun_zos.Runtime.Storage.Payloads.{test_connection}

module _ (env : Env) where
  abbrev pub set_last_probe : Option Code → Action (Unit {0})
  set_last_probe error w =
      let now = env.clock w.draws in
      (ok tt, record w { last_probe = probe_of now error; draws = w.draws + 1 })
    where
      probe_of : ℕ → Option Code → Probe
      probe_of now none = probe_ok now
      probe_of now (some code) = probe_error now code

  -- `except ProviderError`; nothing else is caught.
  abbrev pub after_test : Result ℕ → Action (Unit {0})
  after_test (ok latency) = set_last_probe none
  after_test (raised (provider_error code uncertain)) = set_last_probe (some code)
  after_test (raised e) = raise e

  abbrev pub probe_snapshot : Option Snapshot → Action (Unit {0})
  probe_snapshot none = set_last_probe (some storage_not_configured)
  probe_snapshot (some s) = attempt (test_connection env s.provider) >>= after_test

  unfoldable pub probe : Action (Unit {0})
  probe w = probe_snapshot (active_snapshot none w) w
