-- ===== src/Runtime/Storage/Installed.antt =====
-- What an activation leaves: a chain of steps that ends with the payload's settings installed, or
-- with nothing changed.
use ctyun_zos.Prelude.{
  true, arith, none, List, ◌∷◌, map, ℕ, ◌+◌, ◌≡◌, refl, ◌∙◌, ◌⊎◌, inl, inr, false, Option, some,
  Text,
}
use mathlib.Core.Path.{ap, subst}
use ctyun_zos.Data.{Preset, StorageConfig}
use ctyun_zos.Values.{Fields, ProviderConfig, Credentials}
use ctyun_zos.Providers.Configs.{validate}
use ctyun_zos.Database.Presets.{StorageRow, find_active, active_config, revision_of}
use ctyun_zos.World.{Env, World, Result, ok, raised, Exn, Action, ◌>>=◌, continue, or_raise}
use ctyun_zos.Runtime.Cache.{provider_of}
use ctyun_zos.Runtime.Storage.Snapshots.{active_storage, snapshot_of}
use ctyun_zos.Runtime.Storage.Payloads.{
  Candidate, Payload, Parsed, parse_payload, with_credentials, integer_in,
}
use ctyun_zos.Runtime.Storage.{storage_record}
use ctyun_zos.Runtime.Storage.Checked.{IsChecked}
use ctyun_zos.Runtime.Storage.Keeps.{Kept, Kept_refl, Kept_trans, Keeps}
use ctyun_zos.Uploads.Resolve.{snapshot_at}
use ctyun_zos.Runtime.Storage.Activation.{retired}

-- The configuration is that of the payload: its parts, with the normalized settings and the
-- encrypted credentials that `validate` made of them, where those that the payload leaves out were
-- completed in some state.
abbrev pub IsOfPayload : Env → Payload → Option Text → StorageConfig → Type 0
IsOfPayload env p key c =
    (q : Parsed) × (fields : Fields) × (n : ProviderConfig) × (k : Credentials) × (v : World)
    × (parse_payload p ≡ ok q)
    × ((with_credentials env true key q.provider_id q.schema_version q.config q.given v).0
        ≡ ok fields)
    × (validate env q.provider_id q.config fields ≡ ok (n, k))
    × (c.provider ≡ q.provider_id)
    × (c.provider_schema_version ≡ q.schema_version)
    × (c.config_json ≡ env.json_dumps n)
    × (c.credentials_ciphertext ≡ env.encrypt k)

-- The rows `presets` and `configs` became those of the state by one activation for the payload: the
-- expected revision was that of the preset's active configuration, the new row is the next
-- revision, is active, holds the payload's settings and has its snapshot; every other configuration
-- stays, those of the preset without being active; and the presets stay, or the first was added.
abbrev pub IsInstalled :
    Env → Payload → Option Text → List Preset → List StorageConfig → World → Type 0
IsInstalled env p key presets configs w =
    (row : StorageRow) × (active_storage key w.db ≡ some row)
    × (snapshot_at row.preset.preset_key w.snapshots_by_key
        ≡ some (snapshot_of row (provider_of false row.config)))
    × IsOfPayload env p key row.config
    × (integer_in p.expected_revision ≡ some (revision_of (find_active row.preset.id configs)))
    × (row.config.revision ≡ revision_of (find_active row.preset.id configs) + 1)
    × (w.db.configs ≡ row.config ∷ map (retired row.preset.id) configs)
    × ((w.db.presets ≡ presets) ⊎ (w.db.presets ≡ row.preset ∷ presets))

abbrev pub IsSettled :
    {A : Type 0} → Env → Payload → Option Text → World → Result A × World → Type 0
IsSettled env p key w (r, w') =
    (Kept w w' × ((e : Exn) × (r ≡ raised e))) ⊎ IsInstalled env p key w.db.presets w.db.configs w'

pub active_storage-Kept :
    (key : Option Text) (w w' : World)
    → Kept w w'
    → active_storage key w'.db ≡ active_storage key w.db
unfolding active_storage
active_storage-Kept key w w' k = rw (k.presets, k.configs) refl

pub or_raise-ok :
    {A : Type 0} (o : Option A) (e : Exn) (w w' : World) (a : A)
    → or_raise o e w ≡ (ok a, w')
    → o ≡ some a
or_raise-ok none e w w' a h = ground arith
or_raise-ok (some b) e w w' a h = ground arith

module _ (env : Env) (p : Payload) (key : Option Text) where
  abbrev pub Settles : {A : Type 0} → Action A → Type 0
  Settles m = (w : World) → IsSettled env p key w (m w)

  pub later :
      {A : Type 0} (w v : World) (r : Result A × World)
      → Kept w v
      → IsSettled env p key v r
      → IsSettled env p key w r
  later w v (r, w') k (inl (h, e)) = inl (Kept_trans w v w' k h, e)
  later w v (r, w') k (inr h) = inr (
      subst (λ (ps : List Preset). IsInstalled env p key ps w.db.configs w') k.presets
        (subst (λ (cs : List StorageConfig). IsInstalled env p key v.db.presets cs w') k.configs h))

  Settles-continue :
      {A B : Type 0} (r : Result A) (f : A → Action B) (w : World)
      → ((a : A) → r ≡ ok a → IsSettled env p key w (f a w))
      → IsSettled env p key w (continue r f w)
  Settles-continue (ok a) f w h = h a refl
  Settles-continue (raised e) f w h = inl (Kept_refl w, (e, refl))

  -- After a step that changes nothing, what it returned is at hand.
  pub Settles-after :
      {A B : Type 0} (m : Action A) (f : A → Action B)
      → Keeps m
      → ((w : World) (a : A) (v : World) → m w ≡ (ok a, v) → IsSettled env p key v (f a v))
      → Settles (m >>= f)
  Settles-after m f keeps h w =
      later w (m w).1 ((m >>= f) w) (keeps w)
        (Settles-continue (m w).0 f (m w).1 (λ a e. h w a (m w).1 (ap (λ r. (r, (m w).1)) e)))

  pub IsInstalled-Kept :
      (presets : List Preset) (configs : List StorageConfig) (w w' : World)
      → Kept w w'
      → IsInstalled env p key presets configs w
      → IsInstalled env p key presets configs w'
  IsInstalled-Kept presets configs w w' k (row, is_active, at, of, expected, next, rows, shown) = (
    row,
    active_storage-Kept key w w' k ∙ is_active,
    ap (snapshot_at row.preset.preset_key) k.snapshots ∙ at,
    of,
    expected,
    next,
    k.configs ∙ rows,
    elim shown [ inl e ↦ inl (k.presets ∙ e) | inr e ↦ inr (k.presets ∙ e) ],
  )

  -- A row that an activation has made of a checked candidate is that of the payload.
  pub IsOfPayload-candidate :
      (w : World) (c : Candidate) (id latency now preset_id revision : ℕ) (d : StorageConfig)
      → IsChecked env p key true w c
      → d ≡ active_config (storage_record env c id latency now) preset_id revision
      → IsOfPayload env p key d
  IsOfPayload-candidate w c id latency now preset_id revision d checked e = (
    checked.parts,
    checked.fields,
    c.config,
    c.credentials,
    w,
    checked.is_parsed,
    checked.completes,
    checked.is_valid,
    ap (λ (x : StorageConfig). x.provider) e ∙ checked.provider,
    ap (λ (x : StorageConfig). x.provider_schema_version) e ∙ checked.version,
    ap (λ (x : StorageConfig). x.config_json) e,
    ap (λ (x : StorageConfig). x.credentials_ciphertext) e,
  )
