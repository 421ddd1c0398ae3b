-- ===== src/Runtime/Storage/Activation.antt =====
-- The activation of a configuration in the tables, and the map of the snapshots.
use ctyun_zos.Prelude.{
  sym, ◌+◌, ◌⊎◌, ◌==◌, map, if◌then◌else◌, Bool-cases, ==_iff, ℕ, ◌≡◌, refl, ◌∙◌, inl, inr, true,
  false, Option, none, some, List, [], ◌∷◌, Text, text_eq, text_eq_iff, arith, Option-cases,
}
use mathlib.Core.Path.{ap, subst}
use ctyun_zos.Data.{Preset, StorageConfig, Db, committed}
use ctyun_zos.Database.Presets
use ctyun_zos.Database.Presets.{
  StorageRow, find_active, find_default, find_key, target_of, activate_for, make_default,
  insert_storage_config, insert_preset, active_config, default_preset, deactivate, revision_of,
}
use ctyun_zos.World.{Snapshot}
use ctyun_zos.Runtime.Cache.{provider_of}
use ctyun_zos.Runtime.Storage.Snapshots.{active_storage, set_snapshot, SnapshotMap}
use ctyun_zos.Uploads.Resolve.{snapshot_at}

-- What a new activation makes of the tables: the row that it returns is the active one.
activate_for_lem :
    (c : StorageConfig) (expected : ℕ) (p : Preset) (db : Db) (row : StorageRow) (db' : Db)
    → activate_for c expected p db ≡ committed row db'
    → (find_active p.id db'.configs ≡ some row.config)
      × (row.preset ≡ p)
      × (db'.presets ≡ db.presets)
      × (provider_of false row.config ≡ provider_of false c)
unfolding activate_for insert_storage_config
activate_for_lem c expected p db row db' e = ground arith

-- What a committed activation has done to the rows: the revision was the expected one, the new row
-- is the next revision with the given settings, the configurations that were there stay, those of
-- the preset without being active, and the presets stay, or the first one was added.
abbrev pub retired : ℕ → StorageConfig → StorageConfig
retired i c = if c.preset_id == i then record c { active = false } else c

abbrev pub IsActivated : StorageConfig → ℕ → Db → StorageRow → Db → Type 0
IsActivated c expected db row db' =
    (row.config ≡ active_config c row.preset.id (expected + 1))
    × (revision_of (find_active row.preset.id db.configs) ≡ expected)
    × (db'.configs ≡ row.config ∷ map (retired row.preset.id) db.configs)
    × ((db'.presets ≡ db.presets) ⊎ (db'.presets ≡ row.preset ∷ db.presets))

retired_lem :
    (i : ℕ) (configs : List StorageConfig) → deactivate i configs ≡ map (retired i) configs
retired_lem i [] = refl
retired_lem i (c ∷ configs) = ground (arith, retired_lem i configs)

activate_for_rows :
    (c : StorageConfig) (expected : ℕ) (p : Preset) (db : Db) (row : StorageRow) (db' : Db)
    → activate_for c expected p db ≡ committed row db'
    → (row.config ≡ active_config c p.id (expected + 1))
      × (revision_of (find_active p.id db.configs) ≡ expected)
      × (db'.configs ≡ row.config ∷ deactivate p.id db.configs)
unfolding activate_for insert_storage_config
activate_for_rows c expected p db row db' e =
    elim (Bool-cases (revision_of (find_active p.id db.configs) == expected)) [
      | inr n ↦ ground arith
      | inl y ↦
          let same = (==_iff (revision_of (find_active p.id db.configs)) expected).0 y in
          ground arith
    ]

activate_for-IsActivated :
    (c : StorageConfig) (expected : ℕ) (p : Preset) (db : Db) (row : StorageRow) (db' : Db)
    → activate_for c expected p db ≡ committed row db'
    → (row.config ≡ active_config c row.preset.id (expected + 1))
      × (revision_of (find_active row.preset.id db.configs) ≡ expected)
      × (db'.configs ≡ row.config ∷ map (retired row.preset.id) db.configs)
activate_for-IsActivated c expected p db row db' e =
    let lem = activate_for_lem c expected p db row db' e in
    let (a, b, d) = activate_for_rows c expected p db row db' e in
    subst
      (λ (q : Preset).
        (row.config ≡ active_config c q.id (expected + 1))
        × (revision_of (find_active q.id db.configs) ≡ expected)
        × (db'.configs ≡ row.config ∷ map (retired q.id) db.configs))
      (sym lem.1) (a, b, d ∙ ap (λ cs. row.config ∷ cs) (retired_lem p.id db.configs))

text_eq_refl : (s : Text) → text_eq s s ≡ true
text_eq_refl s = (text_eq_iff s s).1 refl

pub snapshot_at-set_snapshot :
    (key : Text) (s : Snapshot) (snapshots : SnapshotMap)
    → snapshot_at key (set_snapshot key s snapshots) ≡ some s
snapshot_at-set_snapshot key s [] = rw (text_eq_refl key) refl
snapshot_at-set_snapshot key s ((k, x) ∷ snapshots) =
    ground (arith, snapshot_at-set_snapshot key s snapshots)

finds :
    (key : Option Text) (p : Preset) (db : Db) (row : StorageRow)
    → target_of key db.presets ≡ some p
    → find_active p.id db.configs ≡ some row.config
    → row.preset ≡ p
    → active_storage key db ≡ some row
unfolding active_storage
finds key p db row t f same = ground arith

insert_preset_lem :
    (p : Preset) (presets after : List Preset)
    → insert_preset p presets ≡ some after
    → after ≡ p ∷ presets
unfolding insert_preset
insert_preset_lem p presets after e = ground arith

-- The default preset that an activation makes.
made_default :
    (c : StorageConfig) (expected fresh : ℕ) (key : Option Text) (db : Db) (row : StorageRow)
    (db' : Db)
    → make_default c expected fresh key db ≡ committed row db'
    → (active_storage key db' ≡ some row)
      × (provider_of false row.config ≡ provider_of false c)
      × IsActivated c expected db row db'
made_default c expected fresh (some key) db row db' e = ground arith
made_default c expected fresh none db row db' e =
    let p = default_preset c.created_at fresh db.presets in
    elim (Option-cases (insert_preset p db.presets)) [
      | inl refused ↦ ground arith
      | inr done ↦
          let next = record db { presets = done.0 } in
          let lem = activate_for_lem c expected p next row db' (ground arith) in
          let inserted : done.0 ≡ p ∷ db.presets = insert_preset_lem p db.presets done.0 done.1 in
          let t : target_of none db'.presets ≡ some p = ap find_default (lem.2 ∙ inserted) in
          let (a, b, d) = activate_for-IsActivated c expected p next row db' (ground arith) in
          let added : db'.presets ≡ row.preset ∷ db.presets =
            lem.2 ∙ inserted ∙ ap (λ q. q ∷ db.presets) (sym lem.1) in
          (finds none p db' row t lem.0 lem.1, lem.3, (a, b, d, inr added))
    ]

-- The activation commits the row that a later look at the same preset finds, and leaves the others.
pub activate_storage_lem :
    (c : StorageConfig) (expected : ℕ) (key : Option Text) (fresh : ℕ) (db : Db) (row : StorageRow)
    (db' : Db)
    → Presets.activate_storage c expected key fresh db ≡ committed row db'
    → (active_storage key db' ≡ some row)
      × (provider_of false row.config ≡ provider_of false c)
      × IsActivated c expected db row db'
unfolding Presets.activate_storage
activate_storage_lem c expected key fresh db row db' e =
    elim (Option-cases (target_of key db.presets)) [
      | inr found ↦
          let lem = activate_for_lem c expected found.0 db row db' (ground arith) in
          let t : target_of key db'.presets ≡ some found.0 = ap (target_of key) lem.2 ∙ found.1 in
          let (a, b, d) = activate_for-IsActivated c expected found.0 db row db' (ground arith) in
          (finds key found.0 db' row t lem.0 lem.1, lem.3, (a, b, d, inl lem.2))
      | inl missing ↦ made_default c expected fresh key db row db' (ground arith)
    ]
