-- ===== src/Runtime/Storage/Agreement.antt =====
-- The snapshots after `_load_active`, against the tables.
use ctyun_zos.Prelude.{
  ℕ, All, ◌≡◌, refl, sym, ◌∙◌, inl, inr, Bool, true, false, not, ◌&&◌, Option, none, some, List, [],
  ◌∷◌, Text, text_eq, text_eq_iff, arith, Bool-cases, Option-cases, if◌then◌else◌, is_some,
}
use mathlib.Core.Path.{ap, subst}
use ctyun_zos.Data.{Preset, StorageConfig, Db}
use ctyun_zos.Database.Presets.{StorageRow, find_active, find_key}
use ctyun_zos.World.{Env, World, Snapshot, Provider, ok, pure, ◌>>=◌, query}
use ctyun_zos.Runtime.Cache.{provider_of, provider_for_record}
use ctyun_zos.Runtime.Cache.Sound.{IsSound, provider_for_record-IsSound}
use ctyun_zos.Runtime.Storage.Snapshots.{
  row_of, active_storage, insert_by_key, order_by_key, join_active, active_storages, snapshot_of,
  SnapshotMap, load_each, install_all, load_active,
}
use ctyun_zos.Runtime.Storage.Checked.{ok-bind}
use ctyun_zos.Uploads.Resolve.{snapshot_at}

-- The unique key of storage_presets.
abbrev pub keys_distinct : List Preset → Bool
keys_distinct [] = true
keys_distinct (p ∷ presets) = not (is_some (find_key p.preset_key presets)) && keys_distinct presets

abbrev pub then_row : List StorageConfig → Option Preset → Option StorageRow
then_row configs none = none
then_row configs (some p) = row_of p (find_active p.id configs)

abbrev row_at_key : Text → List StorageRow → Option StorageRow
row_at_key key [] = none
row_at_key key (r ∷ rows) = if text_eq r.preset.preset_key key then some r else row_at_key key rows

same_key_trans : (s t u : Text) → text_eq s t ≡ true → text_eq u t ≡ true → text_eq s u ≡ true
same_key_trans s t u a b = (text_eq_iff s u).1 ((text_eq_iff s t).0 a ∙ sym ((text_eq_iff u t).0 b))

find_key-insert_by_key :
    (key : Text) (p : Preset) (presets : List Preset)
    → find_key p.preset_key presets ≡ none
    → find_key key (insert_by_key p presets)
      ≡ (if text_eq p.preset_key key then some p else find_key key presets)
find_key-insert_by_key key p [] h = refl
find_key-insert_by_key key p (q ∷ presets) h =
    ground
      (arith, find_key-insert_by_key key p presets, same_key_trans q.preset_key key p.preset_key)

find_key-order_by_key :
    (key : Text) (presets : List Preset)
    → keys_distinct presets ≡ true
    → find_key key (order_by_key presets) ≡ find_key key presets
find_key-order_by_key key [] d = refl
find_key-order_by_key key (p ∷ presets) d =
    let rest = find_key-order_by_key key presets (ground arith) in
    let here = find_key-order_by_key p.preset_key presets (ground arith) in
    let fresh : find_key p.preset_key presets ≡ none = ground arith in
    find_key-insert_by_key key p (order_by_key presets) (here ∙ fresh) ∙ rw rest refl

keys_distinct-insert_by_key :
    (p : Preset) (presets : List Preset)
    → find_key p.preset_key presets ≡ none
    → keys_distinct presets ≡ true
    → keys_distinct (insert_by_key p presets) ≡ true
keys_distinct-insert_by_key p [] h d = refl
keys_distinct-insert_by_key p (q ∷ presets) h d = ground (
  arith,
  keys_distinct-insert_by_key p presets,
  find_key-insert_by_key q.preset_key p presets,
  text_eq_sym p.preset_key q.preset_key,
)
  where
    text_eq_sym : (s t : Text) → text_eq s t ≡ true → text_eq t s ≡ true
    text_eq_sym s t e = (text_eq_iff t s).1 (sym ((text_eq_iff s t).0 e))

keys_distinct-order_by_key :
    (presets : List Preset)
    → keys_distinct presets ≡ true
    → keys_distinct (order_by_key presets) ≡ true
keys_distinct-order_by_key [] d = refl
keys_distinct-order_by_key (p ∷ presets) d =
    let fresh : find_key p.preset_key presets ≡ none = ground arith in
    keys_distinct-insert_by_key p (order_by_key presets)
      (find_key-order_by_key p.preset_key presets (ground arith) ∙ fresh)
      (keys_distinct-order_by_key presets (ground arith))

row_at_key-join_active :
    (key : Text) (configs : List StorageConfig) (presets : List Preset)
    → keys_distinct presets ≡ true
    → row_at_key key (join_active configs presets) ≡ then_row configs (find_key key presets)
row_at_key-join_active key configs [] d = refl
row_at_key-join_active key configs (p ∷ presets) d =
    let fresh : find_key p.preset_key presets ≡ none = ground arith in
    let absent : (text_eq p.preset_key key ≡ true → find_key key presets ≡ none) =
      λ e. subst (λ k. find_key k presets ≡ none) ((text_eq_iff p.preset_key key).0 e) fresh in
    let rest = row_at_key-join_active key configs presets (ground arith) in
    elim (Option-cases (find_active p.id configs)) [
      | inl n ↦ elim (Bool-cases (text_eq p.preset_key key)) [
        | inl e ↦ let gone = absent e in ground arith
        | inr e ↦ ground arith
      ]
      | inr c ↦ ground arith
    ]

-- A snapshot is that of a row, with the provider of its configuration, or both are missing.
abbrev pub Agrees : Option Snapshot → Option StorageRow → Type 0
Agrees none none = Unit {0}
Agrees (some s) (some row) = s ≡ snapshot_of row (provider_of false row.config)
Agrees none (some row) = true ≡ false
Agrees (some s) none = true ≡ false

-- `built` gives the provider of each of these configurations, by its identifier.
abbrev pub Describes : (ℕ → Provider) → List StorageRow → Type 0
Describes built rows = All (λ (r : StorageRow). built r.config.id ≡ provider_of false r.config) rows

Agrees-load_each :
    (env : Env) (built : ℕ → Provider) (key : Text) (rows : List StorageRow) (w : World)
    (snapshots : SnapshotMap) (w' : World)
    → IsSound built w.providers
    → Describes built rows
    → load_each env rows w ≡ (ok snapshots, w')
    → Agrees (snapshot_at key snapshots) (row_at_key key rows)
unfolding load_each
Agrees-load_each env built key [] w snapshots w' sound made e =
    let none_left : [] ≡ snapshots = ground arith in
    subst (λ (s : SnapshotMap). Agrees (snapshot_at key s) none) none_left tt
Agrees-load_each env built key (row ∷ rows) w snapshots w' sound made e =
    let (p, e0, g0) =
      ok-bind (provider_for_record env row.config)
        (λ p.
          load_each env rows >>= λ rest. pure ((row.preset.preset_key, snapshot_of row p) ∷ rest))
        w snapshots w' e in
    let w1 = (provider_for_record env row.config w).1 in
    let (right, sound') =
      provider_for_record-IsSound built env row.config w p w1 sound made.0 (ap (λ r. (r, w1)) e0) in
    let (rest, e1, g1) =
      ok-bind (load_each env rows)
        (λ rest. pure ((row.preset.preset_key, snapshot_of row p) ∷ rest)) w1 snapshots w' g0 in
    let w2 = (load_each env rows w1).1 in
    let same : (row.preset.preset_key, snapshot_of row p) ∷ rest ≡ snapshots = ground arith in
    let tail =
      Agrees-load_each env built key rows w1 rest w2 sound' made.1 (ap (λ r. (r, w2)) e1) in
    subst (λ (s : SnapshotMap). Agrees (snapshot_at key s) (row_at_key key (row ∷ rows))) same
      (elim (Bool-cases (text_eq row.preset.preset_key key)) [
        | inl here ↦ rw here (ap (snapshot_of row) right)
        | inr there ↦ rw there tail
      ])

active_storage-row :
    (key : Text) (db : Db)
    → active_storage (some key) db ≡ then_row db.configs (find_key key db.presets)
unfolding active_storage
active_storage-row key db = elim (Option-cases (find_key key db.presets)) [
  | inl n ↦ ground arith
  | inr p ↦ ground arith
]

active_storages-row :
    (key : Text) (db : Db)
    → keys_distinct db.presets ≡ true
    → row_at_key key (active_storages db) ≡ active_storage (some key) db
unfolding active_storages
active_storages-row key db d =
    row_at_key-join_active key db.configs (order_by_key db.presets)
      (keys_distinct-order_by_key db.presets d)
    ∙ ap (then_row db.configs) (find_key-order_by_key key db.presets d)
    ∙ sym (active_storage-row key db)

-- When `_load_active` returns, then for every key the snapshot is that of the preset's active
-- configuration in the tables that it read, with the provider that is made of this configuration,
-- and there is none for a preset that has no active configuration or does not exist. Conditions:
-- the keys of the presets are unique, as the table demands, and what the cache of providers holds
-- for an identifier is what the configuration of this identifier gives.
pub load_active-Agrees :
    (env : Env) (built : ℕ → Provider) (w : World) (u : Unit {0}) (w' : World) (key : Text)
    → IsSound built w.providers
    → Describes built (active_storages (env.others w.draws w.db))
    → keys_distinct (env.others w.draws w.db).presets ≡ true
    → load_active env w ≡ (ok u, w')
    → Agrees
        (snapshot_at key w'.snapshots_by_key)
        (active_storage (some key) (env.others w.draws w.db))
unfolding load_active query
load_active-Agrees env built w u w' key sound made d e =
    let seen = env.others w.draws w.db in
    let (rows, e0, g0) =
      ok-bind (query env active_storages) (λ rows. load_each env rows >>= install_all) w u w' e in
    let w1 = (query env active_storages w).1 in
    let (snapshots, e1, g1) = ok-bind (load_each env rows) install_all w1 u w' g0 in
    let w2 = (load_each env rows w1).1 in
    let read : rows ≡ active_storages seen = ground arith in
    let installed : snapshots ≡ w'.snapshots_by_key = ground arith in
    let each =
      Agrees-load_each env built key rows w1 snapshots w2
        (subst (IsSound built) (let q : w.providers ≡ w1.providers = ground arith in q) sound)
        (subst (Describes built) (sym read) made) (ap (λ r. (r, w2)) e1) in
    let looked : row_at_key key rows ≡ active_storage (some key) seen =
      ap (row_at_key key) read ∙ active_storages-row key seen d in
    subst (λ (s : SnapshotMap). Agrees (snapshot_at key s) (active_storage (some key) seen))
      installed (subst (Agrees (snapshot_at key snapshots)) looked each)
