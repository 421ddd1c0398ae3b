-- ===== src/Database/Presets.antt =====
-- app/database.py: the methods on storage_presets and storage_configs, in the v5 schema.
pub mod Revisions
pub mod Default
pub mod Moves
use ctyun_zos.Prelude.{
  ℕ, suc, ◌+◌, Bool, true, false, not, ◌&&◌, ◌||◌, Option, none, some, List, [], ◌∷◌, leb, ◌==◌,
  if◌then◌else◌, is_some, get_or, any, Text, text_eq, codes, map,
}
use ctyun_zos.Data.{
  Preset, StorageConfig, Db, integrity_error, value_error, preset_not_found, revision_conflict,
  preset_state_conflict, default_preset_conflict, DbResult, committed, rolled_back,
}

-- A configuration joined with its preset, which the methods return.
pub record StorageRow : Type 0 where
  pub config : StorageConfig
  pub preset : Preset

-- The constraints of storage_presets: the primary key, the unique key, the unique index on the
-- default, and the CHECK on the revision.
abbrev pub preset_clash : Preset → Preset → Bool
preset_clash new p =
    p.id == new.id || text_eq p.preset_key new.preset_key || (p.is_default && new.is_default)

unfoldable pub insert_preset : Preset → List Preset → Option (List Preset)
insert_preset new presets =
    if any (preset_clash new) presets || not (leb 1 new.state_revision)
    then none
    else some (new ∷ presets)

-- The constraints of storage_configs: the primary key, the unique revision, the unique index on
-- the active configuration, the foreign key, and the two CHECKs.
abbrev pub config_clash : StorageConfig → StorageConfig → Bool
config_clash new c =
    c.id == new.id
    || (c.preset_id == new.preset_id && c.revision == new.revision)
    || (c.preset_id == new.preset_id && c.active && new.active)

abbrev pub has_preset : ℕ → List Preset → Bool
has_preset i presets = any (λ (p : Preset). p.id == i) presets

-- `_insert_storage_config`
abbrev pub active_config : StorageConfig → ℕ → ℕ → StorageConfig
active_config c preset_id revision = record c {
  preset_id = preset_id;
  revision = revision;
  active = true;
}

unfoldable pub insert_storage_config :
    StorageConfig → ℕ → ℕ → List Preset → List StorageConfig → Option (List StorageConfig)
insert_storage_config c preset_id revision presets configs =
    if any (config_clash (active_config c preset_id revision)) configs
      || not (has_preset preset_id presets)
      || not (leb 1 revision)
      || not (leb 1 c.provider_schema_version)
    then none
    else some (active_config c preset_id revision ∷ configs)

abbrev pub is_empty : List Preset → Bool
is_empty [] = true
is_empty (_ ∷ _) = false

-- Both inserts, in one transaction.
abbrev pub insert_both : Preset → StorageConfig → ℕ → Db → DbResult StorageRow
insert_both new c revision db = elim (insert_preset new db.presets) [
  | none ↦ rolled_back integrity_error
  | some presets ↦ elim (insert_storage_config c new.id revision presets db.configs) [
    | none ↦ rolled_back integrity_error
    | some configs ↦
        committed (record { config = active_config c new.id revision; preset = new })
          (record db { presets = presets; configs = configs })
  ]
]

-- The first preset becomes the default.
abbrev pub new_preset : Preset → Bool → Preset
new_preset p is_default = record p { enabled = true; is_default = is_default; state_revision = 1 }

unfoldable pub create_storage_preset : Preset → StorageConfig → Db → DbResult StorageRow
create_storage_preset p c db = insert_both (new_preset p (is_empty db.presets)) c 1 db

abbrev pub find_key : Text → List Preset → Option Preset
find_key key [] = none
find_key key (p ∷ presets) = if text_eq p.preset_key key then some p else find_key key presets

unfoldable pub storage_preset_by_key : Text → Db → Option Preset
storage_preset_by_key key db = find_key key db.presets

abbrev pub find_default : List Preset → Option Preset
find_default [] = none
find_default (p ∷ presets) = if p.is_default then some p else find_default presets

abbrev pub find_active : ℕ → List StorageConfig → Option StorageConfig
find_active i [] = none
find_active i (c ∷ configs) = if c.preset_id == i && c.active then some c else find_active i configs

abbrev pub revision_of : Option StorageConfig → ℕ
revision_of none = 0
revision_of (some c) = c.revision

abbrev pub deactivate : ℕ → List StorageConfig → List StorageConfig
deactivate i =
    map (λ (c : StorageConfig).
      if c.preset_id == i && c.active then record c { active = false } else c)

-- The preset of an activation: by key, or the default.
abbrev pub target_of : Option Text → List Preset → Option Preset
target_of none presets = find_default presets
target_of (some key) presets = find_key key presets

-- The end of an activation, for the preset found or made.
unfoldable pub activate_for : StorageConfig → ℕ → Preset → Db → DbResult StorageRow
activate_for c expected p db =
    let current = revision_of (find_active p.id db.configs) in
    if current == expected
    then elim (insert_storage_config c p.id (current + 1) db.presets (deactivate p.id db.configs)) [
      | none ↦ rolled_back integrity_error
      | some configs ↦
          committed (record { config = active_config c p.id (current + 1); preset = p })
            (record db { configs = configs })
    ]
    else rolled_back (revision_conflict current)

-- UUID 00000000-0000-0000-0000-000000000001
abbrev pub default_preset_id : ℕ
default_preset_id = 1

abbrev pub default_preset : ℕ → ℕ → List Preset → Preset
default_preset now fresh presets = record {
  id = if has_preset default_preset_id presets then fresh else default_preset_id;
  preset_key = codes "default";
  display_name = codes "默认 ZOS";
  enabled = true;
  is_default = true;
  state_revision = 1;
  created_at = now;
  updated_at = now;
}

abbrev pub make_default : StorageConfig → ℕ → ℕ → Option Text → Db → DbResult StorageRow
make_default c expected fresh (some key) db = rolled_back (preset_not_found key)
make_default c expected fresh none db =
    let p = default_preset c.created_at fresh db.presets in
    elim (insert_preset p db.presets) [
      | none ↦ rolled_back integrity_error
      | some presets ↦ activate_for c expected p (record db { presets = presets })
    ]

-- `fresh` is what `uuid4` gives.
unfoldable pub activate_storage : StorageConfig → ℕ → Option Text → ℕ → Db → DbResult StorageRow
unfolding activate_for
activate_storage c expected key fresh db = elim (target_of key db.presets) [
  | none ↦ make_default c expected fresh key db
  | some p ↦ activate_for c expected p db
]

abbrev pub update_presets : ℕ → (Preset → Preset) → List Preset → List Preset
update_presets i f [] = []
update_presets i f (p ∷ presets) =
    let rest = update_presets i f presets in if p.id == i then f p ∷ rest else p ∷ rest

abbrev pub changed_preset : ℕ → ℕ → Option Text → Option Bool → Preset → Preset
changed_preset revision now display_name enabled p = record p {
  state_revision = revision;
  updated_at = now;
  display_name = get_or display_name p.display_name;
  enabled = get_or enabled p.enabled;
}

abbrev pub disables : Option Bool → Bool
disables (some false) = true
disables _ = false

unfoldable pub update_storage_preset :
    Text → ℕ → Option Text → Option Bool → ℕ → Db → DbResult Preset
update_storage_preset key expected display_name enabled now db =
    if not (is_some display_name) && not (is_some enabled)
    then rolled_back value_error
    else (elim (find_key key db.presets) [
      | none ↦ rolled_back (preset_not_found key)
      | some current ↦
          if not (current.state_revision == expected)
          then rolled_back (preset_state_conflict current.state_revision)
          else (if disables enabled && current.is_default
              then rolled_back value_error
              else committed (changed_preset (expected + 1) now display_name enabled current)
                  (record db {
                    presets =
                        update_presets current.id
                          (changed_preset (expected + 1) now display_name enabled) db.presets;
                  }))
    ])

abbrev pub key_of : Option Preset → Option Text
key_of none = none
key_of (some p) = some p.preset_key

abbrev pub is_key : Option Text → Text → Bool
is_key none key = false
is_key (some k) key = text_eq k key

abbrev pub with_default : Bool → ℕ → Preset → Preset
with_default b now p = record p {
  is_default = b;
  state_revision = suc p.state_revision;
  updated_at = now;
}

abbrev pub clear_default : Option Preset → ℕ → List Preset → List Preset
clear_default none now presets = presets
clear_default (some p) now presets = update_presets p.id (with_default false now) presets

abbrev pub is_same : Option Preset → Preset → Bool
is_same none target = false
is_same (some p) target = p.id == target.id

-- `target` is the row read before the two updates.
abbrev pub move_default : Preset → Text → ℕ → ℕ → Db → DbResult Preset
move_default target expected_default expected now db =
    let current = find_default db.presets in
    if not (is_key (key_of current) expected_default) || not (target.state_revision == expected)
    then rolled_back (default_preset_conflict (key_of current) target.state_revision)
    else (if not target.enabled
        then rolled_back value_error
        else (if is_same current target
            then committed target db
            else committed (with_default true now target) (record db {
              presets =
                  update_presets target.id (with_default true now)
                    (clear_default current now db.presets);
            })))

unfoldable pub set_default_storage_preset : Text → Text → ℕ → ℕ → Db → DbResult Preset
set_default_storage_preset key expected_default expected now db = elim (find_key key db.presets) [
  | none ↦ rolled_back (preset_not_found key)
  | some target ↦ move_default target expected_default expected now db
]
