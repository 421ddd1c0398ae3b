-- ===== src/Database/Presets/Moves.antt =====
-- The default preset under the operations on presets.
use ctyun_zos.Prelude.{
  ℕ, ◌+◌, ◌≡◌, ◌≤◌, refl, Bool, true, false, ◌&&◌, Option, none, some, List, [], ◌∷◌, ◌==◌, ==_iff,
  any, all, Text, text_eq_iff, arith, Bool-cases, Option-cases, inl, inr,
}
use ctyun_zos.Data.{Preset, StorageConfig, Db, committed}
use ctyun_zos.Database.Presets.{
  StorageRow, find_key, find_default, update_presets, changed_preset, update_storage_preset,
  has_preset, is_empty, with_default, set_default_storage_preset, preset_clash, insert_preset,
  new_preset, create_storage_preset, disables,
}
use ctyun_zos.Database.Presets.Revisions.{update_storage_preset_lem}
use ctyun_zos.Database.Presets.Default.{
  IsDistinct, IsDefaulted, defaults, is_fit, find_id, weight, IsDistinct-update_presets,
  find_id-update_presets, defaults-update_presets, is_empty-update_presets, fit_rows,
}

absent_id :
    (i : ℕ) (presets : List Preset) → has_preset i presets ≡ false → find_id i presets ≡ none
absent_id i [] h = refl
absent_id i (p ∷ presets) h = ground (arith, absent_id i presets)

has_of_key :
    (key : Text) (p : Preset) (presets : List Preset)
    → find_key key presets ≡ some p
    → has_preset p.id presets ≡ true
has_of_key key p [] e = cc
has_of_key key p (r ∷ presets) e = ground (arith, has_of_key key p presets)

find_id-find_key :
    (key : Text) (p : Preset) (presets : List Preset)
    → IsDistinct presets
    → find_key key presets ≡ some p
    → find_id p.id presets ≡ some p
find_id-find_key key p [] d e = cc
find_id-find_key key p (r ∷ presets) d e =
    ground (arith, has_of_key key p presets, find_id-find_key key p presets d.1)

has_of_default :
    (p : Preset) (presets : List Preset)
    → find_default presets ≡ some p
    → has_preset p.id presets ≡ true
has_of_default p [] e = cc
has_of_default p (r ∷ presets) e = ground (arith, has_of_default p presets)

find_id-find_default :
    (p : Preset) (presets : List Preset)
    → IsDistinct presets
    → find_default presets ≡ some p
    → (find_id p.id presets ≡ some p) × (p.is_default ≡ true)
find_id-find_default p [] d e = cc
find_id-find_default p (r ∷ presets) d e =
    ground (arith, has_of_default p presets, find_id-find_default p presets d.1)

no_default : (presets : List Preset) → find_default presets ≡ none → defaults presets ≡ 0
no_default [] e = refl
no_default (p ∷ presets) e = ground (arith, no_default presets)

keeps_default :
    (expected now : ℕ) (name : Option Text) (enabled : Option Bool) (p : Preset)
    → (disables enabled && p.is_default) ≡ false
    → is_fit p ≡ true
    → is_fit (changed_preset expected now name enabled p) ≡ true
keeps_default expected now name none p h fit = fit
keeps_default expected now name (some true) p h fit = ground arith
keeps_default expected now name (some false) p h fit = ground arith

fit_of_found :
    (i : ℕ) (p : Preset) (presets : List Preset)
    → find_id i presets ≡ some p
    → all is_fit presets ≡ true
    → is_fit p ≡ true
fit_of_found i p [] e a = cc
fit_of_found i p (r ∷ presets) e a = ground (arith, fit_of_found i p presets)

module _ (i : ℕ) (f : Preset → Preset) (row : Preset) (presets : List Preset)
    (keeps : (p : Preset) → (f p).id ≡ p.id) (stored : find_id i presets ≡ some row)
    (distinct : IsDistinct presets) where
  defaults_moved :
      defaults (update_presets i f presets) + weight (some row)
      ≡ defaults presets + weight (some (f row))
  defaults_moved = ground (arith, stored, defaults-update_presets i f keeps presets distinct)

  fit_moved :
      all is_fit presets ≡ true
      → is_fit (f row) ≡ true
      → all is_fit (update_presets i f presets) ≡ true
  fit_moved a fit = fit_rows i f keeps presets distinct a (λ p e. ground (arith, stored, e, fit))

-- With distinct identifiers, exactly one default once there are presets, and an enabled default: an
-- update of a preset's name or state that commits keeps all three.
pub update_storage_preset-IsDefaulted :
    (key : Text) (expected now : ℕ) (name : Option Text) (enabled : Option Bool) (p : Preset)
    (db db' : Db)
    → update_storage_preset key expected name enabled now db ≡ committed p db'
    → IsDefaulted db.presets
    → IsDefaulted db'.presets
update_storage_preset-IsDefaulted key expected now name enabled p db db' done v =
    let (current, found, allowed, changed) =
      update_storage_preset_lem key expected now name enabled p db db' done in
    let f = changed_preset (expected + 1) now name enabled in
    let stored = find_id-find_key key current db.presets v.0 found in
    let fit = fit_of_found current.id current db.presets stored v.2 in
    let moved = defaults_moved current.id f current db.presets (λ _. refl) stored v.0 in
    rw changed (
      IsDistinct-update_presets current.id f (λ _. refl) db.presets v.0,
      rw (is_empty-update_presets current.id f (λ _. refl) db.presets) (omega (arith, moved, v.1)),
      fit_moved current.id f current db.presets (λ _. refl) stored v.0 v.2
          (keeps_default (expected + 1) now name enabled current allowed.1 fit),
    )

no_clash_distinct :
    (p : Preset) (presets : List Preset)
    → any (preset_clash p) presets ≡ false
    → has_preset p.id presets ≡ false
no_clash_distinct p [] h = refl
no_clash_distinct p (r ∷ presets) h = ground (arith, no_clash_distinct p presets)

-- A creation that commits keeps the presets so, and the new preset is the default exactly if it is
-- the first.
pub create_storage_preset-IsDefaulted :
    (p : Preset) (c : StorageConfig) (row : StorageRow) (db db' : Db)
    → create_storage_preset p c db ≡ committed row db'
    → IsDefaulted db.presets
    → IsDefaulted db'.presets × (row.preset.is_default ≡ is_empty db.presets)
unfolding create_storage_preset insert_preset
create_storage_preset-IsDefaulted p c row db db' done v =
    ground (arith, no_clash_distinct (new_preset p (is_empty db.presets)) db.presets)

weight_le :
    (i : ℕ) (p : Preset) (presets : List Preset)
    → find_id i presets ≡ some p
    → weight (some p) ≤ defaults presets
weight_le i p [] e = cc
weight_le i p (r ∷ presets) e = ground (arith, weight_le i p presets)

only_default :
    (i : ℕ) (p : Preset) (presets : List Preset)
    → find_id i presets ≡ some p
    → p.is_default ≡ true
    → defaults presets ≡ 1
    → find_default presets ≡ some p
only_default i p [] e d n = cc
only_default i p (r ∷ presets) e d n =
    ground (arith, weight_le i p presets, only_default i p presets)

abbrev moved_presets : Preset → Preset → ℕ → List Preset → List Preset
moved_presets current target now presets =
    update_presets target.id (with_default true now)
      (update_presets current.id (with_default false now) presets)

module _ (current target : Preset) (now : ℕ) (presets : List Preset) (v : IsDefaulted presets)
    (default : find_default presets ≡ some current)
    (found : find_id target.id presets ≡ some target) (differs : (current.id == target.id) ≡ false)
    (enabled : target.enabled ≡ true) where
  moved-IsDefaulted :
      IsDefaulted (moved_presets current target now presets)
      × (find_default (moved_presets current target now presets)
          ≡ some (with_default true now target))
  moved-IsDefaulted =
      let clear = with_default false now in
      let set = with_default true now in
      let cleared = update_presets current.id clear presets in
      let (at, is_one) = find_id-find_default current presets v.0 default in
      let some_default = weight_le current.id current presets at in
      let none_left = defaults_moved current.id clear current presets (λ _. refl) at v.0 in
      let distinct = IsDistinct-update_presets current.id clear (λ _. refl) presets v.0 in
      let fit = fit_moved current.id clear current presets (λ _. refl) at v.0 v.2 refl in
      let stays : find_id target.id cleared ≡ some target = ground (
        arith,
        find_id-update_presets current.id clear (λ _. refl) target.id presets,
        differs,
        found,
      ) in
      let one_set = defaults_moved target.id set target cleared (λ _. refl) stays distinct in
      let light = weight_le target.id target cleared stays in
      let is_set : find_id target.id (update_presets target.id set cleared) ≡ some (set target) =
        ground (arith, find_id-update_presets target.id set (λ _. refl) target.id cleared, stays) in
      let one : defaults (update_presets target.id set cleared) ≡ 1 =
        ground (arith, one_set, none_left, light, is_one, some_default, v.1) in
      (
        (
          IsDistinct-update_presets target.id set (λ _. refl) cleared distinct,
          ground (
            arith,
            one,
            v.1,
            some_default,
            is_one,
            is_empty-update_presets target.id set (λ _. refl) cleared,
            is_empty-update_presets current.id clear (λ _. refl) presets,
          ),
          fit_moved target.id set target cleared (λ _. refl) stays distinct fit enabled,
        ),
        only_default target.id (set target) (update_presets target.id set cleared) is_set refl one,
      )

find_key-key :
    (key : Text) (p : Preset) (presets : List Preset)
    → find_key key presets ≡ some p
    → (p.preset_key ≡ key) × (is_empty presets ≡ false)
find_key-key key p [] e = cc
find_key-key key p (r ∷ presets) e =
    ground (arith, text_eq_iff r.preset_key key, find_key-key key p presets)

-- A move of the default that commits keeps the presets so, and the default is then the preset that
-- was asked for.
pub set_default-IsDefaulted :
    (key expected_default : Text) (expected now : ℕ) (p : Preset) (db db' : Db)
    → set_default_storage_preset key expected_default expected now db ≡ committed p db'
    → IsDefaulted db.presets
    → IsDefaulted db'.presets × (find_default db'.presets ≡ some p) × (p.preset_key ≡ key)
unfolding set_default_storage_preset
set_default-IsDefaulted key expected_default expected now p db db' done v =
    elim (Option-cases (find_key key db.presets)) [
      | inl missing ↦ absurd (ground arith)
      | inr (target, found) ↦ elim (Option-cases (find_default db.presets)) [
        | inl none_yet ↦ absurd (
            ground (
              arith,
              v.1,
              no_default db.presets none_yet,
              find_key-key key target db.presets found,
            ))
        | inr (current, default) ↦ elim (Bool-cases (current.id == target.id)) [
          | inl same ↦
              let at = find_id-find_default current db.presets v.0 default in
              let stored = find_id-find_key key target db.presets v.0 found in
              let id_is : current.id ≡ target.id = (==_iff current.id target.id).0 same in
              ground
                (arith, at, stored, id_is, v, default, find_key-key key target db.presets found)
          | inr differs ↦
              let stored = find_id-find_key key target db.presets v.0 found in
              let enabled : target.enabled ≡ true = ground arith in
              let moved =
                moved-IsDefaulted current target now db.presets v default stored differs enabled in
              ground (arith, moved, find_key-key key target db.presets found)
        ]
      ]
    ]
