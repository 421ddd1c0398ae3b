-- ===== src/Database/Presets/Default.antt =====
-- The default preset among the rows of storage_presets, and updates of one row.
use ctyun_zos.Prelude.{
  ℕ, ◌+◌, ◌≡◌, refl, Bool, true, false, not, ◌||◌, Option, none, some, List, [], ◌∷◌, ◌==◌, ==_iff,
  if◌then◌else◌, all, count, arith, Bool-cases, inl, inr,
}
use ctyun_zos.Data.{Preset}
use ctyun_zos.Database.Presets.{update_presets, has_preset, is_empty}

-- No identifier is listed twice.
abbrev pub IsDistinct : List Preset → Type 0
IsDistinct [] = Unit {0}
IsDistinct (p ∷ presets) = (has_preset p.id presets ≡ false) × IsDistinct presets

abbrev pub defaults : List Preset → ℕ
defaults presets = count (λ (p : Preset). p.is_default) presets

abbrev pub is_fit : Preset → Bool
is_fit p = not p.is_default || p.enabled

abbrev pub IsDefaulted : List Preset → Type 0
IsDefaulted presets =
    IsDistinct presets
    × ((if is_empty presets then 0 else 1) ≡ defaults presets)
    × (all is_fit presets ≡ true)

abbrev pub find_id : ℕ → List Preset → Option Preset
find_id i [] = none
find_id i (p ∷ presets) = if p.id == i then some p else find_id i presets

abbrev pub weight : Option Preset → ℕ
weight none = 0
weight (some p) = if p.is_default then 1 else 0

abbrev pub map_preset : (Preset → Preset) → Option Preset → Option Preset
map_preset f none = none
map_preset f (some p) = some (f p)

module _ (i : ℕ) (f : Preset → Preset) (keeps : (p : Preset) → (f p).id ≡ p.id) where
  pub has_preset-update_presets :
      (j : ℕ) (presets : List Preset)
      → has_preset j (update_presets i f presets) ≡ has_preset j presets
  has_preset-update_presets j [] = refl
  has_preset-update_presets j (p ∷ presets) =
      ground (arith, keeps p, has_preset-update_presets j presets)

  pub IsDistinct-update_presets :
      (presets : List Preset) → IsDistinct presets → IsDistinct (update_presets i f presets)
  IsDistinct-update_presets [] d = tt
  IsDistinct-update_presets (p ∷ presets) d = ground (
    arith,
    keeps p,
    has_preset-update_presets p.id presets,
    IsDistinct-update_presets presets d.1,
  )

  pub find_id-update_presets :
      (j : ℕ) (presets : List Preset)
      → find_id j (update_presets i f presets)
        ≡ (if i == j then map_preset f (find_id j presets) else find_id j presets)
  find_id-update_presets j [] = ground arith
  find_id-update_presets j (p ∷ presets) = ground (arith, keeps p, find_id-update_presets j presets)

  unchanged :
      (presets : List Preset) → has_preset i presets ≡ false → update_presets i f presets ≡ presets
  unchanged [] h = refl
  unchanged (p ∷ presets) h = ground (arith, unchanged presets)

  pub defaults-update_presets :
      (presets : List Preset)
      → IsDistinct presets
      → defaults (update_presets i f presets) + weight (find_id i presets)
        ≡ defaults presets + weight (map_preset f (find_id i presets))
  defaults-update_presets [] d = refl
  defaults-update_presets (p ∷ presets) d =
      ground (arith, keeps p, unchanged presets, defaults-update_presets presets d.1)

  pub is_empty-update_presets :
      (presets : List Preset) → is_empty (update_presets i f presets) ≡ is_empty presets
  is_empty-update_presets [] = refl
  is_empty-update_presets (p ∷ presets) = ground arith

  pub fit_rows :
      (presets : List Preset)
      → IsDistinct presets
      → all is_fit presets ≡ true
      → ((p : Preset) → find_id i presets ≡ some p → is_fit (f p) ≡ true)
      → all is_fit (update_presets i f presets) ≡ true
  fit_rows [] d a h = refl
  fit_rows (p ∷ presets) d a h = elim (Bool-cases (p.id == i)) [
    | inl same ↦
        let fits = h p (rw same refl) in
        let id_is : p.id ≡ i = (==_iff p.id i).0 same in
        ground (arith, same, id_is, fits, unchanged presets)
    | inr differs ↦
        let fits = fit_rows presets d.1 (ground arith) (λ r e. h r (rw differs e)) in
        ground (arith, differs, fits)
  ]
