-- ===== src/Database/Migrations/Copies.antt =====
-- INSERT … SELECT between the versions of a table.
use ctyun_zos.Prelude.{
  ◌≡◌, refl, Bool, true, not, ◌&&◌, none, some, List, [], ◌∷◌, map, any, all, if◌then◌else◌, arith,
}
use ctyun_zos.Database.Migrations.{insert_rows}

-- No row clashes with a later one.
abbrev pub distinct {ℓ} : {A : Type ℓ} → (A → A → Bool) → List A → Bool
distinct clash [] = true
distinct clash (x ∷ xs) = not (any (clash x) xs) && distinct clash xs

module _ {A : Type 0} (clash : A → A → Bool) (check : A → Bool) where
  -- The statement copies every row, or fails.
  pub insert_rows_lem :
      (xs : List A)
      → insert_rows clash check xs ≡ (if distinct clash xs && all check xs then some xs else none)
  unfolding insert_rows
  insert_rows_lem [] = refl
  insert_rows_lem (x ∷ xs) = rw (insert_rows_lem xs) (ground arith)

  -- A copy of rows that do not clash, each of which passes the CHECK, succeeds.
  pub insert_rows-distinct :
      (xs : List A)
      → distinct clash xs ≡ true
      → all check xs ≡ true
      → insert_rows clash check xs ≡ some xs
  insert_rows-distinct xs d a = rw (insert_rows_lem xs, d, a) refl

-- Rows that a conversion maps keep their differences, if it keeps the keys.
module _ {A B : Type 0} (f : A → B) (clash : A → A → Bool) (clash' : B → B → Bool)
    (keeps : (a b : A) → clash' (f a) (f b) ≡ clash a b) where
  any-map : (a : A) (xs : List A) → any (clash' (f a)) (map f xs) ≡ any (clash a) xs
  any-map a [] = refl
  any-map a (x ∷ xs) = rw (keeps a x) (rw (any-map a xs) refl)

  pub distinct-map : (xs : List A) → distinct clash' (map f xs) ≡ distinct clash xs
  distinct-map [] = refl
  distinct-map (x ∷ xs) = rw (any-map x xs) (rw (distinct-map xs) refl)

module _ {A B : Type 0} (f : A → B) where
  pub all-map :
      (check : A → Bool) (check' : B → Bool)
      → ((a : A) → check a ≡ true → check' (f a) ≡ true)
      → (xs : List A) → all check xs ≡ true
      → all check' (map f xs) ≡ true
  all-map check check' keeps [] h = refl
  all-map check check' keeps (x ∷ xs) h = ground (arith, keeps x, all-map check check' keeps xs)

pub all-unchecked {ℓ} : {A : Type ℓ} → (xs : List A) → all (λ (x : A). true) xs ≡ true
all-unchecked [] = refl
all-unchecked (x ∷ xs) = all-unchecked xs

-- The same for the rows that a conversion gives.
module _ {A B : Type 0} (f : A → B) (clash : A → A → Bool) (clash' : B → B → Bool)
    (check' : B → Bool) (keeps : (a b : A) → clash' (f a) (f b) ≡ clash a b) where
  pub insert_rows-map :
      (xs : List A)
      → distinct clash xs ≡ true
      → all check' (map f xs) ≡ true
      → insert_rows clash' check' (map f xs) ≡ some (map f xs)
  insert_rows-map xs d a =
      insert_rows-distinct clash' check' (map f xs) (rw (distinct-map f clash clash' keeps xs) d) a
