-- ===== src/Uploads/Fields/Safe.antt =====
-- What a sender's file name, extension and content type can be once they are stored.
use ctyun_zos.Prelude.{
  ℕ, zero, suc, ◌+◌, ◌≡◌, ◌≢◌, ◌≤◌, inl, inr, refl, true, false, Option, none, some, [], ◌∷◌, arith,
  ◌==◌, if◌then◌else◌, length, take, filter, any, all, All, length-take-le, Text, codes, Bool-cases,
}
use ctyun_zos.Uploads.Fields.{
  last_part, to_slashes, is_kept, nonempty_or, given, safe_filename, is_alphanumeric,
  matches_extension, safe_extension, suffix_part, is_content_type, safe_content_type, suffix_of,
}

-- A character that a stored name may have: no control character and no separator of a path.
abbrev pub IsNameChar : ℕ → Type 0
IsNameChar c = (32 ≤ c) × (c ≢ 127) × (c ≢ 47) × (c ≢ 92)

to_slashes-free : (s : Text) → All (λ c. c ≢ 92) (to_slashes s)
to_slashes-free [] = tt
to_slashes-free (c ∷ s) = ground (arith, to_slashes-free s)

free_of_any : (c : ℕ) (s : Text) → any (λ x. x == c) s ≡ false → All (λ x. x ≢ c) s
free_of_any c [] h = tt
free_of_any c (d ∷ s) h = ground (arith, free_of_any c s)

last_part-keeps : (c e : ℕ) (s : Text) → All (λ x. x ≢ e) s → All (λ x. x ≢ e) (last_part c s)
last_part-keeps c e [] h = tt
last_part-keeps c e (d ∷ s) h = ground (arith, last_part-keeps c e s)

last_part-free : (c : ℕ) (s : Text) → All (λ x. x ≢ c) (last_part c s)
last_part-free c [] = tt
last_part-free c (d ∷ s) = ground (arith, free_of_any c s, last_part-free c s)

kept_chars :
    (s : Text) → All (λ x. x ≢ 92) s → All (λ x. x ≢ 47) s → All IsNameChar (filter is_kept s)
kept_chars [] a b = tt
kept_chars (c ∷ s) a b = ground (arith, kept_chars s a.1 b.1)

taken_chars : (n : ℕ) (s : Text) → All IsNameChar s → All IsNameChar (take n s)
taken_chars zero s h = tt
taken_chars (suc n) [] h = tt
taken_chars (suc n) (c ∷ s) h = (h.0, taken_chars n s h.1)

-- What a stored name is.
abbrev pub IsName : Text → Type 0
IsName s = (s ≢ []) × (length s ≤ 255) × All IsNameChar s

IsName-nonempty_or :
    (s : Text) → length s ≤ 255 → All IsNameChar s → IsName (nonempty_or s (codes "unnamed"))
IsName-nonempty_or [] l h = (ground arith, ground arith, ground arith)
IsName-nonempty_or (c ∷ s) l h = (ground arith, l, h)

-- Whatever name a sender gives, and if none is given, the stored name is not empty, has at most
-- 255 characters, and has no control character, no DEL, no slash and no backslash.
pub safe_filename-IsName : (value : Option Text) → IsName (safe_filename value)
unfolding safe_filename
safe_filename-IsName value =
    let name = last_part 47 (to_slashes (given value)) in
    let chars =
      kept_chars name
        (last_part-keeps 47 92 (to_slashes (given value)) (to_slashes-free (given value)))
        (last_part-free 47 (to_slashes (given value))) in
    IsName-nonempty_or (take 255 (filter is_kept name)) (length-take-le 255 (filter is_kept name))
      (taken_chars 255 (filter is_kept name) chars)

all_alphanumeric : (s : Text) → all is_alphanumeric s ≡ true → All (λ c. is_alphanumeric c ≡ true) s
all_alphanumeric [] h = tt
all_alphanumeric (c ∷ s) h = ground (arith, all_alphanumeric s)

short : (s : Text) → matches_extension s ≡ true → length s ≤ 10
short s h = ground arith

length-suffix_of : (s : Text) → length (suffix_of s) ≤ length s + 1
length-suffix_of [] = omega arith
length-suffix_of (c ∷ s) = omega arith

matched_bounds :
    (s : Text)
    → let x = if matches_extension s then s else [] in
      (length x ≤ 10) × All (λ c. is_alphanumeric c ≡ true) x × (length (suffix_of x) ≤ 11)
matched_bounds s = elim (Bool-cases (matches_extension s)) [
  | inr bad ↦ rw bad (ground arith, tt, ground arith)
  | inl good ↦ rw good (
    ground arith,
    all_alphanumeric s (ground arith),
    omega (arith, length-suffix_of s, short s good),
  )
]

-- The extension that goes into an object's key is empty or is 1 to 10 characters of `[a-z0-9]`,
-- so a sender's file name adds at most 11 characters to the key.
pub safe_extension-bounds :
    (filename : Text)
    → (length (safe_extension filename) ≤ 10)
      × All (λ c. is_alphanumeric c ≡ true) (safe_extension filename)
      × (length (suffix_of (safe_extension filename)) ≤ 11)
unfolding safe_extension
safe_extension-bounds filename = matched_bounds (suffix_part filename)

-- A stored content type has a slash, at most 255 characters, and no control character.
pub safe_content_type-IsContentType :
    (value : Option Text) → is_content_type (safe_content_type value) ≡ true
unfolding safe_content_type
safe_content_type-IsContentType none = refl
safe_content_type-IsContentType (some value) = elim (Bool-cases (is_content_type value)) [
  | inl good ↦ rw (good, good) refl
  | inr bad ↦ rw bad refl
]
