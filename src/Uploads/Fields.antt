-- ===== src/Uploads/Fields.antt =====
-- app/uploads.py: the fields of an upload that come from its sender, as they are stored.
pub mod Safe
use ctyun_zos.Prelude.{
  ℕ, ◌+◌, ◌≡◌, ◌≢◌, ◌≤◌, ◌⊎◌, inl, inr, refl, Bool, true, false, not, ◌&&◌, ◌||◌, Option, none,
  some, List, [], ◌∷◌, ◌++◌, map, arith, ltb, leb, ◌==◌, if◌then◌else◌, length, take, filter, any,
  all, All, length-take-le, Text, codes, Bool-cases,
}

-- s.rsplit(c, 1)[-1]
abbrev pub last_part : ℕ → Text → Text
last_part c [] = []
last_part c (d ∷ s) =
    let rest = last_part c s in if any (λ x. x == c) s then rest else (if d == c then s else d ∷ s)

-- s.replace("\\", "/")
abbrev pub to_slashes : Text → Text
to_slashes = map (λ c. if c == 92 then 47 else c)

-- char >= " " and char != "\x7f"
abbrev pub is_kept : ℕ → Bool
is_kept c = leb 32 c && not (c == 127)

-- value or default
abbrev pub nonempty_or : Text → Text → Text
nonempty_or [] d = d
nonempty_or (c ∷ s) d = c ∷ s

abbrev pub given : Option Text → Text
given none = codes "unnamed"
given (some s) = nonempty_or s (codes "unnamed")

-- `_filename`
unfoldable pub safe_filename : Option Text → Text
safe_filename value =
    nonempty_or (take 255 (filter is_kept (last_part 47 (to_slashes (given value)))))
      (codes "unnamed")

-- str.lower, as far as it can give a character of `[a-z0-9]`: the Kelvin sign becomes `k`.
abbrev pub lower_char : ℕ → ℕ
lower_char c = if leb 65 c && leb c 90 then c + 32 else (if c == 8490 then 107 else c)

abbrev pub is_alphanumeric : ℕ → Bool
is_alphanumeric c = (leb 97 c && leb c 122) || (leb 48 c && leb c 57)

-- SAFE_EXTENSION.fullmatch
abbrev pub matches_extension : Text → Bool
matches_extension s = leb 1 (length s) && leb (length s) 10 && all is_alphanumeric s

-- filename.rsplit(".", 1)[1].lower() if "." in filename else ""
abbrev pub suffix_part : Text → Text
suffix_part filename =
    if any (λ c. c == 46) filename then map lower_char (last_part 46 filename) else []

-- `_extension`
unfoldable pub safe_extension : Text → Text
safe_extension filename =
    let suffix = suffix_part filename in if matches_extension suffix then suffix else []

-- `_content_type`
abbrev pub is_content_type : Text → Bool
is_content_type s = any (λ c. c == 47) s && leb (length s) 255 && not (any (λ c. ltb c 32) s)

unfoldable pub safe_content_type : Option Text → Text
safe_content_type none = codes "application/octet-stream"
safe_content_type (some value) =
    if is_content_type value then value else codes "application/octet-stream"

abbrev pub last_of : ℕ → Text → ℕ
last_of c [] = c
last_of c (d ∷ s) = last_of d s

abbrev pub is_key_char : ℕ → Bool
is_key_char c = is_alphanumeric c || c == 45

-- SAFE_PRESET_KEY.fullmatch
unfoldable pub matches_preset_key : Text → Bool
matches_preset_key [] = false
matches_preset_key (c ∷ s) =
    is_alphanumeric c && all is_key_char s && leb (length s) 63 && is_alphanumeric (last_of c s)

-- f"{date}/{task_id}{'.' + extension if extension else ''}"
abbrev pub suffix_of : Text → Text
suffix_of [] = []
suffix_of (c ∷ s) = 46 ∷ c ∷ s

unfoldable pub object_key_of : Text → Text → Text → Text
object_key_of date task_id extension = date ++ (47 ∷ (task_id ++ suffix_of extension))
