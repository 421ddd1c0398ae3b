-- ===== src/EventLog/Redaction.antt =====
-- What `_clean` leaves of a record (app/eventlog.py).
use ctyun_zos.Prelude.{
  ℕ, zero, suc, ◌≡◌, refl, ◌⊎◌, inl, inr, Bool, true, false, ◌||◌, List, [], ◌∷◌, if◌then◌else◌,
  any, take, arith, Text, Bool-cases,
}
use ctyun_zos.EventLog.{
  Value, Entries, Values, nothing, scalar, text, dict, items, other, no_entries, entry, no_values,
  value, Part, letter, maybe_any, matches_here, search_part, sensitive_patterns, is_sensitive,
  redacted, clean_value, clean_entries, clean_items, clean,
}

-- What matches the beginning of a text matches the text.
matches_here-take :
    (parts : List Part) (n : ℕ) (s : Text)
    → matches_here parts (take n s) ≡ true
    → matches_here parts s ≡ true
matches_here-take [] n s h = refl
matches_here-take (letter c ∷ parts) zero s h = ground arith
matches_here-take (letter c ∷ parts) (suc n) [] h = h
matches_here-take (letter c ∷ parts) (suc n) (d ∷ s) h = ground (arith, matches_here-take parts n s)
matches_here-take (maybe_any ∷ parts) zero [] h = h
matches_here-take (maybe_any ∷ parts) zero (d ∷ s) h =
    ground (arith, matches_here-take parts zero (d ∷ s))
matches_here-take (maybe_any ∷ parts) (suc n) [] h = h
matches_here-take (maybe_any ∷ parts) (suc n) (d ∷ s) h =
    ground (arith, matches_here-take parts (suc n) (d ∷ s), matches_here-take parts n s)

search_empty :
    (parts : List Part) (s : Text) → matches_here parts [] ≡ true → search_part parts s ≡ true
search_empty parts [] h = h
search_empty parts (d ∷ s) h = let found = matches_here-take parts zero (d ∷ s) h in ground arith

search_part-take :
    (parts : List Part) (n : ℕ) (s : Text)
    → search_part parts (take n s) ≡ true
    → search_part parts s ≡ true
search_part-take parts zero s h = search_empty parts s h
search_part-take parts (suc n) [] h = h
search_part-take parts (suc n) (d ∷ s) h =
    ground (arith, matches_here-take parts (suc n) (d ∷ s), search_part-take parts n s)

any-take :
    (patterns : List (List Part)) (n : ℕ) (key : Text)
    → any (λ parts. search_part parts (take n key)) patterns ≡ true
    → any (λ parts. search_part parts key) patterns ≡ true
any-take [] n key h = h
any-take (p ∷ patterns) n key h =
    either (search_part p (take n key)) (search_part p key)
      (any (λ parts. search_part parts (take n key)) patterns)
      (any (λ parts. search_part parts key) patterns) (search_part-take p n key)
      (any-take patterns n key) h
  where
    either :
        (a a' b b' : Bool)
        → (a ≡ true → a' ≡ true)
        → (b ≡ true → b' ≡ true)
        → (a || b) ≡ true
        → (a' || b') ≡ true
    either a a' b b' f g h = ground (arith, f, g)

is_sensitive-take :
    (n : ℕ) (key : Text) → is_sensitive (take n key) ≡ true → is_sensitive key ≡ true
unfolding is_sensitive
is_sensitive-take n key h = any-take sensitive_patterns n key h

-- At every depth, an entry under a sensitive key is the mark of redaction.
unfoldable mutual
  pub IsRedacted : Value → Type 0
  IsRedacted (dict entries) = AreRedacted entries
  IsRedacted (items list) = ItemsRedacted list
  IsRedacted _ = Unit {0}

  pub AreRedacted : Entries → Type 0
  AreRedacted no_entries = Unit {0}
  AreRedacted (entry key v entries) =
      ((is_sensitive key ≡ false) ⊎ (v ≡ redacted)) × IsRedacted v × AreRedacted entries

  pub ItemsRedacted : Values → Type 0
  ItemsRedacted no_values = Unit {0}
  ItemsRedacted (value v list) = IsRedacted v × ItemsRedacted list

of_key :
    (key : Text) (c : Value)
    → (is_sensitive (take 100 key) ≡ false)
      ⊎ ((if is_sensitive key then redacted else c) ≡ redacted)
of_key key c = elim (Bool-cases (is_sensitive key)) [
  | inl secret ↦ inr (rw secret refl)
  | inr open_key ↦ elim (Bool-cases (is_sensitive (take 100 key))) [
    | inl short ↦ let found = is_sensitive-take 100 key short in ground arith
    | inr short ↦ inl short
  ]
]

of_value :
    (key : Text) (c : Value) → IsRedacted c → IsRedacted (if is_sensitive key then redacted else c)
unfolding IsRedacted
of_value key c h = elim (Bool-cases (is_sensitive key)) [
  | inl secret ↦ rw secret tt
  | inr open_key ↦ rw open_key h
]

mutual
  unfolding IsRedacted clean_value

  clean_value-IsRedacted : (v : Value) → IsRedacted (clean_value v)
  clean_value-IsRedacted nothing = tt
  clean_value-IsRedacted (scalar n) = tt
  clean_value-IsRedacted (text s) = tt
  clean_value-IsRedacted (dict entries) = clean_entries-AreRedacted entries
  clean_value-IsRedacted (items list) = clean_items-ItemsRedacted 100 list
  clean_value-IsRedacted (other s) = tt

  clean_entries-AreRedacted : (entries : Entries) → AreRedacted (clean_entries entries)
  clean_entries-AreRedacted no_entries = tt
  clean_entries-AreRedacted (entry key v entries) = (
    of_key key (clean_value v),
    of_value key (clean_value v) (clean_value-IsRedacted v),
    clean_entries-AreRedacted entries,
  )

  clean_items-ItemsRedacted : (n : ℕ) (list : Values) → ItemsRedacted (clean_items n list)
  clean_items-ItemsRedacted n no_values = tt
  clean_items-ItemsRedacted zero (value v list) = tt
  clean_items-ItemsRedacted (suc n) (value v list) =
      (clean_value-IsRedacted v, clean_items-ItemsRedacted n list)

-- In a cleaned value, at every depth of objects and lists, what stands under a key that matches
-- the pattern of secrets is the mark of redaction and nothing else, also where the key is cut at
-- 100 characters.
pub clean-IsRedacted : (key : Text) (v : Value) → IsRedacted (clean key v)
unfolding clean
clean-IsRedacted key v = of_value key (clean_value v) (clean_value-IsRedacted v)
