-- ===== src/EventLog.antt =====
-- app/eventlog.py: `_clean`, which takes secrets and control characters out of a log record, and
-- `emit` with the state of the logger.
pub mod Redaction
use ctyun_zos.Prelude.{
  ℕ, zero, suc, ◌+◌, Bool, true, false, not, ◌&&◌, ◌||◌, Option, none, some, List, [], ◌∷◌, leb,
  ◌==◌, if◌then◌else◌, any, take, filter, Text, codes,
}

-- A value of `details`; `other` is one of another type, by its `str`.
mutual
  pub data Value : Type 0 where
    nothing : Value
    scalar : ℕ → Value
    text : Text → Value
    dict : Entries → Value
    items : Values → Value
    other : Text → Value

  pub data Entries : Type 0 where
    no_entries : Entries
    entry : Text → Value → Entries → Entries

  pub data Values : Type 0 where
    no_values : Values
    value : Value → Values → Values

-- re.IGNORECASE, as far as it can give an ASCII letter.
abbrev pub fold_case : ℕ → ℕ
fold_case c =
    if leb 65 c && leb c 90
    then c + 32
    else (if c == 304 || c == 305
        then 105
        else (if c == 383 then 115 else (if c == 8490 then 107 else c)))

-- A pattern: a letter, or `.?`.
pub data Part : Type 0 where
  letter : ℕ → Part
  maybe_any : Part

abbrev pub letters : Text → List Part → List Part
letters [] rest = rest
letters (c ∷ s) rest = letter c ∷ letters s rest

abbrev pub matches_here : List Part → Text → Bool
matches_here [] s = true
matches_here (letter c ∷ parts) [] = false
matches_here (letter c ∷ parts) (d ∷ s) = fold_case d == c && matches_here parts s
matches_here (maybe_any ∷ parts) [] = matches_here parts []
matches_here (maybe_any ∷ parts) (d ∷ s) =
    matches_here parts (d ∷ s) || (not (d == 10) && matches_here parts s)

-- pattern.search(s)
abbrev pub search_part : List Part → Text → Bool
search_part parts [] = matches_here parts []
search_part parts (d ∷ s) = matches_here parts (d ∷ s) || search_part parts s

abbrev pub two_words : Text → Text → List Part
two_words a b = letters a (maybe_any ∷ letters b [])

abbrev pub sensitive_patterns : List (List Part)
sensitive_patterns =
    two_words (codes "access") (codes "key")
    ∷ two_words (codes "secret") (codes "key")
    ∷ two_words (codes "admin") (codes "key")
    ∷ two_words (codes "client") (codes "key")
    ∷ letters (codes "authorization") []
    ∷ letters (codes "cookie") []
    ∷ letters (codes "credential") []
    ∷ letters (codes "cipher") []
    ∷ letters (codes "password") []
    ∷ letters (codes "token") []
    ∷ []

-- SENSITIVE.search(key)
unfoldable pub is_sensitive : Text → Bool
is_sensitive key = any (λ parts. search_part parts key) sensitive_patterns

abbrev pub redacted : Value
redacted = text (codes "[REDACTED]")

-- char >= " " or char in "\t"
abbrev pub is_kept_char : ℕ → Bool
is_kept_char c = leb 32 c || c == 9

unfoldable mutual
  -- `_clean` of a value whose key is not sensitive.
  pub clean_value : Value → Value
  clean_value nothing = nothing
  clean_value (scalar n) = scalar n
  clean_value (text s) = text (take 1_000 (filter is_kept_char s))
  clean_value (dict entries) = dict (clean_entries entries)
  clean_value (items list) = items (clean_items 100 list)
  clean_value (other s) = text (take 1_000 s)

  pub clean_entries : Entries → Entries
  clean_entries no_entries = no_entries
  clean_entries (entry key v entries) =
      let c = clean_value v in
      entry (take 100 key) (if is_sensitive key then redacted else c) (clean_entries entries)

  -- value[:100]
  pub clean_items : ℕ → Values → Values
  clean_items n no_values = no_values
  clean_items zero (value v list) = no_values
  clean_items (suc n) (value v list) = value (clean_value v) (clean_items n list)

-- `_clean`
unfoldable pub clean : Text → Value → Value
unfolding clean_value is_sensitive
clean key v = if is_sensitive key then redacted else clean_value v

-- The logger's fields, and the two ends of `write_log`, which is called from NOTIFY on.
pub record LoggerState : Type 0 where
  pub degraded : Bool
  pub last_failure_at : Option ℕ
  pub last_success_at : Option ℕ

abbrev pub notify_level : ℕ
notify_level = 25

abbrev pub after_write : Bool → ℕ → LoggerState → LoggerState
after_write true now l = record l { degraded = false; last_success_at = some now }
after_write false now l = record l { degraded = true; last_failure_at = some now }

-- `emit`, for a level and whether the database takes the record.
unfoldable pub emit_log : ℕ → Bool → ℕ → LoggerState → LoggerState
emit_log level is_written now l = if leb notify_level level then after_write is_written now l else l
