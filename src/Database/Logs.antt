-- ===== src/Database/Logs.antt =====
-- app/database.py: service_logs with `write_log`, `list_logs` and its part of `maintain`; and the
-- paging of `dashboard_logs` in app/main.py. The table has its rows by their key, the newest first.
pub mod Paging
pub mod Retention
use ctyun_zos.Prelude.{
  ℕ, zero, suc, ◌+◌, Bool, true, false, not, ◌&&◌, ◌||◌, Option, none, some, List, [], ◌∷◌, ◌++◌,
  ltb, leb, ◌==◌, if◌then◌else◌, length, take, drop, filter, Text, codes, text_eq,
}

pub record LogRow : Type 0 where
  pub id : ℕ
  pub created_at : ℕ
  pub level_no : ℕ
  pub event : Text
  pub request_id : Option Text
  pub task_id : Option Text
  pub error_code : Option Text

-- The rows, and the last key that AUTOINCREMENT has given.
pub record LogTable : Type 0 where
  pub rows : List LogRow
  pub sequence : ℕ

unfoldable pub write_log : LogRow → LogTable → LogTable
write_log r t = record {
  rows = record r { id = suc t.sequence } ∷ t.rows;
  sequence = suc t.sequence;
}

-- The conditions of `list_logs` but the one on `before_id`. A missing filter admits every row.
pub record LogQuery : Type 0 where
  pub min_level : ℕ
  pub from_time : Option ℕ
  pub to_time : Option ℕ
  pub event : Option Text
  pub request_id : Option Text
  pub task_id : Option Text
  pub error_code : Option Text

abbrev pub is_equal : Option Text → Option Text → Bool
is_equal none value = true
is_equal (some wanted) none = false
is_equal (some wanted) (some value) = text_eq value wanted

abbrev pub is_from : Option ℕ → ℕ → Bool
is_from none at = true
is_from (some start) at = leb start at

abbrev pub is_until : Option ℕ → ℕ → Bool
is_until none at = true
is_until (some end) at = ltb at end

abbrev pub is_selected : LogQuery → LogRow → Bool
is_selected q r =
    leb q.min_level r.level_no
    && is_from q.from_time r.created_at
    && is_until q.to_time r.created_at
    && is_equal q.event (some r.event)
    && is_equal q.request_id r.request_id
    && is_equal q.task_id r.task_id
    && is_equal q.error_code r.error_code

-- id < before_id
abbrev pub is_older : Option ℕ → LogRow → Bool
is_older none r = true
is_older (some before) r = ltb r.id before

unfoldable pub list_logs : LogQuery → ℕ → Option ℕ → LogTable → List LogRow
list_logs q limit before t = take limit (filter (λ r. is_older before r && is_selected q r) t.rows)

abbrev pub last_id : LogRow → List LogRow → ℕ
last_id r [] = r.id
last_id r (s ∷ rows) = last_id s rows

-- items[-1]["id"] if len(items) == limit else None
abbrev pub next_before_id : ℕ → List LogRow → Option ℕ
next_before_id limit [] = none
next_before_id limit (r ∷ rows) = if length (r ∷ rows) == limit then some (last_id r rows) else none

-- A client that reads page after page, each from the `next_before_id` of the one before, on fuel.
unfoldable pub read_pages : LogQuery → ℕ → LogTable → ℕ → Option ℕ → List LogRow
unfolding list_logs
read_pages q limit t zero before = []
read_pages q limit t (suc fuel) before =
    let items = list_logs q limit before t in
    elim (next_before_id limit items) [
      | none ↦ items
      | some next ↦ items ++ read_pages q limit t fuel (some next)
    ]

-- LIKE: `_` is any character, and ASCII letters have no case.
abbrev pub ascii_lower : ℕ → ℕ
ascii_lower c = if leb 65 c && leb c 90 then c + 32 else c

abbrev pub like_prefix : Text → Text → Bool
like_prefix [] s = true
like_prefix (p ∷ ps) [] = false
like_prefix (p ∷ ps) (c ∷ s) = (p == 95 || ascii_lower p == ascii_lower c) && like_prefix ps s

-- event LIKE 'object_delete_%'
abbrev pub is_deletion_event : LogRow → Bool
is_deletion_event r = like_prefix (codes "object_delete_") r.event

-- ORDER BY id DESC LIMIT -1 OFFSET max, of the rows that are no deletion's, are deleted.
abbrev pub keep_newest : ℕ → List LogRow → List LogRow
keep_newest n [] = []
keep_newest zero (r ∷ rows) =
    let rest = keep_newest zero rows in if is_deletion_event r then r ∷ rest else rest
keep_newest (suc n) (r ∷ rows) =
    let same = keep_newest (suc n) rows in
    let fewer = keep_newest n rows in r ∷ (if is_deletion_event r then same else fewer)

-- The two DELETEs of `maintain` on service_logs.
unfoldable pub maintain_logs : ℕ → ℕ → LogTable → LogTable
maintain_logs cutoff max t = record t {
  rows =
      keep_newest max (filter (λ r. is_deletion_event r || not (ltb r.created_at cutoff)) t.rows);
}
