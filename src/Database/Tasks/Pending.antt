-- ===== src/Database/Tasks/Pending.antt =====
-- app/database.py: the queries that find the work of a recovery round. The columns are ISO texts,
-- and SQL compares them as texts; here an instant stands for its text, by the place of the text in
-- that order. `isoformat` writes no fraction at a whole second, so the texts of the instants in one
-- second are in the order `…+00:00`, `….000001Z`, …, `….999999Z`, `…Z`.
use ctyun_zos.Prelude.{
  ℕ, ◌+◌, ◌*◌, ◌/◌, ◌%◌, Bool, true, false, ◌&&◌, ◌||◌, Option, none, some, List, [], ◌∷◌, ltb, leb,
  ◌==◌, if◌then◌else◌, filter, take,
}
use ctyun_zos.Data.{uploading, unknown, deleting, delete_unknown, Task, Db}

-- The place of the text of an instant, with `Z` at its end.
unfoldable pub text_place : ℕ → ℕ
text_place at =
    (at / 1_000_000) * 1_000_001 + (if at % 1_000_000 == 0 then 1_000_000 else at % 1_000_000)

-- With `+00:00` at its end. With a fraction its place is that of `Z`: no stored text, which ends in
-- `Z`, is between the two.
unfoldable pub offset_place : ℕ → ℕ
offset_place at = (at / 1_000_000) * 1_000_001 + at % 1_000_000

-- `column < stale`, for the place of `stale`; a NULL is before nothing.
unfoldable pub is_before : Option ℕ → ℕ → Bool
unfolding text_place
is_before none stale = false
is_before (some at) stale = ltb (text_place at) stale

unfoldable pub is_pending_upload : ℕ → Task → Bool
unfolding is_before
is_pending_upload stale t = elim t.status [
  | unknown ↦ true
  | uploading ↦ is_before (some t.created_at) stale
  | _ ↦ false
]

unfoldable pub is_pending_deletion : ℕ → Task → Bool
unfolding is_before
is_pending_deletion stale t = elim t.object_status [
  | delete_unknown ↦ true
  | deleting ↦ is_before t.delete_started_at stale
  | _ ↦ false
]

-- The text of a column, by its place.
unfoldable pub place_of : Option ℕ → Option ℕ
unfolding text_place
place_of none = none
place_of (some at) = some (text_place at)

-- ORDER BY a column, then id; SQLite puts a NULL first.
abbrev pub first_of : Option ℕ → Option ℕ → Bool → Bool
first_of none none tie = tie
first_of none (some _) tie = true
first_of (some _) none tie = false
first_of (some a) (some b) tie = ltb a b || (a == b && tie)

module _ (key : Task → Option ℕ) where
  unfoldable pub insert_row : Task → List Task → List Task
  insert_row t [] = t ∷ []
  insert_row t (r ∷ rows) =
      let later = insert_row t rows in
      if first_of (key t) (key r) (leb t.id r.id) then t ∷ r ∷ rows else r ∷ later

  unfoldable pub order_by : List Task → List Task
  unfolding insert_row
  order_by [] = []
  order_by (t ∷ rows) = insert_row t (order_by rows)

unfoldable pub pending_tasks : ℕ → ℕ → Db → List Task
unfolding order_by is_pending_upload place_of
pending_tasks stale limit db =
    take limit
      (order_by (λ t. place_of (some t.created_at)) (filter (is_pending_upload stale) db.tasks))

unfoldable pub pending_deletions : ℕ → ℕ → Db → List Task
unfolding order_by is_pending_deletion place_of
pending_deletions stale limit db =
    take limit
      (order_by (λ t. place_of t.delete_started_at) (filter (is_pending_deletion stale) db.tasks))
