-- ===== src/Database/Tasks/Rows.antt =====
-- Rows found and updated by their primary key.
use ctyun_zos.Prelude.{ℕ, ◌≡◌, Option, none, some, List, [], ◌∷◌, arith, ◌==◌, if◌then◌else◌}
use ctyun_zos.Data.{Task}

-- SELECT … WHERE id=?
unfoldable pub find_row : ℕ → List Task → Option Task
find_row i [] = none
find_row i (t ∷ rows) = if t.id == i then some t else find_row i rows

-- UPDATE … WHERE id=?
unfoldable pub update_rows : ℕ → (Task → Task) → List Task → List Task
update_rows i f [] = []
update_rows i f (t ∷ rows) = (if t.id == i then f t else t) ∷ update_rows i f rows

abbrev pub map_row : (Task → Task) → Option Task → Option Task
map_row f none = none
map_row f (some t) = some (f t)

-- An update that keeps the key is seen at its own row and at no other.
pub find_row-update_rows :
    (i j : ℕ) (f : Task → Task) (rows : List Task)
    → ((t : Task) → (f t).id ≡ t.id)
    → find_row j (update_rows i f rows)
      ≡ (if i == j then map_row f (find_row j rows) else find_row j rows)
unfolding find_row update_rows
find_row-update_rows i j f [] keeps = ground arith
find_row-update_rows i j f (t ∷ rows) keeps =
    ground (arith, keeps t, find_row-update_rows i j f rows keeps)
