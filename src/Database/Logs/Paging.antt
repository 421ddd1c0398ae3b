-- ===== src/Database/Logs/Paging.antt =====
-- Reading the log page by page.
use ctyun_zos.Prelude.{
  ℕ, zero, suc, ◌≡◌, ◌∙◌, ◌≤◌, ◌<◌, refl, sym, Bool, true, false, ◌&&◌, Option, none, some, List,
  [], ◌∷◌, ◌++◌, ◌==◌, ==_iff, length, take, drop, filter, All, arith, Bool-cases, inl, inr,
}
use mathlib.Core.Path.{ap, subst}
use ctyun_zos.Database.Logs.{
  LogRow, LogTable, LogQuery, is_selected, is_older, list_logs, last_id, read_pages,
}
use ctyun_zos.Database.Logs.Retention.{IsNewestFirst, IsKeyed, IsNewestFirst-filter}

filter-filter :
    {A : Type 0} (a b : A → Bool) (xs : List A)
    → filter (λ x. a x && b x) xs ≡ filter a (filter b xs)
filter-filter a b [] = refl
filter-filter a b (x ∷ xs) = ground (arith, filter-filter a b xs)

pub take-drop : {A : Type 0} (n : ℕ) (xs : List A) → take n xs ++ drop n xs ≡ xs
take-drop zero xs = refl
take-drop (suc n) [] = refl
take-drop (suc n) (x ∷ xs) = rw (take-drop n xs) refl

length-drop-le : {A : Type 0} (n : ℕ) (xs : List A) → length (drop n xs) ≤ length xs
length-drop-le zero xs = omega arith
length-drop-le (suc n) [] = omega arith
length-drop-le (suc n) (x ∷ xs) = omega (arith, length-drop-le n xs)

-- A page that is not full is the rest.
take_short : {A : Type 0} (n : ℕ) (xs : List A) → (length (take n xs) == n) ≡ false → take n xs ≡ xs
take_short zero xs h = ground arith
take_short (suc n) [] h = refl
take_short (suc n) (x ∷ xs) h = ground (arith, take_short n xs)

filter_older :
    (n : ℕ) (rows : List LogRow)
    → All (λ (x : LogRow). x.id < n) rows
    → filter (is_older (some n)) rows ≡ rows
filter_older n [] h = refl
filter_older n (r ∷ rows) h = ground (arith, filter_older n rows)

last_id-le :
    (n : ℕ) (r : LogRow) (rows : List LogRow)
    → IsNewestFirst (r ∷ rows)
    → last_id r (take n rows) ≤ r.id
last_id-le zero r rows h = omega arith
last_id-le (suc n) r [] h = omega arith
last_id-le (suc n) r (s ∷ rows) h =
    let rest = last_id-le n s rows h.1 in
    let below : s.id < r.id = h.0.0 in omega (arith, rest, below)

-- What is older than the end of a full page is what follows the page.
after_page :
    (n : ℕ) (r : LogRow) (rows : List LogRow)
    → IsNewestFirst (r ∷ rows)
    → length (take n rows) ≡ n
    → filter (is_older (some (last_id r (take n rows)))) (r ∷ rows) ≡ drop n rows
after_page zero r rows h full = ground (arith, filter_older r.id rows h.0)
after_page (suc n) r [] h full = ground arith
after_page (suc n) r (s ∷ rows) h full =
    let rest = after_page n s rows h.1 (ground arith) in
    let low = last_id-le n s rows h.1 in
    let below : s.id < r.id = h.0.0 in ground (arith, rest, low, below)

-- A second bound that is lower replaces the first.
lower_bound :
    (before : Option ℕ) (n : ℕ) (rows : List LogRow)
    → ((r : LogRow) → r.id < n → is_older before r ≡ true)
    → filter (is_older (some n)) rows ≡ filter (is_older (some n)) (filter (is_older before) rows)
lower_bound before n [] h = refl
lower_bound before n (r ∷ rows) h = ground (arith, h r, lower_bound before n rows h)

-- The rows that a reader is still to get.
abbrev left_of : LogQuery → LogTable → Option ℕ → List LogRow
left_of q t before = filter (is_older before) (filter (is_selected q) t.rows)

page_lem :
    (q : LogQuery) (limit : ℕ) (before : Option ℕ) (t : LogTable)
    → list_logs q limit before t ≡ take limit (left_of q t before)
unfolding list_logs
page_lem q limit before t = ap (take limit) (filter-filter (is_older before) (is_selected q) t.rows)

All-below :
    (before : Option ℕ) (r : LogRow) (rows xs : List LogRow)
    → filter (is_older before) xs ≡ r ∷ rows
    → is_older before r ≡ true
All-below before r rows [] e = ground arith
All-below before r rows (x ∷ xs) e = elim (Bool-cases (is_older before x)) [
  | inl older ↦ let same : x ≡ r = ground arith in ap (is_older before) (sym same) ∙ older
  | inr newer ↦ All-below before r rows xs (ground arith)
]

older_trans :
    (before : Option ℕ) (r s : LogRow) (n : ℕ)
    → is_older before r ≡ true
    → n ≤ r.id
    → s.id < n
    → is_older before s ≡ true
older_trans none r s n h a b = refl
older_trans (some m) r s n h a b = ground arith

-- The rows left after a full page.
left_after :
    (q : LogQuery) (t : LogTable) (before : Option ℕ) (n : ℕ) (r : LogRow) (rows : List LogRow)
    → IsNewestFirst t.rows
    → left_of q t before ≡ r ∷ rows
    → length (take n rows) ≡ n
    → left_of q t (some (last_id r (take n rows))) ≡ drop n rows
left_after q t before n r rows h e full =
    let selected = filter (is_selected q) t.rows in
    let ordered : IsNewestFirst (r ∷ rows) = subst IsNewestFirst e (
      IsNewestFirst-filter (is_older before) selected
        (IsNewestFirst-filter (is_selected q) t.rows h)) in
    let last = last_id r (take n rows) in
    let low = last_id-le n r rows ordered in
    let older = All-below before r rows selected e in
    lower_bound before last selected (λ s below. older_trans before r s last older low below)
    ∙ ap (filter (is_older (some last))) e
    ∙ after_page n r rows ordered full

-- Page by page, in pages of a positive size.
pages_from :
    (q : LogQuery) (n : ℕ) (t : LogTable) (fuel : ℕ) (before : Option ℕ) (rows : List LogRow)
    → IsNewestFirst t.rows
    → left_of q t before ≡ rows
    → length rows < fuel
    → read_pages q (suc n) t fuel before ≡ rows
unfolding read_pages
pages_from q n t zero before rows h e f = ground arith
pages_from q n t (suc fuel) before [] h e f =
    let page : list_logs q (suc n) before t ≡ [] =
      page_lem q (suc n) before t ∙ ap (take (suc n)) e in
    ground arith
pages_from q n t (suc fuel) before (r ∷ rows) h e f =
    let page : list_logs q (suc n) before t ≡ r ∷ take n rows =
      page_lem q (suc n) before t ∙ ap (take (suc n)) e in
    elim (Bool-cases (length (take n rows) == n)) [
      | inl full ↦
          let next = last_id r (take n rows) in
          let filled : length (take n rows) ≡ n = (==_iff (length (take n rows)) n).0 full in
          let short = length-drop-le n rows in
          let rest =
            pages_from q n t fuel (some next) (drop n rows) h
              (left_after q t before n r rows h e filled) (omega (arith, short, f)) in
          let whole = take-drop n rows in ground arith
      | inr part ↦ let all_of = take_short n rows part in ground arith
    ]

-- A reader who starts without `before_id` and follows `next_before_id` until it is missing, in
-- pages of any positive size, gets every record that meets the conditions exactly once, the
-- newest first. Fuel for one more page than there are records is enough. (The keys of the log are
-- in order, as every write keeps them.)
pub read_pages-all :
    (q : LogQuery) (n : ℕ) (t : LogTable) (fuel : ℕ)
    → IsKeyed t
    → length t.rows < fuel
    → read_pages q (suc n) t fuel none ≡ filter (is_selected q) t.rows
read_pages-all q n t fuel h f =
    pages_from q n t fuel none (filter (is_selected q) t.rows) h.1
      (all_older (filter (is_selected q) t.rows))
      (omega (arith, length-filter-le (is_selected q) t.rows, f))
  where
    all_older : (rows : List LogRow) → filter (is_older none) rows ≡ rows
    all_older [] = refl
    all_older (r ∷ rows) = rw (all_older rows) refl

    length-filter-le :
        {A : Type 0} (test : A → Bool) (xs : List A) → length (filter test xs) ≤ length xs
    length-filter-le test [] = omega arith
    length-filter-le test (x ∷ xs) = ground (arith, length-filter-le test xs)
