-- ===== src/Database/Logs/Retention.antt =====
-- The log under writes and maintenance: its keys, and what maintenance keeps.
use ctyun_zos.Prelude.{
  ℕ, zero, suc, ◌≡◌, ◌∙◌, ◌≤◌, ◌<◌, refl, Bool, not, ◌||◌, List, [], ◌∷◌, ltb, filter, count, All,
  arith, Bool-cases, inl, inr,
}
use ctyun_zos.Database.Logs.{
  LogRow, LogTable, write_log, is_deletion_event, keep_newest, maintain_logs,
}

-- Every key is below the one before it.
abbrev pub IsNewestFirst : List LogRow → Type 0
IsNewestFirst [] = Unit {0}
IsNewestFirst (r ∷ rows) = All (λ (x : LogRow). x.id < r.id) rows × IsNewestFirst rows

abbrev pub IsKeyed : LogTable → Type 0
IsKeyed t = All (λ (x : LogRow). x.id ≤ t.sequence) t.rows × IsNewestFirst t.rows

pub All-filter :
    {A : Type 0} (P : A → Type 0) (test : A → Bool) (xs : List A)
    → All P xs
    → All P (filter test xs)
All-filter P test [] h = tt
All-filter P test (x ∷ xs) h = elim (Bool-cases (test x)) [
  | inl e ↦ rw e (h.0, All-filter P test xs h.1)
  | inr e ↦ rw e (All-filter P test xs h.1)
]

pub IsNewestFirst-filter :
    (test : LogRow → Bool) (rows : List LogRow)
    → IsNewestFirst rows
    → IsNewestFirst (filter test rows)
IsNewestFirst-filter test [] h = tt
IsNewestFirst-filter test (r ∷ rows) h = elim (Bool-cases (test r)) [
  | inl e ↦
      rw e
        (All-filter (λ (x : LogRow). x.id < r.id) test rows h.0, IsNewestFirst-filter test rows h.1)
  | inr e ↦ rw e (IsNewestFirst-filter test rows h.1)
]

All-weaken :
    (n : ℕ) (rows : List LogRow)
    → All (λ (x : LogRow). x.id ≤ n) rows
    → All (λ (x : LogRow). x.id < suc n) rows × All (λ (x : LogRow). x.id ≤ suc n) rows
All-weaken n [] h = (tt, tt)
All-weaken n (r ∷ rows) h =
    let rest = All-weaken n rows h.1 in
    let at : r.id ≤ n = h.0 in ((omega (arith, at), rest.0), (omega (arith, at), rest.1))

-- Writing a record keeps the keys in order, the newest first.
pub write_log-IsKeyed : (r : LogRow) (t : LogTable) → IsKeyed t → IsKeyed (write_log r t)
unfolding write_log
write_log-IsKeyed r t h =
    let rest = All-weaken t.sequence t.rows h.0 in ((omega arith, rest.1), (rest.0, h.1))

-- A record of a deletion.
abbrev pub deletions_of : List LogRow → List LogRow
deletions_of = filter is_deletion_event

abbrev pub others_of : List LogRow → ℕ
others_of = count (λ r. not (is_deletion_event r))

keep_newest_lem :
    (n : ℕ) (rows : List LogRow)
    → (deletions_of (keep_newest n rows) ≡ deletions_of rows) × (others_of (keep_newest n rows) ≤ n)
keep_newest_lem n [] = (refl, omega arith)
keep_newest_lem zero (r ∷ rows) = let (a, b) = keep_newest_lem zero rows in ground arith
keep_newest_lem (suc n) (r ∷ rows) =
    let (a, b) = keep_newest_lem (suc n) rows in let (c, d) = keep_newest_lem n rows in ground arith

unexpired :
    (cutoff : ℕ) (rows : List LogRow)
    → deletions_of (filter (λ r. is_deletion_event r || not (ltb r.created_at cutoff)) rows)
      ≡ deletions_of rows
unexpired cutoff [] = refl
unexpired cutoff (r ∷ rows) = ground (arith, unexpired cutoff rows)

-- Maintenance keeps every record of a deletion, in order, and at most the given number of others.
pub maintain_logs-bounds :
    (cutoff max : ℕ) (t : LogTable)
    → (deletions_of (maintain_logs cutoff max t).rows ≡ deletions_of t.rows)
      × (others_of (maintain_logs cutoff max t).rows ≤ max)
unfolding maintain_logs
maintain_logs-bounds cutoff max t =
    let fresh =
      filter (λ (r : LogRow). is_deletion_event r || not (ltb r.created_at cutoff)) t.rows in
    let (a, b) = keep_newest_lem max fresh in (a ∙ unexpired cutoff t.rows, b)
