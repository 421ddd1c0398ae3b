-- ===== src/Database/Tasks/Usage.antt =====
-- app/database.py: `quota_usage`, which groups the counted rows by their caller.
use ctyun_zos.Prelude.{
  ℕ, suc, ◌+◌, ◌≡◌, ◌<◌, refl, Option, none, some, List, [], ◌∷◌, ltb, ◌==◌, ==_iff, if◌then◌else◌,
  get_or, All, arith, Bool-cases, inl, inr,
}
use mathlib.Core.Path.{ap}
use ctyun_zos.Data.{Task, Db}
use ctyun_zos.Database.Tasks.{counts_for_quota, object_count, used_bytes}

-- A row of the result: COUNT(*) and SUM(size_bytes) of a client_id.
pub record Usage : Type 0 where
  pub client_id : ℕ
  pub object_count : ℕ
  pub size_bytes : ℕ

abbrev pub counted : ℕ → Usage → Usage
counted size u = record u { object_count = suc u.object_count; size_bytes = size + u.size_bytes }

-- GROUP BY client_id ORDER BY client_id, one row at a time.
unfoldable pub add_usage : ℕ → ℕ → List Usage → List Usage
add_usage client size [] = record { client_id = client; object_count = 1; size_bytes = size } ∷ []
add_usage client size (u ∷ usage) =
    let later = add_usage client size usage in
    if client == u.client_id
    then counted size u ∷ usage
    else (if ltb client u.client_id
        then record { client_id = client; object_count = 1; size_bytes = size } ∷ u ∷ usage
        else u ∷ later)

unfoldable pub usage_of : List Task → List Usage
unfolding add_usage
usage_of [] = []
usage_of (t ∷ rows) =
    let rest = usage_of rows in
    if counts_for_quota t then add_usage t.client_id (get_or t.size_bytes 0) rest else rest

unfoldable pub quota_usage : Db → List Usage
unfolding usage_of
quota_usage db = usage_of db.tasks

abbrev pub find_usage : ℕ → List Usage → Option Usage
find_usage client [] = none
find_usage client (u ∷ usage) = if u.client_id == client then some u else find_usage client usage

-- The callers in order, none twice.
abbrev pub IsSorted : List Usage → Type 0
IsSorted [] = Unit {0}
IsSorted (u ∷ usage) = All (λ (v : Usage). u.client_id < v.client_id) usage × IsSorted usage

-- The two sums of a caller, 0 if it is not listed.
abbrev pub objects_in : Option Usage → ℕ
objects_in none = 0
objects_in (some u) = u.object_count

abbrev pub bytes_in : Option Usage → ℕ
bytes_in none = 0
bytes_in (some u) = u.size_bytes

All-add_usage :
    (n client size : ℕ) (usage : List Usage)
    → n < client
    → All (λ (v : Usage). n < v.client_id) usage
    → All (λ (v : Usage). n < v.client_id) (add_usage client size usage)
unfolding add_usage
All-add_usage n client size [] l h = (l, tt)
All-add_usage n client size (u ∷ usage) l h = ground (arith, All-add_usage n client size usage)

All-trans :
    (m n : ℕ) (usage : List Usage)
    → m < n
    → All (λ (v : Usage). n < v.client_id) usage
    → All (λ (v : Usage). m < v.client_id) usage
All-trans m n [] l h = tt
All-trans m n (u ∷ usage) l h =
    let above : n < u.client_id = h.0 in (omega (arith, l, above), All-trans m n usage l h.1)

IsSorted-add_usage :
    (client size : ℕ) (usage : List Usage) → IsSorted usage → IsSorted (add_usage client size usage)
unfolding add_usage
IsSorted-add_usage client size [] h = (tt, tt)
IsSorted-add_usage client size (u ∷ usage) h = ground (
  arith,
  IsSorted-add_usage client size usage,
  All-add_usage u.client_id client size usage,
  All-trans client u.client_id usage,
)

absent :
    (client : ℕ) (usage : List Usage)
    → All (λ (v : Usage). client < v.client_id) usage
    → find_usage client usage ≡ none
absent client [] h = refl
absent client (u ∷ usage) h = ground (arith, absent client usage)

-- A counted row is seen at its caller, and at no other.
find_usage-add_usage :
    (c client size : ℕ) (usage : List Usage)
    → IsSorted usage
    → (objects_in (find_usage c (add_usage client size usage)) ≡ (
        if client == c
        then suc (objects_in (find_usage c usage))
        else objects_in (find_usage c usage)))
      × (bytes_in (find_usage c (add_usage client size usage)) ≡ (
          if client == c
          then size + bytes_in (find_usage c usage)
          else bytes_in (find_usage c usage)))
unfolding add_usage
find_usage-add_usage c client size [] h = ground arith
find_usage-add_usage c client size (u ∷ usage) h =
    let rest = find_usage-add_usage c client size usage h.1 in
    let gone = absent client usage in
    let up = All-trans client u.client_id usage in
    elim (Bool-cases (client == c)) [
      | inl same ↦
          let c_is : client ≡ c = (==_iff client c).0 same in
          let found : find_usage client usage ≡ find_usage c usage =
            ap (λ x. find_usage x usage) c_is in
          ground arith
      | inr other ↦ ground arith
    ]

usage_of-IsSorted : (rows : List Task) → IsSorted (usage_of rows)
unfolding usage_of
usage_of-IsSorted [] = tt
usage_of-IsSorted (t ∷ rows) = elim (Bool-cases (counts_for_quota t)) [
  | inl e ↦ rw e (
      IsSorted-add_usage t.client_id (get_or t.size_bytes 0) (usage_of rows)
        (usage_of-IsSorted rows))
  | inr e ↦ rw e (usage_of-IsSorted rows)
]

-- The listing shows the usage that admission tests: for every caller, the objects and bytes of
-- `quota_usage` are those that `create_task_with_quota` counts against its limits, and a caller
-- that is not listed has neither.
pub quota_usage-agrees :
    (client : ℕ) (db : Db)
    → (objects_in (find_usage client (quota_usage db)) ≡ object_count client db.tasks)
      × (bytes_in (find_usage client (quota_usage db)) ≡ used_bytes client db.tasks)
unfolding quota_usage usage_of object_count used_bytes
quota_usage-agrees client db = go db.tasks
  where
    go :
        (rows : List Task)
        → (objects_in (find_usage client (usage_of rows)) ≡ object_count client rows)
          × (bytes_in (find_usage client (usage_of rows)) ≡ used_bytes client rows)
    go [] = (refl, refl)
    go (t ∷ rows) =
        let rest = go rows in
        let added =
          find_usage-add_usage client t.client_id (get_or t.size_bytes 0) (usage_of rows)
            (usage_of-IsSorted rows) in
        elim (Bool-cases (counts_for_quota t)) [
          | inl e ↦ elim (Bool-cases (t.client_id == client)) [
            | inl f ↦ rw (e, f) (ground arith)
            | inr f ↦ rw (e, f) (ground arith)
          ]
          | inr e ↦ rw e (ground arith)
        ]
