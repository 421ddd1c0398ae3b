-- ===== src/Guard/Body.antt =====
-- The limit on the body of an upload (app/http.py): `limited_receive` and what it delivers.
use ctyun_zos.Prelude.{
  ℕ, ◌+◌, ◌≡◌, ◌≤◌, ◌<◌, ◌⊎◌, inl, inr, refl, Bool, true, false, List, [], ◌∷◌, ltb, Bool-cases,
  arith,
}
use ctyun_zos.Guard.Middleware.{limited_receive}

-- The bytes of these chunks.
abbrev pub body_bytes : List ℕ → ℕ
body_bytes [] = 0
body_bytes (c ∷ chunks) = c + body_bytes chunks

-- One chunk of `limited_receive`, when it fits and when it does not.
receive_over :
    (max total c : ℕ) (chunks : List ℕ)
    → ltb max (total + c) ≡ true
    → limited_receive max total (c ∷ chunks) ≡ ([], true)
unfolding limited_receive
receive_over max total c chunks e = rw e refl

receive_fits :
    (max total c : ℕ) (chunks : List ℕ)
    → ltb max (total + c) ≡ false
    → limited_receive max total (c ∷ chunks)
      ≡ (c ∷ (limited_receive max (total + c) chunks).0, (limited_receive max (total + c) chunks).1)
unfolding limited_receive
receive_fits max total c chunks e = rw e refl

abbrev IsExact : ℕ → ℕ → List ℕ → List ℕ × Bool → Type 0
IsExact max total chunks r =
    (total + body_bytes r.0 ≤ max)
    × (((r ≡ (chunks, false)) × (total + body_bytes chunks ≤ max))
        ⊎ ((r.1 ≡ true) × (max < total + body_bytes chunks)))

after_chunk :
    (max total c : ℕ) (chunks : List ℕ) (r : List ℕ × Bool)
    → IsExact max (total + c) chunks r
    → IsExact max total (c ∷ chunks) (c ∷ r.0, r.1)
after_chunk max total c chunks r (fits, inl (e, rest)) = (omega arith, inl (rw e refl, omega arith))
after_chunk max total c chunks r (fits, inr (e, rest)) = (omega arith, inr (e, omega arith))

limited_receive-IsExact :
    (max total : ℕ) (chunks : List ℕ)
    → total ≤ max
    → IsExact max total chunks (limited_receive max total chunks)
unfolding limited_receive
limited_receive-IsExact max total [] h = (ground arith, inl (refl, ground arith))
limited_receive-IsExact max total (c ∷ chunks) h = elim (Bool-cases (ltb max (total + c))) [
  | inl e ↦ rw (receive_over max total c chunks e) (ground arith, inr (refl, ground arith))
  | inr e ↦ rw (receive_fits max total c chunks e) (
      after_chunk max total c chunks (limited_receive max (total + c) chunks)
        (limited_receive-IsExact max (total + c) chunks (ground arith)))
]

-- The chunks that the application gets never hold more bytes than the limit. If the whole body is
-- within the limit, all of its chunks arrive and nothing is raised; if it is larger, `BodyTooLarge`
-- is raised.
pub limited_receive-bounds :
    (max : ℕ) (chunks : List ℕ)
    → (body_bytes (limited_receive max 0 chunks).0 ≤ max)
      × (((limited_receive max 0 chunks ≡ (chunks, false)) × (body_bytes chunks ≤ max))
          ⊎ (((limited_receive max 0 chunks).1 ≡ true) × (max < body_bytes chunks)))
limited_receive-bounds max chunks =
    let (fits, cases) = limited_receive-IsExact max 0 chunks (omega arith) in
    (omega arith, elim cases [ inl h ↦ inl (h.0, omega arith) | inr h ↦ inr (h.0, omega arith) ])
