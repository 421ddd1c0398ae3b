-- ===== src/Runtime/Cache/Bounded.antt =====
-- What a provider cache holds after an entry is added.
use ctyun_zos.Prelude.{
  zero, ◌⊎◌, inl, inr, ℕ, suc, ◌-◌, ◌≤◌, ◌<◌, ◌≡◌, refl, none, some, [], ◌∷◌, ◌++◌, arith, ◌==◌,
  if◌then◌else◌, length, drop,
}
use native.Mathlib.Decide.{dec_lt}
use ctyun_zos.World.{Provider}
use ctyun_zos.Runtime.Cache.{Cache, get, remove, put_last, evict, cache_provider}

-- No configuration has two entries.
abbrev pub IsValid : Cache → Type 0
IsValid [] = Unit {0}
IsValid ((i, p) ∷ cache) = (get i cache ≡ none) × IsValid cache

get-remove :
    (i j : ℕ) (cache : Cache) → get j (remove i cache) ≡ (if i == j then none else get j cache)
unfolding get remove
get-remove i j [] = ground arith
get-remove i j ((k, p) ∷ cache) = ground (arith, get-remove i j cache)

get-append : (j : ℕ) (a b : Cache) → get j a ≡ none → get j (a ++ b) ≡ get j b
unfolding get
get-append j [] b h = refl
get-append j ((k, p) ∷ a) b h = ground (arith, get-append j a b)

get-append_some : (j : ℕ) (a b : Cache) (q : Provider) → get j a ≡ some q → get j (a ++ b) ≡ some q
unfolding get
get-append_some j [] b q h = cc
get-append_some j ((k, p) ∷ a) b q h = ground (arith, get-append_some j a b q)

remove-IsValid : (i : ℕ) (cache : Cache) → IsValid cache → IsValid (remove i cache)
unfolding get remove
remove-IsValid i [] v = tt
remove-IsValid i ((k, p) ∷ cache) v =
    ground (arith, get-remove i k cache, remove-IsValid i cache v.1)

snoc-IsValid :
    (i : ℕ) (p : Provider) (cache : Cache)
    → get i cache ≡ none
    → IsValid cache
    → IsValid (cache ++ (i, p) ∷ [])
unfolding get
snoc-IsValid i p [] h v = (refl, tt)
snoc-IsValid i p ((k, q) ∷ cache) h v =
    ground (arith, get-append k cache ((i, p) ∷ []), snoc-IsValid i p cache)

pub put_last-IsValid :
    (i : ℕ) (p : Provider) (cache : Cache) → IsValid cache → IsValid (put_last i p cache)
unfolding put_last
put_last-IsValid i p cache v =
    snoc-IsValid i p (remove i cache) (ground (arith, get-remove i i cache))
      (remove-IsValid i cache v)

evict-IsValid : (max : ℕ) (cache : Cache) → IsValid cache → IsValid (evict max cache)
unfolding evict
evict-IsValid max [] v = tt
evict-IsValid max (e ∷ cache) v = ground (arith, evict-IsValid max cache)

length-evict-le : (max : ℕ) (cache : Cache) → length (evict max cache) ≤ max
unfolding evict
length-evict-le max [] = omega arith
length-evict-le max (e ∷ cache) = ground (arith, length-evict-le max cache)

get-evict :
    (max i : ℕ) (p : Provider) (cache : Cache)
    → 0 < max
    → get i cache ≡ none
    → get i (evict max (cache ++ (i, p) ∷ [])) ≡ some p
unfolding get evict
get-evict max i p [] h e = ground arith
get-evict max i p ((k, q) ∷ cache) h e =
    ground (arith, get-evict max i p cache, get-append i cache ((i, p) ∷ []))

drop_all : (cache : Cache) (n : ℕ) → n ≡ 0 → drop n cache ≡ cache
drop_all cache n h = rw h

-- Eviction keeps the newest entries, as many as fit.
evict-eq-drop : (max : ℕ) (cache : Cache) → evict max cache ≡ drop (length cache - max) cache
unfolding evict
evict-eq-drop max [] = ground (arith, drop_all [] (0 - max))
evict-eq-drop max (e ∷ cache) = elim (dec_lt max (length (e ∷ cache))) [
  | yes over ↦
      let more : length (e ∷ cache) - max ≡ suc (length cache - max) = omega arith in
      rw more (ground (arith, evict-eq-drop max cache))
  | no fits ↦ let done : length (e ∷ cache) - max ≡ 0 = omega arith in rw done (ground arith)
]

holds_new :
    (max i : ℕ) (p : Provider) (cache : Cache)
    → (max ≡ 0) ⊎ (get i (evict max (put_last i p cache)) ≡ some p)
unfolding put_last
holds_new zero i p cache = inl refl
holds_new (suc max) i p cache =
    inr (
      get-evict (suc max) i p (remove i cache) (omega arith) (ground (arith, get-remove i i cache)))

-- Adding an entry to a cache keeps at most the configured number of entries, none of them twice;
-- the cache then holds the new entry, if it may hold any, and it holds the newest entries of what
-- it held without that key.
pub cache_provider_lem :
    (max i : ℕ) (p : Provider) (cache : Cache)
    → IsValid cache
    → let after = cache_provider max i p cache in
      IsValid after
      × (length after ≤ max)
      × ((max ≡ 0) ⊎ (get i after ≡ some p))
      × (let all = remove i cache ++ (i, p) ∷ [] in after ≡ drop (length all - max) all)
unfolding cache_provider
cache_provider_lem max i p cache v = (
  evict-IsValid max (put_last i p cache) (put_last-IsValid i p cache v),
  length-evict-le max (put_last i p cache),
  holds_new max i p cache,
  evict-eq-drop max (put_last i p cache),
)
