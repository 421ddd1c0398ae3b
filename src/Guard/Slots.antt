-- ===== src/Guard/Slots.antt =====
-- The slots of uploads, for requests that run at the same time (app/http.py).
use ctyun_zos.Prelude.{
  ℕ, zero, suc, ◌+◌, ◌≡◌, ◌∙◌, ◌⊎◌, inl, inr, refl, Bool, true, false, ◌&&◌, List, [], ◌∷◌, map,
  count, all, if◌then◌else◌, arith, Bool-cases,
}
use ctyun_zos.Guard.Middleware.{
  GuardSettings, GuardRequest, Effect, acquired, released, entered, delivered, refused, escaped,
  guard,
}
use ctyun_zos.Guard.Balance.{is_balanced, guard-is_balanced}

-- A request on its way: whether it holds a slot, and what is left of it.
abbrev pub Running : Type 0
Running = Bool × List Effect

-- The semaphore's free slots and the requests; a request that finds no slot waits.
abbrev pub Pool : Type 0
Pool = ℕ × List Running

abbrev pub acquire : ℕ → List Effect → ℕ × Running
acquire zero effects = (zero, (false, acquired ∷ effects))
acquire (suc free) effects = (free, (true, effects))

abbrev pub step_one : ℕ → Running → ℕ × Running
step_one free (held, []) = (free, (held, []))
step_one free (held, acquired ∷ effects) = acquire free effects
step_one free (held, released ∷ effects) = (suc free, (false, effects))
step_one free (held, _ ∷ effects) = (free, (held, effects))

unfoldable pub step_at : ℕ → List Running → ℕ → Pool
step_at free [] i = (free, [])
step_at free (r ∷ requests) zero = let (f, r') = step_one free r in (f, r' ∷ requests)
step_at free (r ∷ requests) (suc i) = let (f, rest) = step_at free requests i in (f, r ∷ rest)

-- The steps of the requests in any order.
unfoldable pub run_steps : List ℕ → Pool → Pool
unfolding step_at
run_steps [] pool = pool
run_steps (i ∷ schedule) (free, requests) = run_steps schedule (step_at free requests i)

abbrev pub holders : List Running → ℕ
holders = count (λ (r : Running). r.0)

abbrev pub all_balanced : List Running → Bool
all_balanced = all (λ (r : Running). is_balanced r.0 r.1)

abbrev weight_of : Running → ℕ
weight_of r = if r.0 then 1 else 0

acquire_lem :
    (free : ℕ) (effects : List Effect)
    → is_balanced true effects ≡ true
    → ((acquire free effects).0 + weight_of (acquire free effects).1 ≡ free)
      × (is_balanced (acquire free effects).1.0 (acquire free effects).1.1 ≡ true)
acquire_lem zero effects h = (refl, h)
acquire_lem (suc free) effects h = (omega arith, h)

step_one_lem :
    (free : ℕ) (r : Running)
    → is_balanced r.0 r.1 ≡ true
    → ((step_one free r).0 + weight_of (step_one free r).1 ≡ free + weight_of r)
      × (is_balanced (step_one free r).1.0 (step_one free r).1.1 ≡ true)
step_one_lem free (held, []) h = (refl, h)
step_one_lem free (true, acquired ∷ effects) h = ground arith
step_one_lem free (false, acquired ∷ effects) h =
    let (a, b) = acquire_lem free effects h in (omega (arith, a), b)
step_one_lem free (true, released ∷ effects) h = (omega arith, h)
step_one_lem free (false, released ∷ effects) h = ground arith
step_one_lem free (held, entered c ∷ effects) h = (refl, h)
step_one_lem free (held, delivered c ∷ effects) h = (refl, h)
step_one_lem free (held, refused c ∷ effects) h = (refl, h)
step_one_lem free (held, escaped ∷ effects) h = (refl, h)

module _ (a b : Bool) where
  both : (a && b) ≡ true → (a ≡ true) × (b ≡ true)
  both h = ground arith

  both_true : a ≡ true → b ≡ true → (a && b) ≡ true
  both_true h k = ground arith

step_at_lem :
    (free : ℕ) (requests : List Running) (i : ℕ)
    → all_balanced requests ≡ true
    → ((step_at free requests i).0 + holders (step_at free requests i).1 ≡ free + holders requests)
      × (all_balanced (step_at free requests i).1 ≡ true)
unfolding step_at
step_at_lem free [] i h = (refl, refl)
step_at_lem free (r ∷ requests) zero h =
    let (hr, hs) = both (is_balanced r.0 r.1) (all_balanced requests) h in
    let (sum, balanced) = step_one_lem free r hr in
    (
      omega (arith, sum),
      both_true (is_balanced (step_one free r).1.0 (step_one free r).1.1) (all_balanced requests)
          balanced hs,
    )
step_at_lem free (r ∷ requests) (suc i) h =
    let (hr, hs) = both (is_balanced r.0 r.1) (all_balanced requests) h in
    let (sum, balanced) = step_at_lem free requests i hs in
    (
      omega (arith, sum),
      both_true (is_balanced r.0 r.1) (all_balanced (step_at free requests i).1) hr balanced,
    )

run_steps_lem :
    (schedule : List ℕ) (pool : Pool)
    → all_balanced pool.1 ≡ true
    → ((run_steps schedule pool).0 + holders (run_steps schedule pool).1 ≡ pool.0 + holders pool.1)
      × (all_balanced (run_steps schedule pool).1 ≡ true)
unfolding run_steps
run_steps_lem [] pool h = (refl, h)
run_steps_lem (i ∷ schedule) (free, requests) h =
    let (sum, balanced) = step_at_lem free requests i h in
    let (sum', balanced') = run_steps_lem schedule (step_at free requests i) balanced in
    (sum' ∙ sum, balanced')

-- The requests as they come in, at their times, with the attempts of their sources.
abbrev pub Arrival : Type 0
Arrival = GuardRequest × (ℕ × List ℕ)

abbrev pub arrive : GuardSettings → List Arrival → List Running
arrive s = map (λ (a : Arrival). (false, (guard s a.0 a.1.0 a.1.1).0))

arrive_lem :
    (s : GuardSettings) (arrivals : List Arrival)
    → (all_balanced (arrive s arrivals) ≡ true) × (holders (arrive s arrivals) ≡ 0)
arrive_lem s [] = (refl, refl)
arrive_lem s (a ∷ arrivals) =
    let (balanced, none_held) = arrive_lem s arrivals in
    (
      both_true (is_balanced false (guard s a.0 a.1.0 a.1.1).0) (all_balanced (arrive s arrivals))
          (guard-is_balanced s a.0 a.1.0 a.1.1) balanced,
      omega (arith, none_held),
    )

abbrev pub is_done : Running → Bool
is_done (held, []) = true
is_done (held, _ ∷ _) = false

none_held_at_end :
    (requests : List Running)
    → all_balanced requests ≡ true
    → all is_done requests ≡ true
    → holders requests ≡ 0
none_held_at_end [] h d = refl
none_held_at_end ((true, []) ∷ requests) h d = ground arith
none_held_at_end ((false, []) ∷ requests) h d =
    let rest = none_held_at_end requests h d in omega (arith, rest)
none_held_at_end ((held, e ∷ effects) ∷ requests) h d = ground arith

-- Whatever requests arrive, and in whatever order their steps are taken: at every moment the free
-- slots and the requests that hold one together are the slots of the semaphore, so that no more
-- uploads than that are past it; and once every request is done, by an answer, a refusal, a body
-- that is too large or an exception, all slots are free again.
pub run_steps-slots :
    (s : GuardSettings) (slots : ℕ) (arrivals : List Arrival) (schedule : List ℕ)
    → ((run_steps schedule (slots, arrive s arrivals)).0
          + holders (run_steps schedule (slots, arrive s arrivals)).1
        ≡ slots)
      × ((all is_done (run_steps schedule (slots, arrive s arrivals)).1 ≡ false)
          ⊎ ((run_steps schedule (slots, arrive s arrivals)).0 ≡ slots))
run_steps-slots s slots arrivals schedule =
    let start = arrive s arrivals in
    let (balanced, none_held) = arrive_lem s arrivals in
    let (sum, left) = run_steps_lem schedule (slots, start) balanced in
    let pool = run_steps schedule (slots, start) in
    let whole : pool.0 + holders pool.1 ≡ slots = omega (arith, sum, none_held) in
    (
      whole,
      elim (Bool-cases (all is_done pool.1)) [
        | inl done ↦
            inr (let nobody = none_held_at_end pool.1 left done in omega (arith, whole, nobody))
        | inr open_still ↦ inl open_still
      ],
    )
