-- ===== src/Guard/Rate.antt =====
-- The limit on the rate of uploads (app/http.py): what is admitted in a window.
use ctyun_zos.Prelude.{
  ℕ, ◌+◌, ◌≡◌, ◌≤◌, ◌<◌, refl, Bool-cases, inl, inr, List, [], ◌∷◌, ◌++◌, arith, ltb, leb, filter,
  All, length, length-append, ◌∙◌, sym,
}
use ctyun_zos.Guard.{window, expire, Admission, admitted, rate_limited, attempt_upload}

-- The attempts of a source, and every instant at which it was admitted, the oldest first.
pub record UploadHistory : Type 0 where
  pub attempts : List ℕ
  pub log : List ℕ

abbrev pub logged : ℕ → Admission → List ℕ → List ℕ
logged now admitted log = log ++ now ∷ []
logged now (rate_limited _) log = log

abbrev pub step : ℕ → ℕ → UploadHistory → UploadHistory
step limit now s =
    let (answer, attempts) = attempt_upload limit now s.attempts in
    record { attempts = attempts; log = logged now answer s.log }

-- A list of requests, by their instants.
abbrev pub run : ℕ → List ℕ → UploadHistory → UploadHistory
run limit [] s = s
run limit (now ∷ times) s = run limit times (step limit now s)

abbrev pub IsSorted : List ℕ → Type 0
IsSorted [] = Unit {0}
IsSorted (a ∷ log) = All (λ b. a ≤ b) log × IsSorted log

-- The instants of the window that ends at `now`.
abbrev pub recent : ℕ → List ℕ → List ℕ
recent now = filter (λ a. ltb now (a + window))

recent_of_later :
    (now a : ℕ) (log : List ℕ) → now < a + window → All (λ b. a ≤ b) log → recent now log ≡ log
recent_of_later now a [] h s = refl
recent_of_later now a (b ∷ log) h s = ground (arith, recent_of_later now a log h s.1)

expire-eq-recent : (now : ℕ) (log : List ℕ) → IsSorted log → expire now log ≡ recent now log
unfolding expire
expire-eq-recent now [] s = refl
expire-eq-recent now (a ∷ log) s =
    ground (arith, recent_of_later now a log, expire-eq-recent now log s.1)

recent-recent :
    (now later : ℕ) (log : List ℕ) → now ≤ later → recent later (recent now log) ≡ recent later log
recent-recent now later [] h = refl
recent-recent now later (a ∷ log) h = ground (arith, recent-recent now later log h)

All-recent : (now a : ℕ) (log : List ℕ) → All (λ b. a ≤ b) log → All (λ b. a ≤ b) (recent now log)
All-recent now a [] h = tt
All-recent now a (b ∷ log) h = ground (arith, All-recent now a log h.1)

IsSorted-recent : (now : ℕ) (log : List ℕ) → IsSorted log → IsSorted (recent now log)
IsSorted-recent now [] s = tt
IsSorted-recent now (a ∷ log) s =
    ground (arith, All-recent now a log s.0, IsSorted-recent now log s.1)

All-append :
    (a now : ℕ) (log : List ℕ) → All (λ b. a ≤ b) log → a ≤ now → All (λ b. a ≤ b) (log ++ now ∷ [])
All-append a now [] h le = (le, tt)
All-append a now (b ∷ log) h le = (h.0, All-append a now log h.1 le)

IsSorted-append :
    (now : ℕ) (log : List ℕ) → IsSorted log → All (λ a. a ≤ now) log → IsSorted (log ++ now ∷ [])
IsSorted-append now [] s h = (tt, tt)
IsSorted-append now (a ∷ log) s h =
    ground (arith, All-append a now log s.0 h.0, IsSorted-append now log s.1 h.1)

-- The attempts are the recent part of the log, and no more than the limit.
abbrev pub IsTracked : ℕ → ℕ → UploadHistory → Type 0
IsTracked limit now s =
    (s.attempts ≡ recent now s.log)
    × (length s.attempts ≤ limit)
    × IsSorted s.log
    × All (λ a. a ≤ now) s.log

length-expire : (now : ℕ) (log : List ℕ) → length (expire now log) ≤ length log
unfolding expire
length-expire now [] = omega arith
length-expire now (a ∷ log) = ground (arith, length-expire now log)

recent-append : (now : ℕ) (log : List ℕ) → recent now (log ++ now ∷ []) ≡ recent now log ++ now ∷ []
recent-append now [] = ground arith
recent-append now (a ∷ log) = ground (arith, recent-append now log)

All-later :
    (before now : ℕ) (log : List ℕ)
    → before ≤ now
    → All (λ a. a ≤ before) log
    → All (λ a. a ≤ now) log
All-later before now [] le h = tt
All-later before now (a ∷ log) le h = (omega (arith, h.0), All-later before now log le h.1)

All-snoc : (now : ℕ) (log : List ℕ) → All (λ a. a ≤ now) log → All (λ a. a ≤ now) (log ++ now ∷ [])
All-snoc now [] h = (omega arith, tt)
All-snoc now (a ∷ log) h = (h.0, All-snoc now log h.1)

expire-tracked :
    (limit before now : ℕ) (s : UploadHistory)
    → before ≤ now
    → IsTracked limit before s
    → expire now s.attempts ≡ recent now s.log
expire-tracked limit before now s le t = rw t.0 (
    expire-eq-recent now (recent before s.log) (IsSorted-recent before s.log t.2)
    ∙ recent-recent before now s.log le)

IsTracked-step :
    (limit before now : ℕ) (s : UploadHistory)
    → before ≤ now
    → IsTracked limit before s
    → IsTracked limit now (step limit now s)
unfolding attempt_upload
IsTracked-step limit before now s le t =
    let kept = expire-tracked limit before now s le t in
    let later = All-later before now s.log le t.3 in
    elim (Bool-cases (leb limit (length (expire now s.attempts)))) [
      | inl full ↦ rw full (kept, omega (arith, length-expire now s.attempts, t.1), t.2, later)
      | inr room ↦ rw room (
        rw kept (sym (recent-append now s.log)),
        ground (arith, room, length-append (expire now s.attempts) (now ∷ [])),
        IsSorted-append now s.log t.2 later,
        All-snoc now s.log later,
      )
    ]

-- The requests arrive in the order of their instants, from `before` on.
abbrev pub IsOrdered : ℕ → List ℕ → Type 0
IsOrdered before [] = Unit {0}
IsOrdered before (now ∷ times) = (before ≤ now) × IsOrdered now times

abbrev pub last_time : ℕ → List ℕ → ℕ
last_time before [] = before
last_time before (now ∷ times) = last_time now times

IsTracked-run :
    (limit before : ℕ) (times : List ℕ) (s : UploadHistory)
    → IsOrdered before times
    → IsTracked limit before s
    → IsTracked limit (last_time before times) (run limit times s)
IsTracked-run limit before [] s o t = t
IsTracked-run limit before (now ∷ times) s o t =
    IsTracked-run limit now times (step limit now s) o.1 (IsTracked-step limit before now s o.0 t)

-- After any uploads of a source, in the order of their instants, at most the limit of them have
-- been admitted in the 60 seconds that end with the last one.
pub run-bounds :
    (limit : ℕ) (times : List ℕ)
    → IsOrdered 0 times
    → let s = run limit times (record { attempts = []; log = [] }) in
      length (recent (last_time 0 times) s.log) ≤ limit
run-bounds limit times o =
    let t =
      IsTracked-run limit 0 times (record { attempts = []; log = [] }) o
        (refl, omega arith, tt, tt) in
    ground (arith, t.0, t.1)
