-- ===== src/Runtime/Recovery/Rounds.antt =====
-- A whole round of recovery: its size, its end, and what it sends to the store.
use ctyun_zos.Prelude.{
  ℕ, zero, suc, ◌+◌, ◌-◌, ◌*◌, ◌≡◌, ◌≤◌, refl, Bool, true, false, Option, none, some, List, [], ◌∷◌,
  ◌++◌, map, arith, if◌then◌else◌, All, take, drop, length, length-take-le,
}
use ctyun_zos.Data.{Task, Db}
use ctyun_zos.Database.Tasks.Pending.{text_place, pending_tasks, pending_deletions}
use ctyun_zos.World.{Env, World, Interaction, ok, Action, pure, ◌>>=◌, query}
use ctyun_zos.Runtime.Recovery.{
  recover_upload, recover_deletion, gather, run_groups, recover, recovery_work, out_of_time,
  set_deadline, work_of, run_work, start_recovery, end_recovery,
}
use ctyun_zos.Runtime.Recovery.Reads.{
  IsHead, SendsHeads, silent, OnlyHeads-bind, OnlyHeads-gather, OnlyHeads-recover_upload,
  OnlyHeads-recover_deletion,
}

abbrev pub Work : Type 0
Work = List (Action (Unit {0}))

All-take : (n : ℕ) (work : Work) → All SendsHeads work → All SendsHeads (take n work)
All-take zero work h = tt
All-take (suc n) [] h = tt
All-take (suc n) (m ∷ work) h = (h.0, All-take n work h.1)

All-drop : (n : ℕ) (work : Work) → All SendsHeads work → All SendsHeads (drop n work)
All-drop zero work h = h
All-drop (suc n) [] h = tt
All-drop (suc n) (m ∷ work) h = All-drop n work h.1

length-drop : {A : Type 0} (n : ℕ) (xs : List A) → length (drop n xs) ≡ length xs - n
length-drop zero xs = omega arith
length-drop (suc n) [] = omega arith
length-drop (suc n) (x ∷ xs) = omega (arith, length-drop n xs)

module _ (env : Env) where
  OnlyHeads-out_of_time :
      (deadline : Option ℕ) (offset : ℕ) → SendsHeads (out_of_time env deadline offset)
  OnlyHeads-out_of_time none offset w = ([], tt, refl)
  OnlyHeads-out_of_time (some d) zero w = ([], tt, refl)
  OnlyHeads-out_of_time (some d) (suc n) w = ([], tt, refl)

  OnlyHeads-unless :
      (late : Bool) (m : Action (Unit {0}))
      → SendsHeads m
      → SendsHeads (if late then pure tt else m)
  OnlyHeads-unless true m h w = ([], tt, refl)
  OnlyHeads-unless false m h w = h w

  OnlyHeads-run_groups :
      (fuel : ℕ) (deadline : Option ℕ) (offset : ℕ) (work : Work)
      → All SendsHeads work
      → SendsHeads (run_groups env fuel deadline offset work)
  unfolding run_groups
  OnlyHeads-run_groups zero deadline offset work h w = ([], tt, refl)
  OnlyHeads-run_groups (suc fuel) deadline offset [] h w = ([], tt, refl)
  OnlyHeads-run_groups (suc fuel) deadline offset (m ∷ work) h w =
      let width = env.settings.recovery_max_concurrency in
      let rest = run_groups env fuel deadline (offset + width) (drop width (m ∷ work)) in
      let group = gather (take width (m ∷ work)) >>= λ _. rest in
      OnlyHeads-bind (out_of_time env deadline offset) (λ late. if late then pure tt else group)
        (OnlyHeads-out_of_time deadline offset)
        (λ late. OnlyHeads-unless late group (
          OnlyHeads-bind (gather (take width (m ∷ work))) (λ _. rest)
            (OnlyHeads-gather env (take width (m ∷ work)) (All-take width (m ∷ work) h))
            (λ _.
              OnlyHeads-run_groups fuel deadline (offset + width) (drop width (m ∷ work))
                (All-drop width (m ∷ work) h))))
        w

  All-uploads : (ts : List Task) → All SendsHeads (map (recover_upload env) ts)
  All-uploads [] = tt
  All-uploads (t ∷ ts) = (OnlyHeads-recover_upload env t, All-uploads ts)

  All-deletions : (ts : List Task) → All SendsHeads (map (recover_deletion env) ts)
  All-deletions [] = tt
  All-deletions (t ∷ ts) = (OnlyHeads-recover_deletion env t, All-deletions ts)

  All-append : (xs ys : Work) → All SendsHeads xs → All SendsHeads ys → All SendsHeads (xs ++ ys)
  All-append [] ys a b = b
  All-append (x ∷ xs) ys a b = (a.0, All-append xs ys a.1 b)

  length-rest :
      (m : Action (Unit {0})) (work : Work)
      → 1 ≤ env.settings.recovery_max_concurrency
      → length (drop env.settings.recovery_max_concurrency (m ∷ work)) ≤ length work
  length-rest m work h = omega (arith, length-drop env.settings.recovery_max_concurrency (m ∷ work))

  gather-cons :
      (m : Action (Unit {0})) (work : Work) (w w' : World)
      → gather (m ∷ work) w ≡ (ok tt, w')
      → ((m w).0 ≡ ok tt) × (gather work (m w).1 ≡ (ok tt, w'))
  unfolding gather
  gather-cons m work w w' e = ground arith

  -- Calls that all return do so in groups too.
  gather-take :
      (n : ℕ) (work : Work) (w w' : World)
      → gather work w ≡ (ok tt, w')
      → (v : World) × (gather (take n work) w ≡ (ok tt, v)) × (gather (drop n work) v ≡ (ok tt, w'))
  unfolding gather
  gather-take zero work w w' e = (w, refl, e)
  gather-take (suc n) [] w w' e = (w, refl, e)
  gather-take (suc n) (m ∷ work) w w' e =
      let (first, all) = gather-cons m work w w' e in
      let (v, a, b) = gather-take n work (m w).1 w' all in (v, rw (first, a) refl, b)

  -- The loop runs every call, if each returns and there is no deadline.
  run_groups-gather :
      (fuel offset : ℕ) (work : Work) (w w' : World)
      → 1 ≤ env.settings.recovery_max_concurrency
      → length work ≤ fuel
      → gather work w ≡ (ok tt, w')
      → run_groups env fuel none offset work w ≡ (ok tt, w')
  unfolding run_groups gather
  run_groups-gather zero offset [] w w' h enough e = e
  run_groups-gather (suc fuel) offset [] w w' h enough e = e
  run_groups-gather zero offset (m ∷ work) w w' h enough e = absurd (omega arith)
  run_groups-gather (suc fuel) offset (m ∷ work) w w' h enough e =
      let width = env.settings.recovery_max_concurrency in
      let less = length-rest m work h in
      let (v, a, b) = gather-take width (m ∷ work) w w' e in
      let rest =
        run_groups-gather fuel (offset + width) (drop width (m ∷ work)) v w' h (omega (arith, less))
          b in
      rw (a, rest) refl

  set_deadline-heads : (budget : Option ℕ) → SendsHeads (set_deadline env budget)
  set_deadline-heads none w = ([], tt, refl)
  set_deadline-heads (some b) w = ([], tt, refl)

  recovery_work-heads : SendsHeads (recovery_work env)
  unfolding recovery_work query
  recovery_work-heads w = silent (recovery_work env) w (ground arith)

work-heads :
    (env : Env) (budget : Option ℕ) (work : List Task × List Task)
    → SendsHeads (run_work env budget work)
work-heads env budget (uploads, deletions) =
    OnlyHeads-bind (set_deadline env budget)
      (λ deadline.
        run_groups env (length (work_of env uploads deletions)) deadline 0
          (work_of env uploads deletions))
      (set_deadline-heads env budget)
      (λ deadline.
        OnlyHeads-run_groups env (length (work_of env uploads deletions)) deadline 0
          (work_of env uploads deletions)
          (All-append env (map (recover_upload env) uploads) (map (recover_deletion env) deletions)
            (All-uploads env uploads) (All-deletions env deletions)))

recover-heads : (env : Env) (budget : Option ℕ) → SendsHeads (recover env budget)
unfolding recover
recover-heads env budget =
    OnlyHeads-bind (start_recovery env)
      (λ _. recovery_work env >>= λ work. run_work env budget work >>= λ _. end_recovery env)
      (λ w. ([], tt, refl))
      (λ _.
        OnlyHeads-bind (recovery_work env)
          (λ work. run_work env budget work >>= λ _. end_recovery env) (recovery_work-heads env)
          (λ work.
            OnlyHeads-bind (run_work env budget work) (λ _. end_recovery env)
              (work-heads env budget work) (λ _ w. ([], tt, refl))))

-- A whole round of recovery, in any state and against any behaviour of the store, sends the store
-- nothing but HeadObject requests: it never writes and never deletes an object.
pub recover-OnlyHeads :
    (env : Env) (budget : Option ℕ) (w : World)
    → (xs : List Interaction) × All IsHead xs × ((recover env budget w).1.trace ≡ xs ++ w.trace)
recover-OnlyHeads env budget w = recover-heads env budget w

-- A periodic round of recovery, which has no deadline, is complete: if the calls for all the tasks
-- that it found, one after the other, return and lead to some state, then the round, which runs
-- them in groups, leads to the same state and marks itself complete. (A group has at least one
-- call, as the configuration demands.)
pub recover-gather :
    (env : Env) (uploads deletions : List Task) (w w1 w2 : World)
    → 1 ≤ env.settings.recovery_max_concurrency
    → recovery_work env (record w { recovery_complete = false }) ≡ (ok (uploads, deletions), w1)
    → gather (work_of env uploads deletions) w1 ≡ (ok tt, w2)
    → recover env none w ≡ (
      ok tt,
      record w2 {
        recovery_complete = true;
        last_recovery_success_at = some (env.clock w2.draws);
        draws = w2.draws + 1;
      },
    )
unfolding recover
recover-gather env uploads deletions w w1 w2 h read all =
    rw
      (
        read,
        run_groups-gather env (length (work_of env uploads deletions)) 0
            (work_of env uploads deletions) w1 w2 h (omega arith) all,
      )
      refl

length-pending_tasks : (stale limit : ℕ) (db : Db) → length (pending_tasks stale limit db) ≤ limit
unfolding pending_tasks
length-pending_tasks stale limit db = length-take-le limit _

length-pending_deletions :
    (stale limit : ℕ) (db : Db) → length (pending_deletions stale limit db) ≤ limit
unfolding pending_deletions
length-pending_deletions stale limit db = length-take-le limit _

-- A round takes at most `recovery_batch_size` tasks, uploads and deletions together.
pub recovery_work-bounds :
    (env : Env) (w w' : World) (uploads deletions : List Task)
    → recovery_work env w ≡ (ok (uploads, deletions), w')
    → length uploads + length deletions ≤ env.settings.recovery_batch_size
unfolding recovery_work query
recovery_work-bounds env w w' uploads deletions e =
    let db1 = env.others (w.draws + 1 + 1) w.db in
    let db2 = env.others (w.draws + 1 + 1 + 1) db1 in
    let limit = env.settings.recovery_batch_size in
    let stale = text_place (env.clock w.draws - 1_000_000 * env.settings.stale_upload_seconds) in
    let stale_delete =
      text_place (env.clock (w.draws + 1) - 1_000_000 * env.settings.stale_delete_seconds) in
    let found = pending_tasks stale limit db1 in
    ground (
      arith,
      length-pending_tasks stale limit db1,
      length-pending_deletions stale_delete (limit - length found) db2,
    )
