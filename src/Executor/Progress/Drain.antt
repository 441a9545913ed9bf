-- ===== src/Executor/Progress/Drain.antt =====
-- `drain_queue` (calrissian/executor.py) ends: every round drops a future, or waits for the threads
-- to give resources back.
use calrissian.Prelude.{
  ◌≡◌, refl, sym, ap, subst, ◌≤◌, ◌<◌, ◌+◌, ◌-◌, ℕ, ℤ, zero, suc, true, Option, List, [], ◌++◌, All,
  All-map, All-append, length, length-append, length-perm, inl, inr, arith,
}
use calrissian.Dict.{Dict}
use calrissian.Executor.Resources.{Resources, sub_rounded}
use calrissian.Executor.JobQueue.{dequeue, is_empty}
use calrissian.Executor.JobQueue.Laws.{dequeue-perm}
use calrissian.Executor.Effects.{System, return}
use calrissian.Executor.Pool.{World, advance}
use calrissian.Executor.Loop.{
  wait_for_completion, raise_if_exception_queued, settle, start_queued_jobs, is_drained,
  drain_queue,
}
use calrissian.Executor.Invariant.{Inv}
use calrissian.Executor.Invariant.Events.{WorldIsProper}
use calrissian.Executor.Invariant.Start.{
  InPool, Started, taken_at, runnable_at, start_queued_jobs_lem,
}
use calrissian.Executor.Progress.{
  after, SettlesIn, IsTimely, EndsAt, >>=-EndsAt, if-EndsAt, IsKept, IsKept-trans, advance-IsKept,
}
use calrissian.Executor.Progress.Futures.{next_point, over_busy}
use calrissian.Executor.Progress.Waits.{
  Waited, kept-All, wait_for_completion-Ends, raise_if_exception_queued-Ends,
}
use calrissian.Executor.Progress.Rounds.{
  dequeue_nothing, settles_after, after-IsKept, settled_starts, settle_nil, budget, budget_less,
  nil_cases,
}

module _ (total : Resources) (world : World) (proper : WorldIsProper world) (delay fuel : ℕ)
    (timely : IsTimely world delay) (enough : delay < fuel) (builder : Option (Dict ℤ)) where
  pub settle-Ends :
      (futures : List ℕ) (s : System)
      → Inv total s
      → All (InPool s) futures
      → EndsAt (Waited total futures s) (settle world fuel builder futures) s
  unfolding settle
  settle-Ends futures s v h =
      >>=-EndsAt (Waited total futures s) (Waited total futures s)
        (wait_for_completion world fuel futures) _ s
        (wait_for_completion-Ends total world proper fuel delay futures s v h (timely s) enough)
        (λ left s1 w.
          >>=-EndsAt (λ _. IsKept total s1) (Waited total futures s)
            (raise_if_exception_queued world fuel left) _ s1
            (raise_if_exception_queued-Ends total world proper delay fuel timely enough left s1
              w.kept.inv w.places)
            (λ _ s2 k. record {
              kept = IsKept-trans total s s1 s2 w.kept k;
              places = kept-All total world proper s1 s2 left k w.places;
              fewer = w.fewer;
            }))

  -- The start of a round in which nothing is running and nothing starts.
  starts_nothing :
      (s : System)
      → runnable_at world s ≡ []
      → start_queued_jobs world builder s ≡ (return [], advance world s)
  unfolding start_queued_jobs
  starts_nothing s none_ =
      let s1 = advance world s in
      rw (none_, dequeue_nothing (sub_rounded s1.round) s1.available s1.jrq none_) refl

  -- The jobs that are left in the queue, and those that started.
  pub queue_length :
      (s s1 : System) (futures : List ℕ)
      → Inv total s
      → Started (runnable_at world s) (taken_at world s) futures s1
      → length futures + length s1.jrq.jobs ≡ length s.jrq.jobs
  queue_length s s1 futures v st =
      let k = advance-IsKept total world s proper v in
      let s0 = advance world s in
      let parts =
        length-perm _ _
          (dequeue-perm (sub_rounded s0.round) s0.available s0.jrq k.inv.queue.distinct) in
      let jobs1 = ap (λ q. length q.jobs) st.jrq in
      let jobs = ap (λ q. length q.jobs) k.jrq in
      let count = st.count in
      let both =
        length-append (runnable_at world s)
          (dequeue (sub_rounded s0.round) s0.available s0.jrq).1.jobs in
      omega (arith, parts, jobs1, jobs, count, both)

  pub grown :
      (s s1 : System) (futures : List ℕ) {submitted : List ℕ}
      → Inv total s
      → Started (runnable_at world s) (taken_at world s) submitted s1
      → All (InPool s) futures
      → All (InPool s1) futures
  grown s s1 futures v st h =
      let size0 = (advance-IsKept total world s proper v).size in
      let size1 = st.size in
      All-map (InPool s) futures (λ i here. omega (arith, size0, size1, here)) h

  abbrev pub IsDrained : System → Type 0
  IsDrained s = Inv total s × (is_empty s.jrq ≡ true)

  idle_round :
      (rounds k : ℕ) (s : System)
      → Inv total s
      → SettlesIn world k s
      → runnable_at world s ≡ []
      → ((s' : System)
          → IsKept total s s'
          → 1 < k
          → SettlesIn world (k - 1) s'
          → EndsAt (λ _. IsDrained) (drain_queue world fuel builder rounds []) s')
      → EndsAt (λ _. IsDrained) (drain_queue world fuel builder (suc rounds) []) s
  unfolding drain_queue
  idle_round rounds k s v settles none_ again =
      let s1 = advance world s in
      let k1 = advance-IsKept total world s proper v in
      rw (starts_nothing s none_) (
        >>=-EndsAt (λ left s'. (left ≡ []) × (n : ℕ) × (s' ≡ after world n s1)) (λ _. IsDrained)
          (settle world fuel builder []) _ s1
          (settle_nil world fuel builder s1 (omega (arith, enough)))
          (λ left s2 (nil, m, e).
            let k2 =
              subst (IsKept total s1) (sym e) (after-IsKept total world m s1 proper k1.inv) in
            if-EndsAt (λ _. IsDrained) (is_drained world fuel builder left s2) _
              (drain_queue world fuel builder rounds left) s2 (λ over. (k2.inv, ground arith))
              (λ more. elim (next_point world k s settles) [
                | inl settled ↦
                    let drained = settled_starts total s1 k1.inv settled none_ in
                    absurd (over_busy (rw (nil, k2.jrq) drained) more)
                | inr (later, settles1) ↦
                    subst
                      (λ fs. EndsAt (λ _. IsDrained) (drain_queue world fuel builder rounds fs) s2)
                      (sym nil)
                      (again s2 (IsKept-trans total s s1 s2 k1 k2) later (
                        subst (SettlesIn world (k - 1)) (sym e)
                          (settles_after world (k - 1) m s1 settles1)))
              ])))

  busy_round :
      (rounds : ℕ) (futures : List ℕ) (s : System)
      → Inv total s
      → All (InPool s) futures
      → 1 ≤ length futures + length (runnable_at world s)
      → ((left : List ℕ) (s' : System)
          → Inv total s'
          → All (InPool s') left
          → suc (length left + length s'.jrq.jobs) ≤ length futures + length s.jrq.jobs
          → EndsAt (λ _. IsDrained) (drain_queue world fuel builder rounds left) s')
      → EndsAt (λ _. IsDrained) (drain_queue world fuel builder (suc rounds) futures) s
  unfolding drain_queue
  busy_round rounds futures s v h some_ again =
      let (submitted, s1, started, v1, st) = start_queued_jobs_lem world proper builder s v in
      let total_left = queue_length s s1 submitted v st in
      let places = All-append (InPool s1) futures submitted (grown s s1 futures v st h) st.places in
      let both = length-append futures submitted in
      let count = st.count in
      rw started (
        >>=-EndsAt (Waited total (futures ++ submitted) s1) (λ _. IsDrained)
          (settle world fuel builder (futures ++ submitted)) _ s1
          (settle-Ends (futures ++ submitted) s1 v1 places)
          (λ left s2 w.
            let fewer = w.fewer in
            let jobs = ap (λ q. length q.jobs) w.kept.jrq in
            if-EndsAt (λ _. IsDrained) (is_drained world fuel builder left s2) _
              (drain_queue world fuel builder rounds left) s2 (λ over. (w.kept.inv, ground arith))
              (λ more.
                again left s2 w.kept.inv w.places
                  (omega (arith, fewer, jobs, total_left, both, count, some_)))))

  pub drain_queue-Ends :
      (rounds n k : ℕ) (futures : List ℕ) (s : System)
      → Inv total s
      → All (InPool s) futures
      → SettlesIn world k s
      → length futures + length s.jrq.jobs ≤ n
      → budget delay n + k < rounds
      → EndsAt (λ _. IsDrained) (drain_queue world fuel builder rounds futures) s
  unfolding drain_queue
  drain_queue-Ends zero n k futures s v h settles few l = absurd (omega (arith, l))
  drain_queue-Ends (suc rounds) n k futures s v h settles few l =
      elim (nil_cases futures (runnable_at world s)) [
        | inl (e, none_) ↦
            subst (λ fs. EndsAt (λ _. IsDrained) (drain_queue world fuel builder (suc rounds) fs) s)
              (sym e)
              (idle_round rounds k s v settles none_ (λ s' kept later settles'.
                let jobs = ap (λ q. length q.jobs) kept.jrq in
                drain_queue-Ends rounds n (k - 1) [] s' kept.inv tt settles'
                  (omega (arith, jobs, few)) (omega (arith, l, later))))
        | inr some_ ↦ busy_round rounds futures s v h some_ (λ left s' v' h' fewer.
            let less = budget_less delay n (omega (arith, few, fewer)) in
            drain_queue-Ends rounds (n - 1) delay left s' v' h' (timely s')
              (omega (arith, few, fewer)) (omega (arith, l, less)))
      ]
