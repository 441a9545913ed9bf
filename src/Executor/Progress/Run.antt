-- ===== src/Executor/Progress/Run.antt =====
-- `run_jobs` (calrissian/executor.py) ends, where the threads of the pool take a bounded time.
use native.Mathlib.Nat.{suc-mul}
use calrissian.Prelude.{
  ◌≡◌, refl, sym, ap, subst, ◌≤◌, ◌<◌, ◌+◌, ◌*◌, ◌-◌, ℕ, ℤ, zero, suc, true, false, Bool, Option,
  none, some, List, [], ◌∷◌, All, All-append, length, length-append, Bool-cases, inl, inr, ◌⊎◌,
  arith,
}
use calrissian.Dict.{Dict}
use calrissian.Executor.Resources.{Resources, exceeds}
use calrissian.Executor.JobQueue.{Job, from_job}
use calrissian.Executor.Resources.Order.{IsNonnegative}
use calrissian.Executor.JobQueue.Laws.{enqueue-IsValid}
use calrissian.Executor.Effects.{
  Exception, Future, System, Result, return, raise, waits, ◌>>◌, pure,
}
use calrissian.Executor.Pool.{World, advance}
use calrissian.Executor.Loop.{
  Item, yields, fails, raise_if_oversized, enqueue_job, take_item, settle, enqueue_from,
  enqueue_jobs_from_iterator, all_called, shutdown, after_shutdown, body, run_jobs,
}
use calrissian.Executor.Invariant.{Inv, IsProper}
use calrissian.Executor.Invariant.Events.{WorldIsProper}
use calrissian.Executor.Invariant.Start.{InPool, start_queued_jobs_lem}
use calrissian.Executor.Invariant.Calls.{ItemIsProper, RaisesProper, enqueued-Inv}
use calrissian.Executor.Invariant.MainThread.{body-Safe, run_jobs-Inv}
use calrissian.Executor.Invariant.End.{IsFinished, OnReturn, run_jobs-OnReturn}
use calrissian.Executor.Progress.{
  IsSettled, SettlesIn, IsTimely, Ends, EndsAt, mono-Ends, >>=-EndsAt, if-EndsAt, advance-IsKept,
}
use calrissian.Executor.Progress.Futures.{next_point, over_busy}
use calrissian.Executor.Progress.Waits.{Waited}
use calrissian.Executor.Progress.Rounds.{budget}
use calrissian.Executor.Progress.Drain.{
  settle-Ends, queue_length, grown, IsDrained, drain_queue-Ends,
}

budget_mul : (delay n : ℕ) → budget delay n ≡ n * suc delay
budget_mul delay zero = omega arith
budget_mul delay (suc n) = rw (budget_mul delay n) (sym (suc-mul n (suc delay)))

all_called-settled :
    (world : World) (fuel : ℕ) (builder : Option (Dict ℤ)) (pool : List Future)
    → All IsSettled pool
    → all_called world fuel builder pool ≡ true
all_called-settled world fuel builder [] h = refl
all_called-settled world fuel builder (f ∷ pool) h =
    rw h.0.1 (all_called-settled world fuel builder pool h.1)

-- The items of the iterator, and the jobs that are queued before.
abbrev work_of : List Item → System → ℕ
work_of items s = length s.jrq.jobs + length items

module _ (total : Resources) (world : World) (proper : WorldIsProper world) (delay fuel : ℕ)
    (timely : IsTimely world delay) (enough : delay < fuel) (builder : Option (Dict ℤ)) where
  shutdown-Ends :
      (rounds k : ℕ) (s : System)
      → Inv total s
      → SettlesIn world k s
      → k < rounds
      → EndsAt (λ _ _. Unit) (shutdown world fuel builder rounds) s
  unfolding shutdown
  shutdown-Ends zero k s v settles l = absurd (omega (arith, l))
  shutdown-Ends (suc rounds) k s v settles l =
      let s1 = advance world s in
      if-EndsAt (λ _ _. Unit) (all_called world fuel builder s1.pool) _
        (shutdown world fuel builder rounds) s1 (λ _. tt)
        (λ busy. elim (next_point world k s settles) [
          | inl settled ↦
              absurd (over_busy (all_called-settled world fuel builder s1.pool settled) busy)
          | inr (later, settles1) ↦
              shutdown-Ends rounds (k - 1) s1 (advance-IsKept total world s proper v).inv settles1
                (omega (arith, l, later))
        ])

  -- The futures that are followed, and the jobs that are queued, of at most `n` jobs.
  pub record Followed (n : ℕ) (futures : List ℕ) (s : System) : Type 0 where
    pub inv : Inv total s
    pub places : All (InPool s) futures
    pub few : length futures + length s.jrq.jobs ≤ n

  queue_job-Ends :
      (n : ℕ) (futures : List ℕ) (job : Job) (s : System)
      → Followed n futures s
      → IsNonnegative (from_job job)
      → EndsAt (Followed (suc n)) (raise_if_oversized job >> (enqueue_job job >> pure futures)) s
  unfolding raise_if_oversized enqueue_job
  queue_job-Ends n futures job s w p = elim (Bool-cases (exceeds (from_job job) s.total)) [
    | inl over ↦ rw over tt
    | inr fits ↦
        let fits1 = subst (λ t. exceeds (from_job job) t ≡ false) w.inv.whole fits in
        elim (enqueue-IsValid total job s.jrq w.inv.queue p fits1) [
          | inl (_, refused) ↦ rw (fits, refused, enqueue_job) tt
          | inr (q, queued, jobs, valid) ↦
              let more = length-append s.jrq.jobs ((job, from_job job) ∷ []) in
              let few = w.few in
              let new = ap length jobs in
              rw (fits, queued, enqueue_job)
                (record {
                  inv = enqueued-Inv s q w.inv valid;
                  places = w.places;
                  few = omega (arith, more, few, new);
                })
        ]
  ]

  take_item-Ends :
      (n : ℕ) (futures : List ℕ) (item : Item) (s : System)
      → Followed n futures s
      → ItemIsProper item
      → EndsAt (Followed (suc n)) (take_item world fuel builder futures item) s
  unfolding take_item
  take_item-Ends n futures (fails e) s w p = tt
  take_item-Ends n futures (yields none) s w p =
      let (submitted, s1, started, v1, st) = start_queued_jobs_lem world proper builder s w.inv in
      let both = length-append futures submitted in
      let few = w.few in
      let taken =
        queue_length total world proper delay fuel timely enough builder s s1 submitted w.inv st in
      rw started (record {
        inv = v1;
        places =
            All-append (InPool s1) futures submitted
              (grown total world proper delay fuel timely enough builder s s1 futures w.inv st
                w.places)
              st.places;
        few = omega (arith, both, few, taken);
      })
  take_item-Ends n futures (yields (some job)) s w p = queue_job-Ends n futures job s w p

  -- Settling keeps the number of jobs within its bound.
  followed :
      (n : ℕ) (futures : List ℕ) (s : System)
      → Followed n futures s
      → (left : List ℕ) (s' : System) → Waited total futures s left s'
      → Followed n left s'
  followed n futures s w left s' d =
      let few = w.few in
      let fewer = d.fewer in
      let jobs = ap (λ q. length q.jobs) d.kept.jrq in
      record { inv = d.kept.inv; places = d.places; few = omega (arith, few, fewer, jobs) }

  enqueue_from-Ends :
      (n : ℕ) (items : List Item) (futures : List ℕ) (s : System)
      → Followed n futures s
      → All ItemIsProper items
      → EndsAt (Followed (n + length items)) (enqueue_from world fuel builder futures items) s
  unfolding enqueue_from
  enqueue_from-Ends n [] futures s w p =
      let same : n ≡ n + 0 = omega arith in
      mono-Ends (Waited total futures s) (Followed (n + 0)) _ _
        (λ left s' d. subst (λ m. Followed m left s') same (followed n futures s w left s' d))
        (settle-Ends total world proper delay fuel timely enough builder futures s w.inv w.places)
  enqueue_from-Ends n (item ∷ items) futures s w p =
      let same : suc n + length items ≡ n + suc (length items) = omega arith in
      >>=-EndsAt (Followed (suc n)) (Followed (n + suc (length items)))
        (take_item world fuel builder futures item) _ s (take_item-Ends n futures item s w p.0)
        (λ now s1 w1.
          >>=-EndsAt (Waited total now s1) (Followed (n + suc (length items)))
            (settle world fuel builder now) _ s1
            (settle-Ends total world proper delay fuel timely enough builder now s1 w1.inv
              w1.places)
            (λ left s2 w2.
              subst (λ m. EndsAt (Followed m) (enqueue_from world fuel builder left items) s2) same
                (enqueue_from-Ends (suc n) items left s2 (followed (suc n) now s1 w1 left s2 w2)
                  p.1)))

  body-Ends :
      (items : List Item) (s : System)
      → Inv total s
      → All ItemIsProper items
      → budget delay (work_of items s) + delay < fuel
      → EndsAt
          (λ _. IsDrained total world proper delay fuel timely enough builder)
          (body world fuel builder items)
          s
  unfolding enqueue_jobs_from_iterator
  body-Ends items s v p l =
      >>=-EndsAt (Followed (work_of items s))
        (λ _. IsDrained total world proper delay fuel timely enough builder)
        (enqueue_from world fuel builder [] items) _ s
        (enqueue_from-Ends (length s.jrq.jobs) items [] s
          (record { inv = v; places = tt; few = omega arith }) p)
        (λ futures s1 w.
          drain_queue-Ends total world proper delay fuel timely enough builder fuel
            (work_of items s) delay futures s1 w.inv w.places (timely s1) w.few l)

  after_shutdown-Ends :
      (r : Result (Unit {0})) (s : System)
      → Ends (λ _. IsDrained total world proper delay fuel timely enough builder) r s
      → Inv total s
      → EndsAt (λ _ _. Unit) (after_shutdown world fuel builder r) s
  after_shutdown-Ends (return _) s e v = shutdown-Ends fuel delay s v (timely s) enough
  after_shutdown-Ends (raise x) s e v =
      >>=-EndsAt (λ _ _. Unit) (λ _ _. Unit) (shutdown world fuel builder fuel) _ s
        (shutdown-Ends fuel delay s v (timely s) enough) (λ _ _ _. tt)
  after_shutdown-Ends waits s e v = absurd e

  pub run_jobs_lem :
      (lock : Bool) (items : List Item) (s : System)
      → Inv total s
      → All ItemIsProper items
      → budget delay (work_of items s) + delay < fuel
      → EndsAt (λ _ _. Unit) (run_jobs world fuel builder lock items) s
  unfolding run_jobs
  run_jobs_lem false items s v p l = tt
  run_jobs_lem true items s v p l =
      after_shutdown-Ends (body world fuel builder items s).0 (body world fuel builder items s).1
        (body-Ends items s v p l) (body-Safe world proper fuel builder items p s v).0

outcome :
    (total : Resources) (r : Result (Unit {0})) (s : System)
    → Ends (λ _ _. Unit) r s
    → OnReturn (IsFinished total) r s
    → RaisesProper r
    → ((r ≡ return tt) × IsFinished total s) ⊎ ((e : Exception) × (r ≡ raise e) × IsProper e)
outcome total (return tt) s e f p = inl (refl, f)
outcome total (raise x) s e f p = inr (x, refl, p)
outcome total waits s e f p = absurd e

-- A run ends: it returns with an empty queue, every callback run and everything available again,
-- or it raises, and not because of its bookkeeping. That holds where the other threads settle
-- every submitted job, done and called back, within `delay` of the points at which they can act,
-- no job asks for a negative amount, no exception of a job or of the iterator reports inconsistent
-- resources, the rounds that are observed are more than such a delay for every job, and the
-- invariant holds at first, which has it that Python does not round amounts between minus the
-- whole and the whole.
pub run_jobs-IsFinished_or_raises :
    (total : Resources) (world : World) (delay fuel : ℕ) (builder : Option (Dict ℤ)) (lock : Bool)
    (items : List Item) (s : System)
    → WorldIsProper world
    → IsTimely world delay
    → All ItemIsProper items
    → Inv total s
    → (length s.jrq.jobs + length items) * suc delay + delay < fuel
    → let (result, after) = run_jobs world fuel builder lock items s in
      ((result ≡ return tt) × IsFinished total after)
      ⊎ ((e : Exception) × (result ≡ raise e) × IsProper e)
run_jobs-IsFinished_or_raises total world delay fuel builder lock items s proper timely p v l =
    let enough : delay < fuel = omega (arith, l) in
    let rounds = subst (λ b. b + delay < fuel) (sym (budget_mul delay (work_of items s))) l in
    outcome total (run_jobs world fuel builder lock items s).0
      (run_jobs world fuel builder lock items s).1
      (run_jobs_lem total world proper delay fuel timely enough builder lock items s v p rounds)
      (run_jobs-OnReturn world proper fuel builder lock items s p v)
      (run_jobs-Inv total world fuel builder lock items s proper p v).1
