-- ===== src/Executor/Jobs/Run.antt =====
-- A run that returns has submitted every job of the iterator, each once (calrissian/executor.py).
use mathlib.Core.List.{Perm, append_assoc, append-nil}
use mathlib.Core.List.Perm
use calrissian.Prelude.{
  ◌≡◌, refl, sym, subst, Bool, true, false, Bool-cases, ◌⊎◌, inl, inr, Option, none, some, List, [],
  ◌∷◌, ◌++◌, ℕ, zero, suc, ℤ, All,
}
use calrissian.Dict.{Dict}
use calrissian.Executor.Resources.{Resources, sub_rounded, exceeds}
use calrissian.Executor.JobQueue.{enqueue, Job, Jobs, from_job, ids, is_empty}
use calrissian.Executor.JobQueue.Laws.{dequeue-perm, enqueue-IsValid}
use calrissian.Executor.Effects.{System, Result, return, raise, waits}
use calrissian.Executor.Pool.{World, advance}
use calrissian.Executor.Loop.{
  raise_if_oversized, enqueue_job, start_queued_jobs, Item, yields, fails, take_item, settle,
  enqueue_from, enqueue_jobs_from_iterator, is_drained, drain_queue, shutdown, after_shutdown, body,
  run_jobs,
}
use calrissian.Executor.Invariant.{Inv}
use calrissian.Executor.Invariant.Events.{WorldIsProper, advance-Keeps}
use calrissian.Executor.Invariant.Start.{taken_at, runnable_at, start_queued_jobs_lem}
use calrissian.Executor.Invariant.Calls.{ItemIsProper}
use calrissian.Executor.Invariant.MainThread.{
  take_item-Safe, settle-Safe, enqueue_from-Safe, shutdown-Safe, body-Safe,
}
use calrissian.Executor.Invariant.End.{OnReturn, if-OnReturn, >>=-OnReturn, run_jobs-IsFinished}
use calrissian.Executor.Jobs.{submitted, advance-SameJobs}
use calrissian.Executor.Jobs.Waits.{shutdown-Leaves}
use calrissian.Executor.Jobs.Holds.{
  Holds, given_by, given, SameJobs-Holds, in_turn, Leaves-OnReturn, dequeued-Holds, queued-Holds,
  held_after, settle-Holds,
}

module _ {total : Resources} (world : World) (proper : WorldIsProper world) (fuel : ℕ)
    (builder : Option (Dict ℤ)) where
  start_queued_jobs-Holds :
      (xs : List ℕ) (s : System)
      → Inv total s
      → Holds xs s
      → (futures : List ℕ) × (s' : System) × (start_queued_jobs world builder s
          ≡ (return futures, s'))
        × Inv total s'
        × Holds xs s'
  start_queued_jobs-Holds xs s v h =
      let s1 = advance world s in
      let (v1, _) = advance-Keeps world proper s v in
      let (futures, s', started, v', jobs) = start_queued_jobs_lem world proper builder s v in
      let split = dequeue-perm (sub_rounded s1.round) s1.available s1.jrq v1.queue.distinct in
      let held = SameJobs-Holds xs s s1 (advance-SameJobs world s) h in
      (
        futures,
        s',
        started,
        v',
        held_after xs s' _ _ jobs.submitted jobs.jrq (
            dequeued-Holds xs (submitted s1) (runnable_at world s) (taken_at world s).jrq.jobs
              s1.jrq.jobs split held),
      )

  take_item-Holds :
      (xs futures : List ℕ) (item : Item) (s : System)
      → ItemIsProper item
      → Inv total s
      → Holds xs s
      → OnReturn
          (Holds (xs ++ given_by item))
          (take_item world fuel builder futures item s).0
          (take_item world fuel builder futures item s).1
  unfolding take_item raise_if_oversized enqueue_job enqueue
  take_item-Holds xs futures (fails e) s p v h = tt
  take_item-Holds xs futures (yields none) s p v h =
      let (submitted, s', started, v', h') = start_queued_jobs-Holds xs s v h in
      rw started (subst (λ xs. Holds xs s') (sym (append-nil xs)) h')
  take_item-Holds xs futures (yields (some job)) s p v h =
      elim (Bool-cases (exceeds (from_job job) s.total)) [
        | inl over ↦ rw (over, OnReturn) tt
        | inr fits ↦
            rw (fits, OnReturn)
              (elim (enqueue-IsValid total job s.jrq v.queue p
                (subst (λ t. exceeds (from_job job) t ≡ false) v.whole fits)) [
                  | inl (_, refused) ↦ rw (refused, OnReturn) tt
                  | inr (q, queued, longer, _) ↦
                      rw (queued, OnReturn)
                        (subst (λ js. Perm (submitted s ++ ids js) (xs ++ job.id ∷ [])) (sym longer)
                          (queued-Holds xs (submitted s) s.jrq.jobs job (from_job job) h))
                ])
      ]

  enqueue_from-Holds :
      (xs : List ℕ) (items : List Item) (futures : List ℕ) (s : System)
      → All ItemIsProper items
      → Inv total s
      → Holds xs s
      → OnReturn
          (Holds (xs ++ given items))
          (enqueue_from world fuel builder futures items s).0
          (enqueue_from world fuel builder futures items s).1
  unfolding enqueue_from
  enqueue_from-Holds xs [] futures s p v h =
      subst
        (λ xs.
          OnReturn (Holds xs) (settle world fuel builder futures s).0
            (settle world fuel builder futures s).1)
        (sym (append-nil xs)) (settle-Holds world fuel builder xs futures s h)
  enqueue_from-Holds xs (item ∷ items) futures s p v h =
      let now = xs ++ given_by item in
      let end = xs ++ given_by item ++ given items in
      let goal = append_assoc xs (given_by item) (given items) in
      subst
        (λ xs.
          OnReturn (Holds xs) (enqueue_from world fuel builder futures (item ∷ items) s).0
            (enqueue_from world fuel builder futures (item ∷ items) s).1)
        goal
        (in_turn (Holds now) (Holds (now ++ given items))
          (take_item world fuel builder futures item) _ s
          (take_item-Safe world proper fuel builder futures item p.0)
          (take_item-Holds xs futures item s p.0 v h)
          (λ more t w k.
            in_turn (Holds now) (Holds (now ++ given items)) (settle world fuel builder more) _ t
              (settle-Safe world proper fuel builder more)
              (settle-Holds world fuel builder now more t k)
              (λ left u x l. enqueue_from-Holds now items left u p.1 x l) w)
          v)

  drain_queue-Holds :
      (xs : List ℕ) (rounds : ℕ) (futures : List ℕ) (s : System)
      → Inv total s
      → Holds xs s
      → OnReturn
          (Holds xs)
          (drain_queue world fuel builder rounds futures s).0
          (drain_queue world fuel builder rounds futures s).1
  unfolding drain_queue
  drain_queue-Holds xs zero futures s v h = tt
  drain_queue-Holds xs (suc rounds) futures s v h =
      let (submitted, s1, started, v1, h1) = start_queued_jobs-Holds xs s v h in
      rw started (
        in_turn (Holds xs) (Holds xs) (settle world fuel builder (futures ++ submitted)) _ s1
          (settle-Safe world proper fuel builder (futures ++ submitted))
          (settle-Holds world fuel builder xs (futures ++ submitted) s1 h1)
          (λ left t w k.
            if-OnReturn (Holds xs) (is_drained world fuel builder left t) _
              (drain_queue world fuel builder rounds left) t (λ _. k)
              (drain_queue-Holds xs rounds left t w k))
          v1)

  after_shutdown-Holds :
      (xs : List ℕ) (r : Result (Unit {0})) (s : System)
      → Inv total s
      → OnReturn (Holds xs) r s
      → OnReturn
          (Holds xs)
          (after_shutdown world fuel builder r s).0
          (after_shutdown world fuel builder r s).1
  after_shutdown-Holds xs (return _) s v h =
      Leaves-OnReturn xs (shutdown world fuel builder fuel) s
        (shutdown-Leaves world fuel builder fuel) h
  after_shutdown-Holds xs (raise e) s v h =
      >>=-OnReturn (Holds xs) (shutdown world fuel builder fuel) (λ _ s. (raise e, s))
        (shutdown-Safe world proper fuel builder fuel) (λ _ s v. tt) s v
  after_shutdown-Holds xs waits s v h = tt

  body-Holds :
      (xs : List ℕ) (items : List Item) (s : System)
      → All ItemIsProper items
      → Inv total s
      → Holds xs s
      → OnReturn
          (Holds (xs ++ given items))
          (body world fuel builder items s).0
          (body world fuel builder items s).1
  unfolding enqueue_jobs_from_iterator
  body-Holds xs items s p v h =
      let all = xs ++ given items in
      in_turn (Holds all) (Holds all) (enqueue_from world fuel builder [] items) _ s
        (enqueue_from-Safe world proper fuel builder items [] p)
        (enqueue_from-Holds xs items [] s p v h)
        (λ futures t w k. drain_queue-Holds all fuel futures t w k) v

  run_jobs-Holds :
      (xs : List ℕ) (lock : Bool) (items : List Item) (s : System)
      → All ItemIsProper items
      → Inv total s
      → Holds xs s
      → OnReturn
          (Holds (xs ++ given items))
          (run_jobs world fuel builder lock items s).0
          (run_jobs world fuel builder lock items s).1
  unfolding run_jobs
  run_jobs-Holds xs false items s p v h = tt
  run_jobs-Holds xs true items s p v h =
      after_shutdown-Holds (xs ++ given items) (body world fuel builder items s).0
        (body world fuel builder items s).1 (body-Safe world proper fuel builder items p s v).0
        (body-Holds xs items s p v h)

List-cases :
    (jobs : Jobs) → (jobs ≡ []) ⊎ ((x : Job × Resources) × (rest : Jobs) × (jobs ≡ x ∷ rest))
List-cases [] = inl refl
List-cases (x ∷ rest) = inr (x, rest, refl)

-- What is held when the queue is empty is submitted.
all_submitted :
    (xs : List ℕ) (s : System) → is_empty s.jrq ≡ true → Holds xs s → Perm (submitted s) xs
unfolding is_empty
all_submitted xs s e h = elim (List-cases s.jrq.jobs) [
  | inl none_left ↦
      subst (λ js. Perm js xs) (append-nil (submitted s))
        (subst (λ jobs. Perm (submitted s ++ ids jobs) xs) none_left h)
  | inr (x, rest, more) ↦ cc
]

-- When a run returns without an exception, it has submitted the jobs that were there before, those
-- that were queued and those that the iterator yields, each as often as it was given, and no
-- others, whatever the threads do meanwhile, where no job asks for a negative amount, no exception
-- of theirs reports inconsistent resources, and the invariant holds at first, which has it that
-- Python does not round amounts between minus the whole and the whole.
pub run_jobs-submits :
    (total : Resources) (world : World) (fuel : ℕ) (builder : Option (Dict ℤ)) (lock : Bool)
    (items : List Item) (s : System)
    → WorldIsProper world
    → All ItemIsProper items
    → Inv total s
    → (run_jobs world fuel builder lock items s).0 ≡ return tt
    → Perm
        (submitted (run_jobs world fuel builder lock items s).1)
        ((submitted s ++ ids s.jrq.jobs) ++ given items)
run_jobs-submits total world fuel builder lock items s proper p v returned =
    let xs = submitted s ++ ids s.jrq.jobs in
    let end = (run_jobs world fuel builder lock items s).1 in
    let finished = run_jobs-IsFinished total world fuel builder lock items s proper p v returned in
    all_submitted (xs ++ given items) end finished.queue (
      subst (λ r. OnReturn (Holds (xs ++ given items)) r end) returned
        (run_jobs-Holds world proper fuel builder xs lock items s p v (Perm.refl xs)))
