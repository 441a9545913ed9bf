-- ===== src/Executor/Invariant/MainThread.antt =====
-- The main thread of the executor (calrissian/executor.py) keeps the invariant through every method,
-- and raises no InconsistentResourcesException.
use calrissian.Prelude.{
  true, false, Bool, ◌||◌, Option, none, some, List, [], ◌∷◌, ◌++◌, ℕ, zero, suc, ℤ, All, any,
}
use calrissian.Dict.{Dict}
use calrissian.Executor.Resources.{Resources}
use calrissian.Executor.Effects.{Exception, System, Result, return, raise, waits}
use calrissian.Executor.Pool.{World, advance}
use calrissian.Executor.Loop.{
  done_at, not_done, is_nil, wait_for_completion, wait_all, cancel_all, if_queued, cancel_and_raise,
  raise_if_exception_queued, Item, yields, fails, take_item, settle, enqueue_from,
  enqueue_jobs_from_iterator, is_drained, drain_queue, all_called, shutdown, after_shutdown, body,
  run_jobs,
}
use calrissian.Executor.Invariant.{Inv}
use calrissian.Executor.Invariant.Events.{WorldIsProper, advance-Keeps, cancel-Keeps}
use calrissian.Executor.Invariant.Start.{start_queued_jobs-return}
use calrissian.Executor.Invariant.Calls.{
  >>=-Safe, ItemIsProper, RaisesProper, Safe, if-Safe, queue_job-Safe, raise_queued-Safe,
}

module _ {total : Resources} (world : World) (proper : WorldIsProper world) where
  pub keep : (s : System) → Inv total s → Inv total (advance world s)
  keep s v = (advance-Keeps world proper s v).0

  wait_for_completion-Safe :
      (fuel : ℕ) (futures : List ℕ) → Safe total (wait_for_completion world fuel futures)
  unfolding wait_for_completion
  wait_for_completion-Safe zero futures s v = (v, tt)
  wait_for_completion-Safe (suc fuel) futures s v =
      if-Safe (is_nil futures || any (done_at (advance world s).pool) futures) _
        (wait_for_completion world fuel futures) (λ s v. (v, tt))
        (wait_for_completion-Safe fuel futures) (advance world s) (keep s v)

  wait_all-Safe : (fuel : ℕ) (futures : List ℕ) → Safe total (wait_all world fuel futures)
  unfolding wait_all
  wait_all-Safe zero futures s v = (v, tt)
  wait_all-Safe (suc fuel) futures s v =
      if-Safe (is_nil (not_done (advance world s).pool futures)) _ (wait_all world fuel futures)
        (λ s v. (v, tt)) (wait_all-Safe fuel futures) (advance world s) (keep s v)

  cancel_all-Safe : (futures : List ℕ) → Safe total (cancel_all world futures)
  unfolding cancel_all
  cancel_all-Safe [] s v = (v, tt)
  cancel_all-Safe (i ∷ futures) s v =
      cancel_all-Safe futures _ (cancel-Keeps i (advance world s) (keep s v)).0

  cancel_and_raise-Safe :
      (fuel : ℕ) (futures : List ℕ) → Safe total (cancel_and_raise world fuel futures)
  cancel_and_raise-Safe fuel futures =
      >>=-Safe (cancel_all world futures) _ (cancel_all-Safe futures) λ _.
        >>=-Safe (wait_all world fuel futures) _ (wait_all-Safe fuel futures) λ _ s v.
          raise_queued-Safe (advance world s).exceptions (keep s v).proper (advance world s)
            (keep s v)

  if_queued-Safe :
      (fuel : ℕ) (futures : List ℕ) (es : List Exception)
      → Safe total (if_queued world fuel futures es)
  if_queued-Safe fuel futures [] s v = (v, tt)
  if_queued-Safe fuel futures (_ ∷ _) s v = cancel_and_raise-Safe fuel futures s v

  raise_if_exception_queued-Safe :
      (fuel : ℕ) (futures : List ℕ) → Safe total (raise_if_exception_queued world fuel futures)
  unfolding raise_if_exception_queued
  raise_if_exception_queued-Safe fuel futures s v =
      if_queued-Safe fuel futures (advance world s).exceptions (advance world s) (keep s v)

  module _ (fuel : ℕ) (builder : Option (Dict ℤ)) where
    pub settle-Safe : (futures : List ℕ) → Safe total (settle world fuel builder futures)
    unfolding settle
    settle-Safe futures =
        >>=-Safe (wait_for_completion world fuel futures) _ (wait_for_completion-Safe fuel futures)
          λ left.
            >>=-Safe (raise_if_exception_queued world fuel left) _
              (raise_if_exception_queued-Safe fuel left) λ _ s v. (v, tt)

    -- A job that the source's `job` iterator yields asks for no negative amount.
    pub take_item-Safe :
        (futures : List ℕ) (item : Item)
        → ItemIsProper item
        → Safe total (take_item world fuel builder futures item)
    unfolding take_item
    take_item-Safe futures (fails e) p s v = (v, p)
    take_item-Safe futures (yields none) p s v =
        let (submitted, s', started, v') = start_queued_jobs-return world proper builder s v in
        rw started (v', tt)
    take_item-Safe futures (yields (some job)) p s v = queue_job-Safe job futures p s v

    pub enqueue_from-Safe :
        (items : List Item) (futures : List ℕ)
        → All ItemIsProper items
        → Safe total (enqueue_from world fuel builder futures items)
    unfolding enqueue_from
    enqueue_from-Safe [] futures p = settle-Safe futures
    enqueue_from-Safe (item ∷ items) futures p =
        >>=-Safe (take_item world fuel builder futures item) _ (take_item-Safe futures item p.0)
          λ now.
            >>=-Safe (settle world fuel builder now) _ (settle-Safe now)
              λ left. enqueue_from-Safe items left p.1

    drain_queue-Safe :
        (rounds : ℕ) (futures : List ℕ) → Safe total (drain_queue world fuel builder rounds futures)
    unfolding drain_queue
    drain_queue-Safe zero futures s v = (v, tt)
    drain_queue-Safe (suc rounds) futures s v =
        let (submitted, s', started, v') = start_queued_jobs-return world proper builder s v in
        rw started (
          >>=-Safe (settle world fuel builder (futures ++ submitted)) _
            (settle-Safe (futures ++ submitted))
            (λ left s v.
              if-Safe (is_drained world fuel builder left s) _
                (drain_queue world fuel builder rounds left) (λ s v. (v, tt))
                (drain_queue-Safe rounds left) s v)
            s' v')

    pub shutdown-Safe : (rounds : ℕ) → Safe total (shutdown world fuel builder rounds)
    unfolding shutdown
    shutdown-Safe zero s v = (v, tt)
    shutdown-Safe (suc rounds) s v =
        if-Safe (all_called world fuel builder (advance world s).pool) _
          (shutdown world fuel builder rounds) (λ s v. (v, tt)) (shutdown-Safe rounds)
          (advance world s) (keep s v)

    after_shutdown-Safe :
        (r : Result (Unit {0})) → RaisesProper r → Safe total (after_shutdown world fuel builder r)
    after_shutdown-Safe (return _) p = shutdown-Safe fuel
    after_shutdown-Safe (raise e) p =
        >>=-Safe (shutdown world fuel builder fuel) _ (shutdown-Safe fuel) (λ _ s v. (v, p))
    after_shutdown-Safe waits p = λ s v. (v, tt)

    pub body-Safe :
        (items : List Item) → All ItemIsProper items → Safe total (body world fuel builder items)
    unfolding enqueue_jobs_from_iterator
    body-Safe items p =
        >>=-Safe (enqueue_from world fuel builder [] items) _ (enqueue_from-Safe items [] p)
          (drain_queue-Safe fuel)

-- A run that starts in the invariant ends in it, however it ends, and does not raise an
-- InconsistentResourcesException: available and held resources are together the whole, neither is
-- negative, and the queue holds only jobs that fit. That holds for any order of events on the
-- other threads, where no job asks for a negative amount, no exception of a job or of the iterator
-- reports inconsistent resources, and, as the invariant has it, Python does not round amounts
-- between minus the whole and the whole.
pub run_jobs-Inv :
    (total : Resources) (world : World) (fuel : ℕ) (builder : Option (Dict ℤ)) (lock : Bool)
    (items : List Item) (s : System)
    → WorldIsProper world
    → All ItemIsProper items
    → Inv total s
    → Inv total (run_jobs world fuel builder lock items s).1
      × RaisesProper (run_jobs world fuel builder lock items s).0
unfolding run_jobs
run_jobs-Inv total world fuel builder false items s proper p v = (v, λ h. cc)
run_jobs-Inv total world fuel builder true items s proper p v =
    let (v', e) = body-Safe world proper fuel builder items p s v in
    after_shutdown-Safe world proper fuel builder (body world fuel builder items s).0 e
      (body world fuel builder items s).1 v'
