-- ===== src/Executor/Loop.antt =====
-- The main thread of ThreadPoolJobExecutor (calrissian/executor.py): the methods from
-- `raise_if_exception_queued` to `run_jobs`. The world is what the other threads do; a loop that
-- waits has a fuel, the number of its rounds that are observed.
use Prim.Native.String.{String}
use text.Mathlib.Text.{◌==◌ as str_eq}
use calrissian.Prelude.{
  ℕ, zero, suc, Bool, true, false, ◌||◌, ◌&&◌, Option, none, some, List, [], ◌∷◌, ◌++◌, ℤ, any,
  length, get_elem?, if◌then◌else◌,
}
use calrissian.Dict.{Dict}
use calrissian.Executor.Resources.{Resources, sub_rounded, exceeds}
use calrissian.Executor.JobQueue.{Job, Jobs, from_job, enqueue, is_empty, dequeue}
use calrissian.Executor.Effects.{
  Kind, workflow, validation, duplicate_job, oversized_job, Exception, pending, Future, System,
  Result, return, raise, waits, Action, pure, throw, still_waiting, get, modify, ◌>>=◌, ◌>>◌,
}
use calrissian.Executor.Pool.{World, allocate, is_done, cancel, preempt}

abbrev pub error : Kind → Exception
error kind = record { kind = kind; text = [] }

abbrev add_dir : String → List String → List String
add_dir dir dirs = if any (str_eq dir) dirs then dirs else dir ∷ dirs

abbrev pub add_output_dir : Option String → System → System
add_output_dir none s = s
add_output_dir (some dir) s = record s { output_dirs = add_dir dir s.output_dirs }

abbrev pub with_builder : Option (Dict ℤ) → Job → Job
with_builder none job = job
with_builder (some b) job = record job { builder = some b }

abbrev pub new_future : Job → Resources → Future
new_future job rsc = record { job = job; rsc = rsc; status = pending; called = false }

-- `pool_executor.submit` and `add_done_callback`. A future is known by its place in the pool.
abbrev pub submit : Job → Resources → Action ℕ
submit job rsc s = (return (length s.pool), record s { pool = s.pool ++ new_future job rsc ∷ [] })

abbrev pub done_at : List Future → ℕ → Bool
done_at pool i = elim (get_elem? pool i) [ none ↦ false | some f ↦ is_done f.status ]

abbrev pub not_done : List Future → List ℕ → List ℕ
not_done pool [] = []
not_done pool (i ∷ futures) =
    let rest = not_done pool futures in if done_at pool i then rest else i ∷ rest

abbrev pub is_nil : List ℕ → Bool
is_nil [] = true
is_nil (_ ∷ _) = false

abbrev pub texts : List Exception → List String
texts [] = []
texts (e ∷ es) = e.text ++ texts es

-- The exception that ends the run, from the queued ones: a single WorkflowException or
-- ValidationException as it is, any other wrapped, and several together.
abbrev pub as_workflow : Exception → Kind → Exception
as_workflow e workflow = e
as_workflow e validation = e
as_workflow e _ = record { kind = workflow; text = e.text }

unfoldable pub raised : Exception → List Exception → Exception
raised e [] = as_workflow e e.kind
raised e (e' ∷ es) = record { kind = workflow; text = texts (e ∷ e' ∷ es) }

-- All queued exceptions are taken and raised.
unfoldable pub raise_queued : List Exception → Action (Unit {0})
unfolding raised
raise_queued [] = pure tt
raise_queued (e ∷ es) = do modify (λ s. record s { exceptions = [] }); throw (raised e es)

module _ (world : World) where
  -- `wait(futures, return_when=FIRST_COMPLETED)`, the set that is not done. It does not wait if
  -- there are no futures.
  unfoldable pub wait_for_completion : ℕ → List ℕ → Action (List ℕ)
  wait_for_completion zero futures = still_waiting
  wait_for_completion (suc fuel) futures = do
    preempt world
    s ← get
    if is_nil futures || any (done_at s.pool) futures
        then pure (not_done s.pool futures)
        else wait_for_completion fuel futures

  -- `wait(futures, return_when=ALL_COMPLETED)`
  unfoldable pub wait_all : ℕ → List ℕ → Action (Unit {0})
  wait_all zero futures = still_waiting
  wait_all (suc fuel) futures = do
    preempt world
    s ← get
    if is_nil (not_done s.pool futures) then pure tt else wait_all fuel futures

  unfoldable pub cancel_all : List ℕ → Action (Unit {0})
  unfolding cancel
  cancel_all [] = pure tt
  cancel_all (i ∷ futures) = do preempt world; modify (cancel i); cancel_all futures

  abbrev pub cancel_and_raise : ℕ → List ℕ → Action (Unit {0})
  cancel_and_raise fuel futures = do
    cancel_all futures
    wait_all fuel futures
    preempt world
    s ← get
    raise_queued s.exceptions

  abbrev pub if_queued : ℕ → List ℕ → List Exception → Action (Unit {0})
  if_queued fuel futures [] = pure tt
  if_queued fuel futures (_ ∷ _) = cancel_and_raise fuel futures

  unfoldable pub raise_if_exception_queued : ℕ → List ℕ → Action (Unit {0})
  unfolding wait_all cancel_all raise_queued
  raise_if_exception_queued fuel futures = do
    preempt world
    s ← get
    if_queued fuel futures s.exceptions

  -- The body of the loop of `start_queued_jobs`.
  unfoldable pub start_job : Option (Dict ℤ) → Job → Resources → Action ℕ
  unfolding allocate
  start_job builder job rsc = do
    modify (add_output_dir job.outdir)
    preempt world
    allocate rsc
    submit (with_builder builder job) rsc

  unfoldable pub start_each : Option (Dict ℤ) → Jobs → Action (List ℕ)
  unfolding start_job
  start_each builder [] = pure []
  start_each builder ((job, rsc) ∷ runnable) = do
    future ← start_job builder job rsc
    futures ← start_each builder runnable
    pure (future ∷ futures)

  -- `self.jrq.dequeue(self.available_resources)`
  abbrev pub take_runnable : Action Jobs
  take_runnable s =
      let (runnable, jrq) = dequeue (sub_rounded s.round) s.available s.jrq in
      (return runnable, record s { jrq = jrq })

  unfoldable pub start_queued_jobs : Option (Dict ℤ) → Action (List ℕ)
  unfolding start_each
  start_queued_jobs builder = do
    preempt world
    runnable ← take_runnable
    start_each builder runnable

-- What `next(job_iterator)` does: a job or None, or an exception. The iterator ends with the list.
pub data Item : Type 0 where
  yields : Option Job → Item
  fails : Exception → Item

unfoldable pub raise_if_oversized : Job → Action (Unit {0})
raise_if_oversized job s =
    if exceeds (from_job job) s.total then (raise (error oversized_job), s) else (return tt, s)

unfoldable pub enqueue_job : Job → Action (Unit {0})
enqueue_job job s = elim (enqueue (some job) s.jrq) [
  | none ↦ (raise (error duplicate_job), s)
  | some jrq ↦ (return tt, record s { jrq = jrq })
]

module _ (world : World) (fuel : ℕ) (builder : Option (Dict ℤ)) where
  -- One item of the iterator, under the lock.
  unfoldable pub take_item : List ℕ → Item → Action (List ℕ)
  unfolding raise_if_oversized enqueue_job start_queued_jobs
  take_item futures (fails e) = throw e
  take_item futures (yields none) = do
    submitted ← start_queued_jobs world builder
    pure (futures ++ submitted)
  take_item futures (yields (some job)) = do raise_if_oversized job; enqueue_job job; pure futures

  -- What follows under no lock in each round of both loops.
  unfoldable pub settle : List ℕ → Action (List ℕ)
  unfolding wait_for_completion raise_if_exception_queued
  settle futures = do
    left ← wait_for_completion world fuel futures
    raise_if_exception_queued world fuel left
    pure left

  unfoldable pub enqueue_from : List ℕ → List Item → Action (List ℕ)
  unfolding take_item settle
  enqueue_from futures [] = settle futures
  enqueue_from futures (item ∷ items) = do
    futures ← take_item futures item
    futures ← settle futures
    enqueue_from futures items

  unfoldable pub enqueue_jobs_from_iterator : List Item → Action (List ℕ)
  unfolding enqueue_from
  enqueue_jobs_from_iterator items = enqueue_from [] items

  abbrev pub is_drained : List ℕ → System → Bool
  is_drained futures s = is_nil futures && is_empty s.jrq

  unfoldable pub drain_queue : ℕ → List ℕ → Action (Unit {0})
  unfolding start_queued_jobs settle
  drain_queue zero futures = still_waiting
  drain_queue (suc rounds) futures = do
    submitted ← start_queued_jobs world builder
    left ← settle (futures ++ submitted)
    s ← get
    if is_drained left s then pure tt else drain_queue rounds left

  abbrev pub all_called : List Future → Bool
  all_called [] = true
  all_called (f ∷ pool) = f.called && all_called pool

  -- The end of the `with` block: the pool is shut down, and its threads are waited for.
  unfoldable pub shutdown : ℕ → Action (Unit {0})
  shutdown zero = still_waiting
  shutdown (suc rounds) = do
    preempt world
    s ← get
    if all_called s.pool then pure tt else shutdown rounds

  abbrev pub body : List Item → Action (Unit {0})
  body items = do futures ← enqueue_jobs_from_iterator items; drain_queue fuel futures

  -- `with` runs its end also when the body raises, and then raises again.
  abbrev pub after_shutdown : Result (Unit {0}) → Action (Unit {0})
  after_shutdown (return _) = shutdown fuel
  after_shutdown (raise e) = shutdown fuel >> throw e
  after_shutdown waits = still_waiting

  -- `lock` says that the runtime context has a `workflow_eval_lock`.
  unfoldable pub run_jobs : Bool → List Item → Action (Unit {0})
  unfolding enqueue_jobs_from_iterator drain_queue shutdown
  run_jobs lock items s =
      if lock
      then (let (result, after) = body items s in after_shutdown result after)
      else (raise (error workflow), s)
