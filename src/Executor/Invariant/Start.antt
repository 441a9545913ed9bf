-- ===== src/Executor/Invariant/Start.antt =====
-- `start_queued_jobs` (calrissian/executor.py): the jobs that were dequeued together can all be
-- allocated, whatever the other threads do in between.
use mathlib.Core.List.{append_assoc, append-nil}
use calrissian.Prelude.{
  ◌≡◌, refl, sym, ap, subst, suc, ◌<◌, ◌≤◌, ◌∙◌, arith, length-append, Option, List, [], ◌∷◌, ◌++◌,
  ℕ, ℤ, All, All-append, All-map, length,
}
use calrissian.Dict.{Dict}
use calrissian.Executor.Resources.{Resources, add, neg, sub_rounded}
use calrissian.Executor.Resources.Order.{Within, IsNonnegative, Within-trans}
use calrissian.Executor.JobQueue.{Job, Jobs, ids, dequeue}
use calrissian.Executor.JobQueue.Greedy.{sum_resources, sum_resources-IsNonnegative}
use calrissian.Executor.JobQueue.Laws.{dequeue-IsValid, dequeue-Within, dequeue-exact}
use calrissian.Executor.Effects.{System, return}
use calrissian.Executor.Pool.{World, advance}
use calrissian.Executor.Loop.{
  add_output_dir, with_builder, new_future, start_job, start_each, start_queued_jobs,
}
use calrissian.Executor.Invariant.{IsSound, Inv, outstanding-append, account-return}
use calrissian.Executor.Jobs.{submitted, SameJobs-trans, advance-SameJobs}
use calrissian.Executor.Invariant.Workers.{Inv-Within}
use calrissian.Executor.Invariant.Events.{WorldIsProper, advance-Keeps}
use calrissian.Executor.Invariant.Taken.{
  taken-IsNonnegative, taken-Within, taken-rest, taken-balance, add_output_dir-Inv,
  add_output_dir-available, add_output_dir-SameJobs, submit-submitted, add_output_dir-rest,
}

-- A place in the pool of a state.
abbrev pub InPool : System → ℕ → Type 0
InPool s i = i < length s.pool

-- The futures of the jobs that were started between two states.
pub record Started (runnable : Jobs) (s : System) (futures : List ℕ) (s' : System) : Type 0 where
  pub jrq : s'.jrq ≡ s.jrq
  pub size : length s.pool ≤ length s'.pool
  pub count : length futures ≡ length runnable
  pub places : All (InPool s') futures
  pub submitted : submitted s' ≡ submitted s ++ ids runnable

-- The state from which the jobs that `start_queued_jobs` takes are started, and those jobs.
abbrev pub taken_at : World → System → System
taken_at world s =
    let s1 = advance world s in
    record s1 { jrq = (dequeue (sub_rounded s1.round) s1.available s1.jrq).1 }

abbrev pub runnable_at : World → System → Jobs
runnable_at world s =
    let s1 = advance world s in (dequeue (sub_rounded s1.round) s1.available s1.jrq).0

module _ {total : Resources} (world : World) (proper : WorldIsProper world)
    (builder : Option (Dict ℤ)) where
  -- A job that fits is started: its resources are taken, and a future is added.
  start_job_lem :
      (job : Job) (r rest : Resources) (s : System)
      → Inv total s
      → IsNonnegative r
      → IsNonnegative rest
      → Within (add r rest) s.available
      → (i : ℕ) × (s' : System) × (start_job world builder job r s ≡ (return i, s'))
        × Inv total s'
        × Within rest s'.available
        × (s'.jrq ≡ s.jrq)
        × (suc (length s.pool) ≤ length s'.pool)
        × InPool s' i
        × (submitted s' ≡ submitted s ++ job.id ∷ [])
  unfolding start_job
  start_job_lem job r rest s v h k fits =
      let s1 = add_output_dir job.outdir s in
      let (v2, freed) = advance-Keeps world proper s1 (add_output_dir-Inv job.outdir s v) in
      let s2 = advance world s1 in
      let fits2 : Within (add r rest) s2.available = Within-trans _ s.available _ fits (
        subst (λ a. Within a s2.available) (add_output_dir-available job.outdir s)
          freed.available) in
      let f = new_future (with_builder builder job) r in
      let grown = length-append s2.pool (f ∷ []) in
      let size = freed.size ∙ (add_output_dir-rest job.outdir s).1 in
      (
        length s2.pool,
        record s2 { available = add s2.available (neg r); pool = s2.pool ++ f ∷ [] },
        rw
            (account-return (neg r) s2 v2.whole v2.exact
              (taken-IsNonnegative s2.available r rest k fits2)
              (taken-Within s2.available r s2.total h (Inv-Within v2)))
            refl,
        record {
          whole = v2.whole;
          exact = v2.exact;
          balance = taken-balance _ r _ _ total v2.balance (outstanding-append s2.pool f refl);
          spare = taken-IsNonnegative s2.available r rest k fits2;
          queue = v2.queue;
          futures =
              All-append IsSound s2.pool (f ∷ []) v2.futures
                (record { nonneg = h; proper = tt; waiting = refl }, tt);
          proper = v2.proper;
        },
        taken-rest s2.available r rest fits2,
        freed.jrq ∙ (add_output_dir-rest job.outdir s).0,
        omega (arith, size),
        omega (arith, grown),
        submit-submitted s2.pool (submitted s) builder job r
            (SameJobs-trans s s1 s2 (add_output_dir-SameJobs job.outdir s)
              (advance-SameJobs world s1)).pool,
      )

  -- All jobs that fit together are started.
  start_each_lem :
      (runnable : Jobs) (s : System)
      → Inv total s
      → All (λ entry. IsNonnegative entry.1) runnable
      → Within (sum_resources runnable) s.available
      → (futures : List ℕ) × (s' : System) × (start_each world builder runnable s
          ≡ (return futures, s'))
        × Inv total s'
        × Started runnable s futures s'
  unfolding start_each sum_resources
  start_each_lem [] s v h fits = (
    [],
    s,
    refl,
    v,
    record {
      jrq = refl;
      size = omega arith;
      count = refl;
      places = tt;
      submitted = sym (append-nil (submitted s));
    },
  )
  start_each_lem ((job, r) ∷ runnable) s v h fits =
      let (i, s1, started, v1, fits1, jrq1, size1, place, jobs1) =
        start_job_lem job r (sum_resources runnable) s v h.0
          (sum_resources-IsNonnegative runnable h.1) fits in
      let (futures, s2, rest, v2, all) = start_each_lem runnable s1 v1 h.1 fits1 in
      let grown = all.size in
      let count = all.count in
      (
        i ∷ futures,
        s2,
        rw (started, rest),
        v2,
        record {
          jrq = all.jrq ∙ jrq1;
          size = omega arith;
          count = omega arith;
          places = (omega arith, all.places);
          submitted =
              all.submitted
              ∙ ap (λ js. js ++ ids runnable) jobs1
              ∙ append_assoc (submitted s) (job.id ∷ []) (ids runnable);
        },
      )

  pub start_queued_jobs_lem :
      (s : System)
      → Inv total s
      → (futures : List ℕ) × (s' : System) × (start_queued_jobs world builder s
          ≡ (return futures, s'))
        × Inv total s'
        × Started (runnable_at world s) (taken_at world s) futures s'
  unfolding start_queued_jobs
  start_queued_jobs_lem s v =
      let (v1, _) = advance-Keeps world proper s v in
      let s1 = advance world s in
      let (queue, taken) =
        dequeue-IsValid (sub_rounded s1.round) s1.available s1.jrq total v1.queue in
      start_each_lem (runnable_at world s) (taken_at world s)
        (record {
          whole = v1.whole;
          exact = v1.exact;
          balance = v1.balance;
          spare = v1.spare;
          queue = queue;
          futures = v1.futures;
          proper = v1.proper;
        })
        (All-map _ _ (λ entry h. h.0) taken)
        (rw
          (
            runnable_at,
            dequeue-exact total s1.round s1.available s1.jrq v1.exact v1.spare
                (rw v1.whole at (Inv-Within v1)) v1.queue,
          )
          (dequeue-Within s1.available s1.jrq v1.spare))

  -- Starting the queued jobs returns, so that every allocation succeeds, whatever the threads of
  -- the pool do meanwhile, and the invariant holds again, where it holds at first, which has it
  -- that Python does not round amounts between minus the whole and the whole, and no exception of
  -- a job reports inconsistent resources.
  pub start_queued_jobs-return :
      (s : System)
      → Inv total s
      → (futures : List ℕ) × (s' : System) × (start_queued_jobs world builder s
          ≡ (return futures, s'))
        × Inv total s'
  start_queued_jobs-return s v =
      let (futures, s', started, v', _) = start_queued_jobs_lem s v in (futures, s', started, v')
