-- ===== src/Executor/Tests.antt =====
-- Runs of the executor on small inputs (calrissian/executor.py).
use mathlib.Core.HLevel.{⊥_prop}
use mathlib.Core.Logic.Or
use mathlib.Core.List.{Mem, Perm, Nodup, Nodup-nil, Nodup-cons, mem-cons, not-mem-nil}
use calrissian.Executor.Resources.Order.{Within}
use calrissian.Executor.JobQueue.{JobResourceQueue, ram, ids, has_job, sorted_jobs}
use calrissian.Executor.JobQueue.Greedy.{sum_resources}
use calrissian.Executor.JobQueue.Laws.{
  IsValid, IsListed, sorted_jobs-IsListed, dequeue-perm, dequeue-Within, dequeue_maximal,
  enqueue-IsValid,
}
use calrissian.Executor.Invariant.{Inv, IsProper, outstanding}
use calrissian.Executor.Invariant.Start.{start_queued_jobs-return}
use calrissian.Executor.Invariant.Calls.{ItemIsProper, RaisesProper}
use calrissian.Executor.Invariant.MainThread.{run_jobs-Inv}
use calrissian.Executor.Invariant.End.{IsFinished, run_jobs-IsFinished}
use calrissian.Executor.Jobs.{submitted}
use calrissian.Executor.Jobs.Run.{run_jobs-submits}
use calrissian.Executor.Select.{
  Request, requested_min, requested_max, select_resources, select_resources-Within,
}
use calrissian.Executor.Progress.Prompt.{prompt, prompt-WorldIsProper, prompt-IsTimely}
use calrissian.Executor.Progress.Run.{run_jobs-IsFinished_or_raises}
use calrissian.Executor.Loop.{start_queued_jobs}
use calrissian.Executor.Resources.{Resources}
use calrissian.Prelude.{
  All, false, ltb, if◌then◌else◌, ℕ, ◌++◌, arith, ◌⊎◌, ℕ, ◌≡◌, refl, true, none, some, List, [],
  ◌∷◌, pos, ◌+ℤ◌, ◌-ℤ◌, neg_ℤ,
}
use calrissian.Executor.Resources.{
  empty, sub, add, rounded, sub_rounded, add_rounded, neg, ge, exceeds, is_negative, from_dict,
  to_dict,
}
use calrissian.Executor.JobQueue.{Job, from_job, new_queue, enqueue, is_empty, dequeue}
use calrissian.Executor.Effects.{other, Exception, Result, System, return, raise}
use calrissian.Executor.Pool.{World, begin, callback, finish, work, work_all, advance}
use calrissian.Executor.Loop.{Item, yields, run_jobs}
use mathlib.Core.Logic.Dec
use native.Mathlib.Decide.{ℕ_discrete}
use calrissian.Sort.{sorted}

program : Unit {0}
unfolding run_jobs advance work_all work dequeue enqueue is_empty from_job new_queue empty sub add
    rounded sub_rounded add_rounded neg ge exceeds is_negative from_dict ◌+ℤ◌ ◌-ℤ◌ neg_ℤ sorted
    Dec.not ℕ_discrete
program = tt

abbrev job : ℕ → ℕ → Job
job id size = record {
  id = id;
  builder = some (("ram", pos size) ∷ ("cores", pos 1) ∷ []);
  outdir = some "out";
}

abbrev start : System
start = record {
  jrq = record { jobs = []; priority = ram; descending = false };
  exceptions = [];
  total = record { ram = pos 10; cores = pos 4; gpus = pos 0 };
  available = record { ram = pos 10; cores = pos 4; gpus = pos 0 };
  output_dirs = [];
  round = λ n. n;
  pool = [];
  clock = 0;
}

abbrev items : List Item
items =
    yields (some (job 1 6)) ∷ yields (some (job 2 6)) ∷ yields none ∷ yields (some (job 3 2)) ∷ []

run_prompt : (run_jobs prompt 9 none true items start).0 ≡ return tt
unfolding program
run_prompt = refl

-- Witnesses of the theorems, at small inputs where their hypotheses hold.
start-Inv : Inv start.total start
unfolding outstanding rounded
start-Inv = record {
  whole = refl;
  exact = λ a h k. refl;
  balance = omega arith;
  spare = omega arith;
  queue = record { distinct = Nodup-nil; sizes = tt };
  futures = tt;
  proper = tt;
}

items-proper : All ItemIsProper items
unfolding program
items-proper = (omega arith, (omega arith, (tt, (omega arith, tt))))

run_jobs-Inv_example :
    Inv start.total (run_jobs prompt 9 none true items start).1
    × RaisesProper (run_jobs prompt 9 none true items start).0
run_jobs-Inv_example =
    run_jobs-Inv start.total prompt 9 none true items start prompt-WorldIsProper items-proper
      start-Inv

run_jobs-IsFinished_example : IsFinished start.total (run_jobs prompt 9 none true items start).1
run_jobs-IsFinished_example =
    run_jobs-IsFinished start.total prompt 9 none true items start prompt-WorldIsProper items-proper
      start-Inv run_prompt

run_jobs-submits_example :
    Perm {A = ℕ} (submitted (run_jobs prompt 9 none true items start).1) (1 ∷ 2 ∷ 3 ∷ [])
run_jobs-submits_example =
    run_jobs-submits start.total prompt 9 none true items start prompt-WorldIsProper items-proper
      start-Inv run_prompt

abbrev failure : Exception
failure = record { kind = other; text = "no memory" ∷ [] }

-- The job fails before the main thread looks, and its callback runs only when the pool is shut down.
abbrev late : World
late clock pool = if ltb clock 8 then begin 0 ∷ finish 0 (some failure) ∷ [] else callback 0 ∷ []

abbrev late_run : Result (Unit {0}) × System
late_run = run_jobs late 9 none true (yields (some (job 1 6)) ∷ []) start

-- The run returns, and the exception of its last job stays in the queue.
late_exception : (late_run.0 ≡ return tt) × (late_run.1.exceptions ≡ failure ∷ [])
unfolding program
late_exception = (refl, refl)

run_jobs-IsFinished_or_raises_example :
    let (result, after) = run_jobs prompt 11 none true items start in
    ((result ≡ return tt) × IsFinished start.total after)
    ⊎ ((e : Exception) × (result ≡ raise e) × IsProper e)
run_jobs-IsFinished_or_raises_example =
    run_jobs-IsFinished_or_raises start.total prompt 1 11 none true items start prompt-WorldIsProper
      prompt-IsTimely items-proper start-Inv (omega arith)

abbrev small : Resources
small = record { ram = pos 6; cores = pos 1; gpus = pos 0 }

abbrev two_jobs : JobResourceQueue
two_jobs = record {
  jobs = (job 1 6, small) ∷ (job 2 6, small) ∷ [];
  priority = ram;
  descending = false;
}

one-not-mem : ¬ Mem {A = ℕ} 1 (2 ∷ [])
one-not-mem m = Or.elim ⊥_prop (mem-cons.0 m) (λ e. omega arith) not-mem-nil

two_jobs-Nodup : Nodup (ids two_jobs.jobs)
two_jobs-Nodup = Nodup-cons.1 (one-not-mem, Nodup-cons.1 (not-mem-nil, Nodup-nil))

two_jobs-IsValid : IsValid start.total two_jobs
two_jobs-IsValid = record { distinct = two_jobs-Nodup; sizes = omega arith }

abbrev queued : System
queued = record start { jrq = two_jobs }

queued-Inv : Inv start.total queued
unfolding outstanding rounded
queued-Inv = record {
  whole = refl;
  exact = λ a h k. refl;
  balance = omega arith;
  spare = omega arith;
  queue = two_jobs-IsValid;
  futures = tt;
  proper = tt;
}

start_queued_jobs-return_example :
    (futures : List ℕ) × (s' : System) × (start_queued_jobs prompt none queued
      ≡ (return futures, s'))
    × Inv start.total s'
start_queued_jobs-return_example =
    start_queued_jobs-return prompt prompt-WorldIsProper none queued queued-Inv

sorted_jobs-IsListed_example :
    IsListed two_jobs.priority two_jobs.descending (sorted_jobs two_jobs)
    × Perm (sorted_jobs two_jobs) two_jobs.jobs
sorted_jobs-IsListed_example = sorted_jobs-IsListed two_jobs

dequeue-perm_example :
    Perm
      ((dequeue sub start.total two_jobs).0 ++ (dequeue sub start.total two_jobs).1.jobs)
      two_jobs.jobs
dequeue-perm_example = dequeue-perm sub start.total two_jobs two_jobs-Nodup

dequeue-Within_example : Within (sum_resources (dequeue sub start.total two_jobs).0) start.total
dequeue-Within_example = dequeue-Within start.total two_jobs (omega arith)

dequeue_maximal_example :
    All
      (λ entry.
        ¬ Within entry.1 (sub start.total (sum_resources (dequeue sub start.total two_jobs).0)))
      (dequeue sub start.total two_jobs).1.jobs
dequeue_maximal_example = dequeue_maximal start.total two_jobs two_jobs-Nodup (omega arith)

enqueue-IsValid_example :
    ((has_job 3 two_jobs.jobs ≡ true) × (enqueue (some (job 3 2)) two_jobs ≡ none))
    ⊎ ((q' : JobResourceQueue) × (enqueue (some (job 3 2)) two_jobs ≡ some q')
        × (q'.jobs ≡ two_jobs.jobs ++ (job 3 2, from_job (job 3 2)) ∷ [])
        × IsValid start.total q')
unfolding program
enqueue-IsValid_example =
    enqueue-IsValid start.total (job 3 2) two_jobs two_jobs-IsValid (omega arith) refl

abbrev wanted : Request
wanted = record {
  ram_min = pos 2;
  ram_max = pos 20;
  cores_min = pos 1;
  cores_max = pos 2;
  cuda_device_count_min = none;
  cuda_device_count_max = none;
}

select_resources-Within_example :
    ((select_resources start.total wanted ≡ none) × ¬ Within (requested_min wanted) start.total)
    ⊎ ((selected : Resources) × (select_resources start.total wanted ≡ some (to_dict selected))
        × Within (requested_min wanted) selected
        × Within selected (requested_max wanted)
        × Within selected start.total)
select_resources-Within_example = select_resources-Within start.total wanted (omega arith)
