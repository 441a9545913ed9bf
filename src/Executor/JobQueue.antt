-- ===== src/Executor/JobQueue.antt =====
-- class JobResourceQueue of calrissian/executor.py. A job is an object of cwltool of which the code
-- uses the identity, the optional builder (with its resources) and the optional output directory.
-- The dict of jobs is a list in insertion order, keyed by the identity.
pub mod Greedy
pub mod Partition
pub mod Laws
use Prim.Native.String.{String}
use mathlib.Core.Logic.Dec
use mathlib.Core.List.{filter}
use native.Mathlib.Decide.{ℕ_discrete}
use calrissian.Prelude.{
  ℕ, ◌==◌, Bool, true, false, ◌||◌, Option, none, some, List, [], ◌∷◌, ◌++◌, map, ℤ, leb_ℤ, any,
  arith, if◌then◌else◌,
}
use calrissian.Dict.{Dict}
use calrissian.Sort.{sorted}
use calrissian.Executor.Resources.{Resources, empty, ge, from_dict}

pub record Job : Type 0 where
  pub id : ℕ
  pub builder : Option (Dict ℤ)
  pub outdir : Option String

unfoldable pub from_job : Job → Resources
from_job job = elim job.builder [ none ↦ empty | some resources ↦ from_dict resources ]

abbrev pub Jobs : Type 0
Jobs = List (Job × Resources)

pub data Priority : Type 0 where
  ram cores gpus : Priority

pub record JobResourceQueue : Type 0 where
  pub jobs : Jobs
  pub priority : Priority
  pub descending : Bool

unfoldable pub new_queue : JobResourceQueue
new_queue = record { jobs = []; priority = ram; descending = false }

abbrev pub ids : Jobs → List ℕ
ids = map (λ entry. entry.0.id)

abbrev pub has_job : ℕ → Jobs → Bool
has_job id = any (λ entry. entry.0.id == id)

-- `none` is the DuplicateJobException. An absent job (Python's None) is ignored.
unfoldable pub enqueue : Option Job → JobResourceQueue → Option JobResourceQueue
enqueue none q = some q
enqueue (some job) q =
    if has_job job.id q.jobs
    then none
    else some (record q { jobs = q.jobs ++ (job, from_job job) ∷ [] })

unfoldable pub is_empty : JobResourceQueue → Bool
is_empty q = elim q.jobs [ [] ↦ true | _ ∷ _ ↦ false ]

abbrev pub key : Priority → Resources → ℤ
key ram r = r.ram
key cores r = r.cores
key gpus r = r.gpus

abbrev pub goes_before : Priority → Bool → Job × Resources → Job × Resources → Bool
goes_before p true x y = leb_ℤ (key p y.1) (key p x.1)
goes_before p false x y = leb_ℤ (key p x.1) (key p y.1)

unfoldable pub sorted_jobs : JobResourceQueue → Jobs
sorted_jobs q = sorted (goes_before q.priority q.descending) q.jobs

-- `self.jobs.pop(job)`
abbrev pub pop : ℕ → Jobs → Jobs
pop id jobs = filter (λ entry. Dec.not (ℕ_discrete entry.0.id id)) jobs

-- The first loop of `dequeue`: the jobs taken, in the order of the dict `jobs`. `minus` is Python's
-- subtraction of resources.
unfoldable pub collect : (Resources → Resources → Resources) → Resources → Jobs → Jobs
collect minus limit [] = []
collect minus limit ((job, r) ∷ rest) = elim (ge (minus limit r) empty) [
  | true ↦ (job, r) ∷ collect minus (minus limit r) rest
  | false ↦ collect minus limit rest
]

-- The second loop.
unfoldable pub pop_all : Jobs → Jobs → Jobs
pop_all [] jobs = jobs
pop_all ((job, _) ∷ taken) jobs = pop_all taken (pop job.id jobs)

unfoldable pub dequeue :
    (Resources → Resources → Resources) → Resources → JobResourceQueue → Jobs × JobResourceQueue
unfolding collect pop_all sorted_jobs
dequeue minus resource_limit q =
    let taken = collect minus resource_limit (sorted_jobs q) in
    (taken, record q { jobs = pop_all taken q.jobs })
