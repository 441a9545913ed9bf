-- ===== src/Executor/Invariant/Taken.antt =====
-- What starting a job changes (calrissian/executor.py): the account, the output directories and the
-- pool.
use Prim.Native.String.{String}
use mathlib.Core.List.{map-append}
use calrissian.Prelude.{
  ◌≡◌, refl, ap, Option, none, some, List, [], ◌∷◌, ◌++◌, ℕ, ℤ, int_laws, length, map,
}
use calrissian.Dict.{Dict}
use calrissian.Executor.Resources.{Resources, add, neg}
use calrissian.Executor.Resources.Order.{Within, IsNonnegative, IsSum}
use calrissian.Executor.JobQueue.{Job}
use calrissian.Executor.Effects.{Future, System}
use calrissian.Executor.Loop.{add_output_dir, with_builder, new_future}
use calrissian.Executor.Invariant.{Inv}
use calrissian.Executor.Jobs.{job_id, SameJobs, SameJobs-refl}

-- What is left when `rsc` is taken from what is available.
pub taken-IsNonnegative :
    (a r rest : Resources)
    → IsNonnegative rest
    → Within (add r rest) a
    → IsNonnegative (add a (neg r))
unfolding add neg
taken-IsNonnegative a r rest h k = omega int_laws

pub taken-Within : (a r t : Resources) → IsNonnegative r → Within a t → Within (add a (neg r)) t
unfolding add neg
taken-Within a r t h k = omega int_laws

pub taken-rest : (a r rest : Resources) → Within (add r rest) a → Within rest (add a (neg r))
unfolding add neg
taken-rest a r rest k = omega int_laws

pub taken-balance :
    (a r o o' t : Resources) → IsSum a o t → IsSum o r o' → IsSum (add a (neg r)) o' t
unfolding add neg
taken-balance a r o o' t h k = omega int_laws

pub add_output_dir-Inv :
    {total : Resources} (dir : Option String) (s : System)
    → Inv total s
    → Inv total (add_output_dir dir s)
add_output_dir-Inv none s v = v
add_output_dir-Inv (some dir) s v = record {
  whole = v.whole;
  exact = v.exact;
  balance = v.balance;
  spare = v.spare;
  queue = v.queue;
  futures = v.futures;
  proper = v.proper;
}

pub add_output_dir-available :
    (dir : Option String) (s : System) → (add_output_dir dir s).available ≡ s.available
add_output_dir-available none s = refl
add_output_dir-available (some dir) s = refl

pub add_output_dir-SameJobs : (dir : Option String) (s : System) → SameJobs s (add_output_dir dir s)
add_output_dir-SameJobs none s = SameJobs-refl s
add_output_dir-SameJobs (some dir) s = record { pool = refl; jrq = refl }

-- A new future has the job that is submitted.
pub submit-submitted :
    (pool : List Future) (before : List ℕ) (builder : Option (Dict ℤ)) (job : Job) (r : Resources)
    → map job_id pool ≡ before
    → map job_id (pool ++ new_future (with_builder builder job) r ∷ []) ≡ before ++ job.id ∷ []
submit-submitted pool before none job r e = rw map-append (ap (λ js. js ++ job.id ∷ []) e)
submit-submitted pool before (some b) job r e = rw map-append (ap (λ js. js ++ job.id ∷ []) e)

pub add_output_dir-rest :
    (dir : Option String) (s : System)
    → ((add_output_dir dir s).jrq ≡ s.jrq) × (length (add_output_dir dir s).pool ≡ length s.pool)
add_output_dir-rest none s = (refl, refl)
add_output_dir-rest (some dir) s = (refl, refl)
