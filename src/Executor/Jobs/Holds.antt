-- ===== src/Executor/Jobs/Holds.antt =====
-- The jobs that the executor holds, and calls that keep them or add to them (calrissian/executor.py).
use mathlib.Core.List.{Perm, map-append, append_assoc}
use mathlib.Core.List.Perm
use calrissian.Prelude.{◌≡◌, sym, subst, Option, none, some, List, [], ◌∷◌, ◌++◌, ℕ, ℤ}
use calrissian.Dict.{Dict}
use calrissian.Executor.Resources.{Resources}
use calrissian.Executor.JobQueue.{Job, Jobs, JobResourceQueue, ids}
use calrissian.Executor.Effects.{System, Result, return, raise, waits, Action, and_then, ◌>>=◌}
use calrissian.Executor.Pool.{World}
use calrissian.Executor.Loop.{Item, yields, fails, settle}
use calrissian.Executor.Invariant.{Inv}
use calrissian.Executor.Invariant.Calls.{Safe}
use calrissian.Executor.Invariant.End.{OnReturn}
use calrissian.Executor.Jobs.{submitted, SameJobs}
use calrissian.Executor.Jobs.Waits.{Leaves, settle-Leaves}

-- The jobs that are submitted and those that are queued are together the given ones, in some order.
abbrev pub Holds : List ℕ → System → Type 0
Holds xs s = Perm (submitted s ++ ids s.jrq.jobs) xs

-- The jobs that the iterator yields.
abbrev pub given_by : Item → List ℕ
given_by (yields none) = []
given_by (yields (some job)) = job.id ∷ []
given_by (fails e) = []

abbrev pub given : List Item → List ℕ
given [] = []
given (item ∷ items) = given_by item ++ given items

pub SameJobs-Holds : (xs : List ℕ) (s t : System) → SameJobs s t → Holds xs s → Holds xs t
SameJobs-Holds xs s t same h =
    subst (λ js. Perm (js ++ ids t.jrq.jobs) xs) (sym same.pool)
      (subst (λ q. Perm (submitted s ++ ids q.jobs) xs) (sym same.jrq) h)

module _ {total : Resources} {A B : Type 0} (Q R : System → Type 0) where
  and_then_on :
      (r : Result A) (f : A → Action B) (s : System)
      → ((a : A) (s' : System) → Inv total s' → Q s' → OnReturn R (f a s').0 (f a s').1)
      → Inv total s
      → OnReturn Q r s
      → OnReturn R (and_then r f s).0 (and_then r f s).1
  and_then_on (return a) f s h v q = h a s v q
  and_then_on (raise e) f s h v q = tt
  and_then_on waits f s h v q = tt

  -- What holds once the first call has returned is there for the second.
  pub in_turn :
      (m : Action A) (f : A → Action B) (s : System)
      → Safe total m
      → OnReturn Q (m s).0 (m s).1
      → ((a : A) (s' : System) → Inv total s' → Q s' → OnReturn R (f a s').0 (f a s').1)
      → Inv total s
      → OnReturn R ((m >>= f) s).0 ((m >>= f) s).1
  in_turn m f s safe q h v = and_then_on (m s).0 f (m s).1 h (safe s v).0 q

-- A call that leaves the jobs as they are.
pub Leaves-OnReturn :
    {A : Type 0} (xs : List ℕ) (m : Action A) (s : System)
    → Leaves m
    → Holds xs s
    → OnReturn (Holds xs) (m s).0 (m s).1
Leaves-OnReturn xs m s leaves h = on (m s).0 (m s).1 (SameJobs-Holds xs s (m s).1 (leaves s) h)
  where
    on : {A : Type 0} (r : Result A) (t : System) → Holds xs t → OnReturn (Holds xs) r t
    on (return a) t k = k
    on (raise e) t k = tt
    on waits t k = tt

-- Submitting what is dequeued, and queueing a job.
pub dequeued-Holds :
    (xs before : List ℕ) (taken rest all : Jobs)
    → Perm (taken ++ rest) all
    → Perm (before ++ ids all) xs
    → Perm ((before ++ ids taken) ++ ids rest) xs
dequeued-Holds xs before taken rest all split h =
    let parts : Perm (ids taken ++ ids rest) (ids all) =
      subst (λ js. Perm js (ids all)) (map-append (λ e. e.0.id) taken rest)
        (Perm.map (λ e. e.0.id) split) in
    Perm.trans
      (subst (λ js. Perm js (before ++ ids all)) (sym (append_assoc before (ids taken) (ids rest)))
        (Perm.append_left before parts))
      h

pub queued-Holds :
    (xs before : List ℕ) (old : Jobs) (job : Job) (r : Resources)
    → Perm (before ++ ids old) xs
    → Perm (before ++ ids (old ++ (job, r) ∷ [])) (xs ++ job.id ∷ [])
queued-Holds xs before old job r h = rw map-append (
    subst (λ js. Perm js (xs ++ job.id ∷ [])) (append_assoc before (ids old) (job.id ∷ []))
      (Perm.append_right (job.id ∷ []) h))

-- The state after, from what its jobs are known to be.
pub held_after :
    (xs : List ℕ) (t : System) (js : List ℕ) (q : JobResourceQueue)
    → submitted t ≡ js
    → t.jrq ≡ q
    → Perm (js ++ ids q.jobs) xs
    → Holds xs t
held_after xs t js q e f k =
    subst (λ js. Perm (js ++ ids t.jrq.jobs) xs) (sym e)
      (subst (λ q. Perm (js ++ ids q.jobs) xs) (sym f) k)

module _ (world : World) (fuel : ℕ) (builder : Option (Dict ℤ)) where
  pub settle-Holds :
      (xs futures : List ℕ) (s : System)
      → Holds xs s
      → OnReturn
          (Holds xs)
          (settle world fuel builder futures s).0
          (settle world fuel builder futures s).1
  settle-Holds xs futures s h =
      Leaves-OnReturn xs (settle world fuel builder futures) s
        (settle-Leaves world fuel builder futures) h
