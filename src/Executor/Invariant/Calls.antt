-- ===== src/Executor/Invariant/Calls.antt =====
-- Calls of the main thread of the executor that keep the invariant (calrissian/executor.py): how they
-- combine, what is raised, and what goes into the queue.
use calrissian.Prelude.{
  ◌≡◌, true, false, Bool, inl, inr, none, some, List, [], ◌∷◌, ℕ, subst, All, Bool-cases,
  if◌then◌else◌,
}
use calrissian.Executor.Resources.{Resources, exceeds}
use calrissian.Executor.Resources.Order.{IsNonnegative}
use calrissian.Executor.JobQueue.{Job, JobResourceQueue, from_job}
use calrissian.Executor.JobQueue.Laws.{IsValid, enqueue-IsValid}
use calrissian.Executor.Effects.{
  Kind, workflow, validation, Exception, System, Result, return, raise, waits, Action, and_then,
  ◌>>=◌, ◌>>◌, pure,
}
use calrissian.Executor.Loop.{
  as_workflow, raised, raise_queued, Item, yields, fails, raise_if_oversized, enqueue_job,
}
use calrissian.Executor.Invariant.{IsProper, Inv}

-- A call that raises, raises something else than inconsistent resources.
abbrev pub RaisesProper : {A : Type 0} → Result A → Type 0
RaisesProper (raise e) = IsProper e
RaisesProper _ = Unit

-- A method keeps the invariant, however it ends.
abbrev pub Safe : {A : Type 0} → Resources → Action A → Type 0
Safe total m = (s : System) → Inv total s → Inv total (m s).1 × RaisesProper (m s).0

module _ {total : Resources} {A B : Type 0} where
  pub and_then-Safe :
      (r : Result A) (f : A → Action B) (s : System)
      → RaisesProper r
      → ((a : A) → Safe total (f a))
      → Inv total s
      → Inv total (and_then r f s).1 × RaisesProper (and_then r f s).0
  and_then-Safe (return a) f s p h v = h a s v
  and_then-Safe (raise e) f s p h v = (v, p)
  and_then-Safe waits f s p h v = (v, tt)

  pub >>=-Safe :
      (m : Action A) (f : A → Action B)
      → Safe total m
      → ((a : A) → Safe total (f a))
      → Safe total (m >>= f)
  >>=-Safe m f hm hf s v = let (v', p) = hm s v in and_then-Safe (m s).0 f (m s).1 p hf v'

pub if-Safe :
    {total : Resources} {A : Type 0} (b : Bool) (m n : Action A)
    → Safe total m
    → Safe total n
    → Safe total (if b then m else n)
if-Safe true m n h k = h
if-Safe false m n h k = k

pub as_workflow-IsProper :
    (e : Exception) (kind : Kind) → IsProper e → IsProper (as_workflow e kind)
as_workflow-IsProper e workflow p = p
as_workflow-IsProper e validation p = p
as_workflow-IsProper e _ p = λ h. cc

pub raised-IsProper : (e : Exception) (es : List Exception) → IsProper e → IsProper (raised e es)
unfolding raised
raised-IsProper e [] p = as_workflow-IsProper e e.kind p
raised-IsProper e (e' ∷ es) p = λ h. cc

pub raise_queued-Safe :
    {total : Resources} (es : List Exception) → All IsProper es → Safe total (raise_queued es)
unfolding raise_queued
raise_queued-Safe [] h s v = (v, tt)
raise_queued-Safe (e ∷ es) h s v = (
  record {
    whole = v.whole;
    exact = v.exact;
    balance = v.balance;
    spare = v.spare;
    queue = v.queue;
    futures = v.futures;
    proper = tt;
  },
  raised-IsProper e es h.0,
)

-- What the iterator yields: no job asks for a negative amount, and its own exceptions do not report
-- inconsistent resources.
abbrev pub ItemIsProper : Item → Type 0
ItemIsProper (yields none) = Unit
ItemIsProper (yields (some job)) = IsNonnegative (from_job job)
ItemIsProper (fails e) = IsProper e

pub enqueued-Inv :
    {total : Resources} (s : System) (q : JobResourceQueue)
    → Inv total s
    → IsValid total q
    → Inv total (record s { jrq = q })
enqueued-Inv s q v h = record {
  whole = v.whole;
  exact = v.exact;
  balance = v.balance;
  spare = v.spare;
  queue = h;
  futures = v.futures;
  proper = v.proper;
}

pub enqueue_job-Safe :
    {total : Resources} (job : Job)
    → IsNonnegative (from_job job)
    → exceeds (from_job job) total ≡ false
    → Safe total (enqueue_job job)
unfolding enqueue_job
enqueue_job-Safe {total} job p fits s v = elim (enqueue-IsValid total job s.jrq v.queue p fits) [
  | inl (_, refused) ↦ rw (refused, RaisesProper, enqueue_job) (v, λ h. cc)
  | inr (q, queued, _, valid) ↦
      rw (queued, RaisesProper, enqueue_job) (enqueued-Inv s q v valid, tt)
]

pub queue_job-Safe :
    {total : Resources} (job : Job) (futures : List ℕ)
    → IsNonnegative (from_job job)
    → Safe total (raise_if_oversized job >> (enqueue_job job >> pure futures))
unfolding raise_if_oversized
queue_job-Safe job futures p s v = elim (Bool-cases (exceeds (from_job job) s.total)) [
  | inl over ↦ rw (over, RaisesProper) (v, λ h. cc)
  | inr fits ↦
      rw (fits, RaisesProper)
        (>>=-Safe (enqueue_job job) _
          (enqueue_job-Safe job p (subst (λ t. exceeds (from_job job) t ≡ false) v.whole fits))
          (λ _ s v. (v, tt)) s v)
]
