-- ===== src/Executor/Invariant/End.antt =====
-- The state that `run_jobs` (calrissian/executor.py) leaves when it returns.
use calrissian.Prelude.{
  ◌≡◌, refl, subst, sym, true, false, Bool, Option, List, [], ◌∷◌, ◌++◌, ℕ, zero, suc, ℤ, pos, All,
  Bool-cases, inl, inr, arith, int_laws, if◌then◌else◌,
}
use calrissian.Dict.{Dict}
use calrissian.Executor.Resources.{Resources}
use calrissian.Executor.Resources.Order.{IsSum, SumsTo}
use calrissian.Executor.JobQueue.{is_empty}
use calrissian.Executor.Effects.{
  Future, System, Result, return, raise, waits, Action, and_then, ◌>>=◌,
}
use calrissian.Executor.Pool.{World, advance}
use calrissian.Executor.Loop.{
  Item, settle, enqueue_from, enqueue_jobs_from_iterator, is_drained, drain_queue, all_called,
  shutdown, after_shutdown, body, run_jobs,
}
use calrissian.Executor.Invariant.{Inv, outstanding}
use calrissian.Executor.Invariant.Events.{WorldIsProper, advance-Keeps}
use calrissian.Executor.Invariant.Start.{start_queued_jobs-return}
use calrissian.Executor.Invariant.Calls.{Safe, ItemIsProper}
use calrissian.Executor.Invariant.MainThread.{
  settle-Safe, enqueue_from-Safe, shutdown-Safe, body-Safe,
}

-- What holds of the state if the call returns.
abbrev pub OnReturn : {A : Type 0} → (System → Type 0) → Result A → System → Type 0
OnReturn P (return _) s = P s
OnReturn P _ s = Unit

module _ {total : Resources} {A B : Type 0} (P : System → Type 0) where
  and_then-OnReturn :
      (r : Result A) (f : A → Action B) (s : System)
      → ((a : A) (s' : System) → Inv total s' → OnReturn P (f a s').0 (f a s').1)
      → Inv total s
      → OnReturn P (and_then r f s).0 (and_then r f s).1
  and_then-OnReturn (return a) f s h v = h a s v
  and_then-OnReturn (raise e) f s h v = tt
  and_then-OnReturn waits f s h v = tt

  pub >>=-OnReturn :
      (m : Action A) (f : A → Action B)
      → Safe total m
      → ((a : A) (s' : System) → Inv total s' → OnReturn P (f a s').0 (f a s').1)
      → (s : System) → Inv total s
      → OnReturn P ((m >>= f) s).0 ((m >>= f) s).1
  >>=-OnReturn m f hm h s v = and_then-OnReturn (m s).0 f (m s).1 h (hm s v).0

pub if-OnReturn :
    {A : Type 0} (P : System → Type 0) (b : Bool) (m n : Action A) (s : System)
    → (b ≡ true → OnReturn P (m s).0 (m s).1)
    → OnReturn P (n s).0 (n s).1
    → OnReturn P ((if b then m else n) s).0 ((if b then m else n) s).1
if-OnReturn P true m n s h k = h refl
if-OnReturn P false m n s h k = k

-- Every job has left the queue, every callback has run, and everything is available again.
pub record IsFinished (total : Resources) (s : System) : Type 0 where
  pub queue : is_empty s.jrq ≡ true
  pub called : All (λ f. f.called ≡ true) s.pool
  pub available : s.available ≡ total

module _ (world : World) (fuel : ℕ) (builder : Option (Dict ℤ)) where
  all_called_lem :
      (pool : List Future)
      → all_called world fuel builder pool ≡ true
      → All (λ f. f.called ≡ true) pool × (outstanding pool ≡ outstanding [])
  unfolding outstanding
  all_called_lem [] h = (tt, refl)
  all_called_lem (f ∷ pool) h = elim (Bool-cases f.called) [
    | inl called ↦
        let (all, none_) = all_called_lem pool (rw called at h) in ((called, all), rw called none_)
    | inr open_ ↦ cc (rw open_ at h)
  ]

equal_ℤ : (m n : ℤ) → SumsTo m (pos 0) n → m ≡ n
equal_ℤ m n h = omega int_laws

pub balanced : (a t : Resources) → IsSum a (outstanding []) t → a ≡ t
unfolding outstanding
balanced a t h = λ i. record {
  ram = equal_ℤ a.ram t.ram h.ram i;
  cores = equal_ℤ a.cores t.cores h.cores i;
  gpus = equal_ℤ a.gpus t.gpus h.gpus i;
}

module _ {total : Resources} (world : World) (proper : WorldIsProper world) (fuel : ℕ)
    (builder : Option (Dict ℤ)) where
  shutdown-OnReturn :
      (rounds : ℕ) (s : System)
      → Inv total s
      → is_empty s.jrq ≡ true
      → OnReturn
          (IsFinished total)
          (shutdown world fuel builder rounds s).0
          (shutdown world fuel builder rounds s).1
  unfolding shutdown
  shutdown-OnReturn zero s v h = tt
  shutdown-OnReturn (suc rounds) s v h =
      let s1 = advance world s in
      let (v1, freed) = advance-Keeps world proper s v in
      let empty1 : is_empty s1.jrq ≡ true = subst (λ q. is_empty q ≡ true) (sym freed.jrq) h in
      if-OnReturn (IsFinished total) (all_called world fuel builder s1.pool) _
        (shutdown world fuel builder rounds) s1
        (λ all.
          let (called, none_) = all_called_lem world fuel builder s1.pool all in
          record {
            queue = empty1;
            called = called;
            available =
                balanced s1.available total
                  (subst (λ o. IsSum s1.available o total) none_ v1.balance);
          })
        (shutdown-OnReturn rounds s1 v1 empty1)

  drain_queue-OnReturn :
      (rounds : ℕ) (futures : List ℕ) (s : System)
      → Inv total s
      → OnReturn
          (λ s. is_empty s.jrq ≡ true)
          (drain_queue world fuel builder rounds futures s).0
          (drain_queue world fuel builder rounds futures s).1
  unfolding drain_queue
  drain_queue-OnReturn zero futures s v = tt
  drain_queue-OnReturn (suc rounds) futures s v =
      let (submitted, s1, started, v1) = start_queued_jobs-return world proper builder s v in
      rw started (
        >>=-OnReturn (λ s. is_empty s.jrq ≡ true) (settle world fuel builder (futures ++ submitted))
          _ (settle-Safe world proper fuel builder (futures ++ submitted))
          (λ left s2 v2.
            if-OnReturn (λ s. is_empty s.jrq ≡ true) (is_drained world fuel builder left s2) _
              (drain_queue world fuel builder rounds left) s2 (λ h. ground arith)
              (drain_queue-OnReturn rounds left s2 v2))
          s1 v1)

  body-OnReturn :
      (items : List Item) (s : System)
      → All ItemIsProper items
      → Inv total s
      → OnReturn
          (λ s. is_empty s.jrq ≡ true)
          (body world fuel builder items s).0
          (body world fuel builder items s).1
  unfolding enqueue_jobs_from_iterator
  body-OnReturn items s p v =
      >>=-OnReturn (λ s. is_empty s.jrq ≡ true) (enqueue_from world fuel builder [] items) _
        (enqueue_from-Safe world proper fuel builder items [] p)
        (λ futures s1 v1. drain_queue-OnReturn fuel futures s1 v1) s v

  after_shutdown-OnReturn :
      (r : Result (Unit {0})) (s : System)
      → Inv total s
      → OnReturn (λ s. is_empty s.jrq ≡ true) r s
      → OnReturn
          (IsFinished total)
          (after_shutdown world fuel builder r s).0
          (after_shutdown world fuel builder r s).1
  after_shutdown-OnReturn (return _) s v h = shutdown-OnReturn fuel s v h
  after_shutdown-OnReturn (raise e) s v h =
      >>=-OnReturn (IsFinished total) (shutdown world fuel builder fuel) (λ _ s. (raise e, s))
        (shutdown-Safe world proper fuel builder fuel) (λ _ s v. tt) s v
  after_shutdown-OnReturn waits s v h = tt

  pub run_jobs-OnReturn :
      (lock : Bool) (items : List Item) (s : System)
      → All ItemIsProper items
      → Inv total s
      → OnReturn
          (IsFinished total)
          (run_jobs world fuel builder lock items s).0
          (run_jobs world fuel builder lock items s).1
  unfolding run_jobs
  run_jobs-OnReturn false items s p v = tt
  run_jobs-OnReturn true items s p v =
      after_shutdown-OnReturn (body world fuel builder items s).0
        (body world fuel builder items s).1 (body-Safe world proper fuel builder items p s v).0
        (body-OnReturn items s p v)

-- When a run returns without an exception, the queue is empty, every callback has run, and
-- everything is available again. That holds for any order of events on the other threads, where no
-- job asks for a negative amount, no exception of a job or of the iterator reports inconsistent
-- resources, and the invariant holds at first, which has it that Python does not round amounts
-- between minus the whole and the whole.
pub run_jobs-IsFinished :
    (total : Resources) (world : World) (fuel : ℕ) (builder : Option (Dict ℤ)) (lock : Bool)
    (items : List Item) (s : System)
    → WorldIsProper world
    → All ItemIsProper items
    → Inv total s
    → (run_jobs world fuel builder lock items s).0 ≡ return tt
    → IsFinished total (run_jobs world fuel builder lock items s).1
run_jobs-IsFinished total world fuel builder lock items s proper p v returned =
    subst (λ r. OnReturn (IsFinished total) r (run_jobs world fuel builder lock items s).1) returned
      (run_jobs-OnReturn world proper fuel builder lock items s p v)
