-- ===== src/Executor/Jobs/Waits.antt =====
-- The calls of the main thread that wait, and those that raise, leave the jobs as they are
-- (calrissian/executor.py).
use calrissian.Prelude.{
  refl, Bool, true, false, ◌||◌, Option, List, [], ◌∷◌, ℕ, zero, suc, ℤ, any, if◌then◌else◌,
}
use calrissian.Dict.{Dict}
use calrissian.Executor.Effects.{
  Exception, System, Result, return, raise, waits, Action, and_then, ◌>>=◌,
}
use calrissian.Executor.Pool.{World, advance}
use calrissian.Executor.Loop.{
  done_at, not_done, is_nil, raise_queued, wait_for_completion, wait_all, cancel_all, if_queued,
  cancel_and_raise, raise_if_exception_queued, settle, all_called, shutdown,
}
use calrissian.Executor.Jobs.{
  SameJobs, SameJobs-refl, SameJobs-trans, advance-SameJobs, cancel-SameJobs,
}

abbrev pub Leaves : {A : Type 0} → Action A → Type 0
Leaves m = (s : System) → SameJobs s (m s).1

module _ {A B : Type 0} where
  and_then-Leaves :
      (r : Result A) (f : A → Action B) → ((a : A) → Leaves (f a)) → Leaves (and_then r f)
  and_then-Leaves (return a) f h s = h a s
  and_then-Leaves (raise e) f h s = SameJobs-refl s
  and_then-Leaves waits f h s = SameJobs-refl s

  >>=-Leaves :
      (m : Action A) (f : A → Action B) → Leaves m → ((a : A) → Leaves (f a)) → Leaves (m >>= f)
  >>=-Leaves m f h k s = SameJobs-trans s (m s).1 _ (h s) (and_then-Leaves (m s).0 f k (m s).1)

if-Leaves :
    {A : Type 0} (b : Bool) (m n : Action A) → Leaves m → Leaves n → Leaves (if b then m else n)
if-Leaves true m n h k = h
if-Leaves false m n h k = k

raise_queued-Leaves : (es : List Exception) → Leaves (raise_queued es)
unfolding raise_queued
raise_queued-Leaves [] s = SameJobs-refl s
raise_queued-Leaves (e ∷ es) s = record { pool = refl; jrq = refl }

module _ (world : World) where
  -- A point at which other threads act, and then a call.
  after_advance : (s t : System) → SameJobs (advance world s) t → SameJobs s t
  after_advance s t h = SameJobs-trans s (advance world s) t (advance-SameJobs world s) h

  wait_for_completion-Leaves :
      (fuel : ℕ) (futures : List ℕ) → Leaves (wait_for_completion world fuel futures)
  unfolding wait_for_completion
  wait_for_completion-Leaves zero futures s = SameJobs-refl s
  wait_for_completion-Leaves (suc fuel) futures s = after_advance s _ (
      if-Leaves (is_nil futures || any (done_at (advance world s).pool) futures)
        (λ t. (return (not_done (advance world s).pool futures), t))
        (wait_for_completion world fuel futures) (λ t. SameJobs-refl t)
        (wait_for_completion-Leaves fuel futures) (advance world s))

  wait_all-Leaves : (fuel : ℕ) (futures : List ℕ) → Leaves (wait_all world fuel futures)
  unfolding wait_all
  wait_all-Leaves zero futures s = SameJobs-refl s
  wait_all-Leaves (suc fuel) futures s = after_advance s _ (
      if-Leaves (is_nil (not_done (advance world s).pool futures)) (λ t. (return tt, t))
        (wait_all world fuel futures) (λ t. SameJobs-refl t) (wait_all-Leaves fuel futures)
        (advance world s))

  cancel_all-Leaves : (futures : List ℕ) → Leaves (cancel_all world futures)
  unfolding cancel_all
  cancel_all-Leaves [] s = SameJobs-refl s
  cancel_all-Leaves (i ∷ futures) s =
      after_advance s _
        (SameJobs-trans (advance world s) _ _ (cancel-SameJobs i _) (cancel_all-Leaves futures _))

  cancel_and_raise-Leaves :
      (fuel : ℕ) (futures : List ℕ) → Leaves (cancel_and_raise world fuel futures)
  cancel_and_raise-Leaves fuel futures =
      >>=-Leaves (cancel_all world futures) _ (cancel_all-Leaves futures) λ _.
        >>=-Leaves (wait_all world fuel futures) _ (wait_all-Leaves fuel futures) λ _ s.
          after_advance s _ (raise_queued-Leaves (advance world s).exceptions (advance world s))

  if_queued-Leaves :
      (fuel : ℕ) (futures : List ℕ) (es : List Exception) → Leaves (if_queued world fuel futures es)
  if_queued-Leaves fuel futures [] s = SameJobs-refl s
  if_queued-Leaves fuel futures (_ ∷ _) s = cancel_and_raise-Leaves fuel futures s

  raise_if_exception_queued-Leaves :
      (fuel : ℕ) (futures : List ℕ) → Leaves (raise_if_exception_queued world fuel futures)
  unfolding raise_if_exception_queued
  raise_if_exception_queued-Leaves fuel futures s =
      after_advance s _
        (if_queued-Leaves fuel futures (advance world s).exceptions (advance world s))

  module _ (fuel : ℕ) (builder : Option (Dict ℤ)) where
    pub settle-Leaves : (futures : List ℕ) → Leaves (settle world fuel builder futures)
    unfolding settle
    settle-Leaves futures =
        >>=-Leaves (wait_for_completion world fuel futures) _
          (wait_for_completion-Leaves fuel futures)
          λ left.
            >>=-Leaves (raise_if_exception_queued world fuel left) _
              (raise_if_exception_queued-Leaves fuel left) λ _ s. SameJobs-refl s

    pub shutdown-Leaves : (rounds : ℕ) → Leaves (shutdown world fuel builder rounds)
    unfolding shutdown
    shutdown-Leaves zero s = SameJobs-refl s
    shutdown-Leaves (suc rounds) s = after_advance s _ (
        if-Leaves (all_called world fuel builder (advance world s).pool) (λ t. (return tt, t))
          (shutdown world fuel builder rounds) (λ t. SameJobs-refl t) (shutdown-Leaves rounds)
          (advance world s))
