-- ===== src/Executor/Progress/Waits.antt =====
-- The waiting calls of the executor end (calrissian/executor.py): `wait_for_completion`, and
-- `raise_if_exception_queued` with the wait for the cancelled futures.
use calrissian.Prelude.{
  ◌≤◌, ◌<◌, ◌-◌, ◌||◌, ℕ, zero, suc, List, [], ◌∷◌, All, any, length, inl, inr, ap, arith,
}
use calrissian.Executor.Resources.{Resources}
use calrissian.Executor.Effects.{Exception, System}
use calrissian.Executor.Pool.{World, advance, cancel}
use calrissian.Executor.Loop.{
  done_at, not_done, is_nil, wait_for_completion, wait_all, cancel_all, raise_queued, if_queued,
  cancel_and_raise, raise_if_exception_queued,
}
use calrissian.Executor.Invariant.{Inv}
use calrissian.Executor.Invariant.Events.{WorldIsProper}
use calrissian.Executor.Invariant.Start.{InPool}
use calrissian.Executor.Progress.{
  SettlesIn, IsTimely, EndsAt, mono-Ends, >>=-EndsAt, if-EndsAt, IsKept, IsKept-refl, IsKept-trans,
  advance-IsKept,
}
use calrissian.Executor.Progress.Futures.{
  cancel-IsKept, next_point, not_done-All, not_done_less, not_done_settled, over_busy, settled_over,
}

-- The futures that a wait leaves, from the state where it starts to the one where it ends.
pub record Waited (total : Resources) (futures : List ℕ) (s : System) (left : List ℕ) (s' : System)
    : Type 0 where
  pub kept : IsKept total s s'
  pub places : All (InPool s') left
  pub fewer : length left ≤ length futures - 1

module _ (total : Resources) (world : World) (proper : WorldIsProper world) where
  pub kept-All :
      (s s' : System) (futures : List ℕ)
      → IsKept total s s'
      → All (InPool s) futures
      → All (InPool s') futures
  kept-All s s' [] k h = tt
  kept-All s s' (i ∷ futures) k h =
      let size = k.size in
      let here = h.0 in (omega (arith, size, here), kept-All s s' futures k h.1)

  Waited-after :
      (futures : List ℕ) (s s1 : System) (left : List ℕ) (s' : System)
      → IsKept total s s1
      → Waited total futures s1 left s'
      → Waited total futures s left s'
  Waited-after futures s s1 left s' k w = record {
    kept = IsKept-trans total s s1 s' k w.kept;
    places = w.places;
    fewer = w.fewer;
  }

  step : (s : System) → Inv total s → IsKept total s (advance world s)
  step s v = advance-IsKept total world s proper v

  pub wait_for_completion-Ends :
      (fuel k : ℕ) (futures : List ℕ) (s : System)
      → Inv total s
      → All (InPool s) futures
      → SettlesIn world k s
      → k < fuel
      → EndsAt (Waited total futures s) (wait_for_completion world fuel futures) s
  unfolding wait_for_completion
  wait_for_completion-Ends zero k futures s v h settles l = absurd (omega (arith, l))
  wait_for_completion-Ends (suc fuel) k futures s v h settles l =
      let s1 = advance world s in
      let kept = step s v in
      let h1 = kept-All s s1 futures kept h in
      if-EndsAt (Waited total futures s) (is_nil futures || any (done_at s1.pool) futures) _
        (wait_for_completion world fuel futures) s1
        (λ over. record {
          kept = kept;
          places = not_done-All (InPool s1) s1.pool futures h1;
          fewer = not_done_less s1.pool futures over;
        })
        (λ busy. elim (next_point world k s settles) [
          | inl settled ↦ absurd (over_busy (settled_over s1.pool futures settled h1) busy)
          | inr (more, settles1) ↦
              mono-Ends (Waited total futures s1) (Waited total futures s) _ _
                (λ left s'. Waited-after futures s s1 left s' kept)
                (wait_for_completion-Ends fuel (k - 1) futures s1 kept.inv h1 settles1
                  (omega (arith, l, more)))
        ])

  wait_all-Ends :
      (fuel k : ℕ) (futures : List ℕ) (s : System)
      → Inv total s
      → All (InPool s) futures
      → SettlesIn world k s
      → k < fuel
      → EndsAt (λ _. IsKept total s) (wait_all world fuel futures) s
  unfolding wait_all
  wait_all-Ends zero k futures s v h settles l = absurd (omega (arith, l))
  wait_all-Ends (suc fuel) k futures s v h settles l =
      let s1 = advance world s in
      let kept = step s v in
      let h1 = kept-All s s1 futures kept h in
      if-EndsAt (λ _. IsKept total s) (is_nil (not_done s1.pool futures)) _
        (wait_all world fuel futures) s1 (λ _. kept)
        (λ busy. elim (next_point world k s settles) [
          | inl settled ↦
              absurd (over_busy (ap is_nil (not_done_settled s1.pool futures settled h1)) busy)
          | inr (more, settles1) ↦
              mono-Ends (λ _. IsKept total s1) (λ _. IsKept total s) _ _
                (λ _ s'. IsKept-trans total s s1 s' kept)
                (wait_all-Ends fuel (k - 1) futures s1 kept.inv h1 settles1
                  (omega (arith, l, more)))
        ])

  cancel_all-Ends :
      (futures : List ℕ) (s : System)
      → Inv total s
      → EndsAt (λ _. IsKept total s) (cancel_all world futures) s
  unfolding cancel_all
  cancel_all-Ends [] s v = IsKept-refl total s v
  cancel_all-Ends (i ∷ futures) s v =
      let s1 = advance world s in
      let kept1 = step s v in
      let kept2 = cancel-IsKept total i s1 kept1.inv in
      mono-Ends (λ _. IsKept total (cancel i s1)) (λ _. IsKept total s) _ _
        (λ _ s'.
          IsKept-trans total s (cancel i s1) s' (IsKept-trans total s s1 (cancel i s1) kept1 kept2))
        (cancel_all-Ends futures (cancel i s1) kept2.inv)

  raise_queued-Ends :
      (es : List Exception) (s : System)
      → Inv total s
      → EndsAt (λ _. IsKept total s) (raise_queued es) s
  unfolding raise_queued
  raise_queued-Ends [] s v = IsKept-refl total s v
  raise_queued-Ends (e ∷ es) s v = tt

  module _ (delay fuel : ℕ) (timely : IsTimely world delay) (enough : delay < fuel) where
    cancel_and_raise-Ends :
        (futures : List ℕ) (s : System)
        → Inv total s
        → All (InPool s) futures
        → EndsAt (λ _. IsKept total s) (cancel_and_raise world fuel futures) s
    cancel_and_raise-Ends futures s v h =
        >>=-EndsAt (λ _. IsKept total s) (λ _. IsKept total s) (cancel_all world futures) _ s
          (cancel_all-Ends futures s v)
          (λ _ s1 k1.
            >>=-EndsAt (λ _. IsKept total s1) (λ _. IsKept total s) (wait_all world fuel futures) _
              s1
              (wait_all-Ends fuel delay futures s1 k1.inv (kept-All s s1 futures k1 h) (timely s1)
                enough)
              (λ _ s2 k2.
                let s3 = advance world s2 in
                let k3 = step s2 k2.inv in
                mono-Ends (λ _. IsKept total s3) (λ _. IsKept total s) _ _
                  (λ _ s4.
                    IsKept-trans total s s3 s4
                      (IsKept-trans total s s1 s3 k1 (IsKept-trans total s1 s2 s3 k2 k3)))
                  (raise_queued-Ends s3.exceptions s3 k3.inv)))

    if_queued-Ends :
        (futures : List ℕ) (es : List Exception) (s : System)
        → Inv total s
        → All (InPool s) futures
        → EndsAt (λ _. IsKept total s) (if_queued world fuel futures es) s
    if_queued-Ends futures [] s v h = IsKept-refl total s v
    if_queued-Ends futures (_ ∷ _) s v h = cancel_and_raise-Ends futures s v h

    pub raise_if_exception_queued-Ends :
        (futures : List ℕ) (s : System)
        → Inv total s
        → All (InPool s) futures
        → EndsAt (λ _. IsKept total s) (raise_if_exception_queued world fuel futures) s
    unfolding raise_if_exception_queued
    raise_if_exception_queued-Ends futures s v h =
        let s1 = advance world s in
        let k1 = step s v in
        mono-Ends (λ _. IsKept total s1) (λ _. IsKept total s) _ _
          (λ _ s'. IsKept-trans total s s1 s' k1)
          (if_queued-Ends futures s1.exceptions s1 k1.inv (kept-All s s1 futures k1 h))
