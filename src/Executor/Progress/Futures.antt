-- ===== src/Executor/Progress/Futures.antt =====
-- The futures that are done or not, for the waits of the executor (calrissian/executor.py).
use calrissian.Prelude.{
  ◌≡◌, refl, ◌≤◌, ◌<◌, ◌-◌, ◌||◌, ℕ, zero, suc, true, false, Bool, List, [], ◌∷◌, All, any, length,
  Bool-cases, inl, inr, ◌⊎◌, arith,
}
use calrissian.Executor.Resources.{Resources}
use calrissian.Executor.Effects.{Future, System}
use calrissian.Executor.Pool.{World, advance, cancel}
use calrissian.Executor.Loop.{done_at, not_done, is_nil}
use calrissian.Executor.Invariant.{Inv}
use calrissian.Executor.Invariant.Events.{cancel-Keeps}
use calrissian.Executor.Progress.{IsSettled, SettlesIn, IsKept}

-- A future that was submitted is done when all are settled.
pub done_at_settled :
    (pool : List Future) (i : ℕ) → All IsSettled pool → i < length pool → done_at pool i ≡ true
done_at_settled [] i h k = absurd (omega (arith, k))
done_at_settled (f ∷ pool) zero h k = h.0.0
done_at_settled (f ∷ pool) (suc i) h k = done_at_settled pool i h.1 (omega (arith, k))

pub not_done_settled :
    (pool : List Future) (futures : List ℕ)
    → All IsSettled pool
    → All (λ i. i < length pool) futures
    → not_done pool futures ≡ []
not_done_settled pool [] h k = refl
not_done_settled pool (i ∷ futures) h k =
    rw (done_at_settled pool i h k.0) (not_done_settled pool futures h k.1)

pub not_done-All :
    (P : ℕ → Type 0) (pool : List Future) (futures : List ℕ)
    → All P futures
    → All P (not_done pool futures)
not_done-All P pool [] h = tt
not_done-All P pool (i ∷ futures) h = elim (Bool-cases (done_at pool i)) [
  | inl e ↦ rw e (not_done-All P pool futures h.1)
  | inr e ↦ rw e (h.0, not_done-All P pool futures h.1)
]

pub length-not_done :
    (pool : List Future) (futures : List ℕ) → length (not_done pool futures) ≤ length futures
length-not_done pool [] = omega arith
length-not_done pool (i ∷ futures) = ground (arith, length-not_done pool futures)

-- A wait that is over has dropped a future, if there was any.
pub not_done_less :
    (pool : List Future) (futures : List ℕ)
    → (is_nil futures || any (done_at pool) futures) ≡ true
    → length (not_done pool futures) ≤ length futures - 1
not_done_less pool [] h = omega arith
not_done_less pool (i ∷ []) h = ground arith
not_done_less pool (i ∷ j ∷ futures) h = elim (Bool-cases (done_at pool i)) [
  | inl e ↦ let less = length-not_done pool (j ∷ futures) in rw e (omega (arith, less))
  | inr e ↦ let less = not_done_less pool (j ∷ futures) (rw e at h) in rw e (omega (arith, less))
]

pub over_busy : {b : Bool} → b ≡ true → b ≡ false → ⊥
over_busy h k = cc

pub settled_over :
    (pool : List Future) (futures : List ℕ)
    → All IsSettled pool
    → All (λ i. i < length pool) futures
    → (is_nil futures || any (done_at pool) futures) ≡ true
settled_over pool [] h k = refl
settled_over pool (i ∷ futures) h k = rw (done_at_settled pool i h k.0) refl

-- All is settled after the next point, or the rest of the time is shorter.
pub next_point :
    (world : World) (k : ℕ) (s : System)
    → SettlesIn world k s
    → All IsSettled (advance world s).pool ⊎ ((1 < k) × SettlesIn world (k - 1) (advance world s))
next_point world zero s h = inl (h 1 (omega arith))
next_point world (suc zero) s h = inl (h 1 (omega arith))
next_point world (suc (suc k)) s h = inr (omega arith, λ n l. h (suc n) (omega (arith, l)))

pub cancel-IsKept :
    (total : Resources) (i : ℕ) (s : System) → Inv total s → IsKept total s (cancel i s)
cancel-IsKept total i s v =
    let (v', freed) = cancel-Keeps i s v in record { inv = v'; jrq = freed.jrq; size = freed.size }
