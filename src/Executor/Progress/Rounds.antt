-- ===== src/Executor/Progress/Rounds.antt =====
-- The rounds of `drain_queue` (calrissian/executor.py): what a dequeue takes once everything is
-- available, and rounds in which nothing runs.
use calrissian.Prelude.{
  ◌≡◌, refl, ap, subst, ◌≤◌, ◌<◌, ◌+◌, ◌-◌, ℕ, ℤ, zero, suc, true, Option, List, [], ◌∷◌, All,
  All-map, length, inl, inr, ◌⊎◌, arith,
}
use calrissian.Dict.{Dict}
use calrissian.Executor.Resources.{Resources, sub, sub_rounded}
use calrissian.Executor.Resources.Order.{Within, Within-refl, IsNonnegative, IsSum, sub-empty}
use calrissian.Executor.JobQueue.{Jobs, JobResourceQueue, dequeue, pop_all, is_empty}
use calrissian.Executor.JobQueue.Greedy.{sum_resources}
use calrissian.Executor.JobQueue.Laws.{IsValid, dequeue_maximal, dequeue-exact}
use calrissian.Executor.Effects.{Exception, Future, System, return}
use calrissian.Executor.Pool.{World, advance}
use calrissian.Executor.Loop.{
  wait_all, cancel_all, raise_queued, if_queued, wait_for_completion, raise_if_exception_queued,
  settle,
}
use calrissian.Executor.Invariant.{Inv, outstanding}
use calrissian.Executor.Invariant.End.{balanced}
use calrissian.Executor.Invariant.Events.{WorldIsProper}
use calrissian.Executor.Progress.{
  after, IsSettled, SettlesIn, EndsAt, mono-Ends, >>=-EndsAt, IsKept, IsKept-refl, IsKept-trans,
  advance-IsKept,
}

pub dequeue_nothing :
    (minus : Resources → Resources → Resources) (limit : Resources) (q : JobResourceQueue)
    → (dequeue minus limit q).0 ≡ []
    → (dequeue minus limit q).1 ≡ q
unfolding dequeue pop_all
dequeue_nothing minus limit q h = ap (λ taken. record q { jobs = pop_all taken q.jobs }) h

pub fits_none :
    (total : Resources) (jobs : Jobs)
    → All (λ entry. IsNonnegative entry.1 × Within entry.1 total) jobs
    → All (λ entry. ¬ Within entry.1 total) jobs
    → jobs ≡ []
fits_none total [] h k = refl
fits_none total (e ∷ jobs) h k = absurd (k.0 h.0.1)

-- Where everything is available, a dequeue of a valid queue takes a job if there is one.
pub dequeue_something :
    (total : Resources) (q : JobResourceQueue)
    → IsValid total q
    → (dequeue sub total q).0 ≡ []
    → is_empty q ≡ true
unfolding is_empty sum_resources
dequeue_something total q v none_ =
    let left = dequeue_maximal total q v.distinct (All-map _ _ (λ entry h. h.0) v.sizes) in
    let left1 = rw (none_, dequeue_nothing sub total q none_, sub-empty total) at left in
    rw (fits_none total q.jobs v.sizes left1) refl

pub settles_after :
    (world : World) (k n : ℕ) (s : System)
    → SettlesIn world k s
    → SettlesIn world k (after world n s)
settles_after world k zero s h = h
settles_after world k (suc n) s h =
    settles_after world k n (advance world s) (λ m l. h (suc m) (omega (arith, l)))

pub after-IsKept :
    (total : Resources) (world : World) (n : ℕ) (s : System)
    → WorldIsProper world
    → Inv total s
    → IsKept total s (after world n s)
after-IsKept total world zero s proper v = IsKept-refl total s v
after-IsKept total world (suc n) s proper v =
    let kept = advance-IsKept total world s proper v in
    IsKept-trans total s _ _ kept (after-IsKept total world n (advance world s) proper kept.inv)

pub outstanding-settled :
    (pool : List Future) → All IsSettled pool → outstanding pool ≡ outstanding []
unfolding outstanding
outstanding-settled [] h = refl
outstanding-settled (f ∷ pool) h = rw h.0.1 (outstanding-settled pool h.1)

-- Once all is settled, a round starts a job if one is queued.
pub settled_starts :
    (total : Resources) (s : System)
    → Inv total s
    → All IsSettled s.pool
    → (dequeue (sub_rounded s.round) s.available s.jrq).0 ≡ []
    → is_empty s.jrq ≡ true
settled_starts total s v settled none_ =
    let free =
      balanced s.available total
        (subst (λ o. IsSum s.available o total) (outstanding-settled s.pool settled) v.balance) in
    let same =
      dequeue-exact total s.round s.available s.jrq v.exact v.spare (rw free (Within-refl total))
        v.queue in
    dequeue_something total s.jrq v.queue (rw (same, free) at none_)

pub raise_queued_nil :
    (es : List Exception) (s : System) → EndsAt (λ _ s'. s' ≡ s) (raise_queued es) s
unfolding raise_queued
raise_queued_nil [] s = refl
raise_queued_nil (e ∷ es) s = tt

-- With no futures, settling is a few points at which other threads act, or it raises.
pub if_queued_nil :
    (world : World) (fuel : ℕ) (es : List Exception) (s : System)
    → 0 < fuel
    → EndsAt (λ _ s'. (n : ℕ) × (s' ≡ after world n s)) (if_queued world fuel [] es) s
unfolding wait_all cancel_all raise_queued
if_queued_nil world fuel [] s h = (0, refl)
if_queued_nil world zero (e ∷ es) s h = absurd (omega (arith, h))
if_queued_nil world (suc fuel) (e ∷ es) s h =
    let s2 = advance world (advance world s) in
    mono-Ends (λ _ s'. s' ≡ s2) (λ _ s'. (n : ℕ) × (s' ≡ after world n s)) _ _ (λ _ s' e. (2, e))
      (raise_queued_nil s2.exceptions s2)

pub settle_nil :
    (world : World) (fuel : ℕ) (builder : Option (Dict ℤ)) (s : System)
    → 0 < fuel
    → EndsAt
        (λ left s'. (left ≡ []) × (n : ℕ) × (s' ≡ after world n s))
        (settle world fuel builder [])
        s
unfolding settle wait_for_completion raise_if_exception_queued
settle_nil world zero builder s h = absurd (omega (arith, h))
settle_nil world (suc fuel) builder s h =
    let s2 = advance world (advance world s) in
    >>=-EndsAt {B = List ℕ} (λ _ s'. (n : ℕ) × (s' ≡ after world n s2))
      (λ left s'. (left ≡ []) × (n : ℕ) × (s' ≡ after world n s))
      (if_queued world (suc fuel) [] s2.exceptions) (λ _ s'. (return [], s')) s2
      (if_queued_nil world (suc fuel) s2.exceptions s2 h) (λ _ s' (n, e). (refl, suc (suc n), e))

-- Rounds in which `n` futures end that each take `delay` rounds at most.
abbrev pub budget : ℕ → ℕ → ℕ
budget delay zero = 0
budget delay (suc n) = budget delay n + suc delay

pub budget_less : (delay n : ℕ) → 1 ≤ n → budget delay (n - 1) + suc delay ≡ budget delay n
budget_less delay zero h = absurd (omega (arith, h))
budget_less delay (suc n) h =
    let same : suc n - 1 ≡ n = omega arith in ap (λ m. budget delay m + suc delay) same

pub nil_cases :
    {A B : Type 0} (xs : List A) (ys : List B)
    → ((xs ≡ []) × (ys ≡ [])) ⊎ (1 ≤ length xs + length ys)
nil_cases [] [] = inl (refl, refl)
nil_cases [] (y ∷ ys) = inr (omega arith)
nil_cases (x ∷ xs) ys = inr (omega arith)
