-- ===== src/Executor/JobQueue/Greedy.antt =====
-- The first loop of `JobResourceQueue.dequeue`: what it takes, and what it leaves.
use mathlib.Core.List.{Perm, perm_middle}
use mathlib.Core.List.Perm
use calrissian.Prelude.{ℤ, ◌≡◌, refl, ap, true, false, [], ◌∷◌, ◌++◌, All, Bool-cases, inl, inr}
use calrissian.Executor.Resources.{Resources, empty, add, sub, sub_rounded, ge}
use calrissian.Executor.Resources.Order.{
  Within, IsNonnegative, IsExact, sub_rounded-exact, ge-sub_iff, Within-trans, sub-Within,
  sub-IsNonnegative, sub-empty, sub-add, Within-refl, empty-IsNonnegative, add-IsNonnegative,
  add-Within,
}
use calrissian.Executor.JobQueue.{Jobs, collect}

-- The sum of the resources of some jobs.
unfoldable pub sum_resources : Jobs → Resources
sum_resources [] = empty
sum_resources ((_, r) ∷ jobs) = add r (sum_resources jobs)

-- The jobs that the loop passes over.
pub left_over : (Resources → Resources → Resources) → Resources → Jobs → Jobs
left_over minus limit [] = []
left_over minus limit ((job, r) ∷ rest) = elim (ge (minus limit r) empty) [
  | true ↦ left_over minus (minus limit r) rest
  | false ↦ (job, r) ∷ left_over minus limit rest
]

abbrev pub AllNonnegative : Jobs → Type 0
AllNonnegative = All (λ entry. IsNonnegative entry.1)

pub sum_resources-IsNonnegative :
    (jobs : Jobs) → AllNonnegative jobs → IsNonnegative (sum_resources jobs)
unfolding sum_resources
sum_resources-IsNonnegative [] h = empty-IsNonnegative
sum_resources-IsNonnegative ((job, r) ∷ jobs) h =
    add-IsNonnegative r _ h.0 (sum_resources-IsNonnegative jobs h.1)

pub collect-left_over-perm :
    (minus : Resources → Resources → Resources) (limit : Resources) (jobs : Jobs)
    → Perm (collect minus limit jobs ++ left_over minus limit jobs) jobs
unfolding collect left_over
collect-left_over-perm minus limit [] = Perm.rfl
collect-left_over-perm minus limit ((job, r) ∷ rest) =
    elim (Bool-cases (ge (minus limit r) empty)) [
      | inl e ↦
          rw (e, collect, left_over)
            (Perm.cons (job, r) (collect-left_over-perm minus (minus limit r) rest))
      | inr e ↦
          rw (e, collect, left_over)
            (Perm.trans (perm_middle (collect minus limit rest) (left_over minus limit rest))
              (Perm.cons (job, r) (collect-left_over-perm minus limit rest)))
    ]

-- Where nothing is rounded, the loop takes what it takes by exact subtraction.
pub collect-exact :
    (total : Resources) (round : ℤ → ℤ) (limit : Resources) (jobs : Jobs)
    → IsExact total round
    → IsNonnegative limit
    → Within limit total
    → All (λ entry. IsNonnegative entry.1 × Within entry.1 total) jobs
    → collect (sub_rounded round) limit jobs ≡ collect sub limit jobs
unfolding collect
collect-exact total round limit [] exact h k sizes = refl
collect-exact total round limit ((job, r) ∷ rest) exact h k ((l, m), sizes) =
    let same = sub_rounded-exact total round limit r exact h k l m in
    elim (Bool-cases (ge (sub limit r) empty)) [
      | inl e ↦
          let fits = (ge-sub_iff limit r).0 e in
          rw (same, e, collect, same)
            (ap (λ jobs. (job, r) ∷ jobs)
              (collect-exact total round (sub limit r) rest exact (sub-IsNonnegative limit r fits)
                (Within-trans _ limit _ (sub-Within limit r l) k) sizes))
      | inr e ↦ rw (same, e, collect) (collect-exact total round limit rest exact h k sizes)
    ]

pub collect-Within :
    (limit : Resources) (jobs : Jobs)
    → IsNonnegative limit
    → Within (sum_resources (collect sub limit jobs)) limit
unfolding collect sum_resources empty
collect-Within limit [] h = h
collect-Within limit ((job, r) ∷ rest) h = elim (Bool-cases (ge (sub limit r) empty)) [
  | inl e ↦
      let fits = (ge-sub_iff limit r).0 e in
      rw (e, collect)
        (add-Within limit r _ fits
          (collect-Within (sub limit r) rest (sub-IsNonnegative limit r fits)))
  | inr e ↦ rw (e, collect) (collect-Within limit rest h)
]

-- What is left of the limit does not grow while the loop runs.
rest-Within :
    (limit : Resources) (jobs : Jobs)
    → AllNonnegative jobs
    → Within (sub limit (sum_resources (collect sub limit jobs))) limit
unfolding collect sum_resources
rest-Within limit [] h = rw sub-empty (Within-refl limit)
rest-Within limit ((job, r) ∷ rest) h = elim (Bool-cases (ge (sub limit r) empty)) [
  | inl e ↦
      rw (e, collect, sub-add)
        (Within-trans _ _ _ (rest-Within (sub limit r) rest h.1) (sub-Within limit r h.0))
  | inr e ↦ rw (e, collect) (rest-Within limit rest h.1)
]

pub left_over_does_not_fit :
    (limit : Resources) (jobs : Jobs)
    → AllNonnegative jobs
    → All
        (λ entry. ¬ Within entry.1 (sub limit (sum_resources (collect sub limit jobs))))
        (left_over sub limit jobs)
unfolding collect left_over sum_resources
left_over_does_not_fit limit [] h = tt
left_over_does_not_fit limit ((job, r) ∷ rest) h = elim (Bool-cases (ge (sub limit r) empty)) [
  | inl e ↦ rw (e, collect, left_over, sub-add) (left_over_does_not_fit (sub limit r) rest h.1)
  | inr e ↦
      rw (e, collect, left_over)
        (
          (λ fits. cc (
            e,
            (ge-sub_iff limit r).1 (Within-trans r _ limit fits (rest-Within limit rest h.1)),
          )),
          left_over_does_not_fit limit rest h.1,
        )
]
