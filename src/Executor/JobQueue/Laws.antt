-- ===== src/Executor/JobQueue/Laws.antt =====
-- The guarantees of `JobResourceQueue.enqueue`, `sorted_jobs` and `dequeue`.
use mathlib.Core.HLevel.{¬_prop, ×_prop}
use mathlib.Core.List.{Perm, Nodup, Nodup-append, map-append}
use mathlib.Core.List.Perm
use calrissian.Prelude.{
  ◌≡◌, refl, ap, ℤ, Bool, true, false, none, some, [], ◌∷◌, ◌++◌, All, All-append, All-perm,
  All-left, All-right, All-map, ◌≤ℤ◌, Bool-cases, ◌⊎◌, inl, inr, arith,
}
use calrissian.Sort.Laws.{IsPreorder, IsSorted, sorted-perm, sorted-IsSorted}
use calrissian.Executor.Resources.{Resources, sub, sub_rounded, exceeds}
use calrissian.Executor.Resources.Order.{Within, IsNonnegative, IsExact, Within-prop, exceeds_iff}
use calrissian.Executor.JobQueue.{
  Job, Jobs, Priority, ram, cores, gpus, JobResourceQueue, from_job, ids, has_job, goes_before,
  sorted_jobs, enqueue, dequeue, collect, pop_all,
}
use calrissian.Executor.JobQueue.Greedy.{
  sum_resources, left_over, AllNonnegative, collect-left_over-perm, collect-exact, collect-Within,
  left_over_does_not_fit,
}
use calrissian.Executor.JobQueue.Partition.{pop_all-perm, ids_append-Nodup}

-- No job is queued twice, and each asks for something between nothing and `total`.
pub record IsValid (total : Resources) (q : JobResourceQueue) : Type 0 where
  pub distinct : Nodup (ids q.jobs)
  pub sizes : All (λ entry. IsNonnegative entry.1 × Within entry.1 total) q.jobs

goes_before-IsPreorder : (p : Priority) (descending : Bool) → IsPreorder (goes_before p descending)
goes_before-IsPreorder p true = record {
  total = λ x y. ground arith;
  trans = λ x y z h k. ground arith;
}
goes_before-IsPreorder p false = record {
  total = λ x y. ground arith;
  trans = λ x y z h k. ground arith;
}

-- The amount by which a queue is ordered, in so many words.
abbrev pub IsInOrder : Priority → Bool → Resources → Resources → Type 0
IsInOrder ram false a b = a.ram ≤ℤ b.ram
IsInOrder ram true a b = b.ram ≤ℤ a.ram
IsInOrder cores false a b = a.cores ≤ℤ b.cores
IsInOrder cores true a b = b.cores ≤ℤ a.cores
IsInOrder gpus false a b = a.gpus ≤ℤ b.gpus
IsInOrder gpus true a b = b.gpus ≤ℤ a.gpus

-- Every job is in order with all that follow it.
abbrev pub IsListed : Priority → Bool → Jobs → Type 0
IsListed p descending [] = Unit
IsListed p descending (x ∷ xs) =
    All (λ y. IsInOrder p descending x.1 y.1) xs × IsListed p descending xs

in_order :
    (p : Priority) (descending : Bool) (x y : Job × Resources)
    → goes_before p descending x y ≡ true
    → IsInOrder p descending x.1 y.1
in_order ram false x y h = ground arith
in_order ram true x y h = ground arith
in_order cores false x y h = ground arith
in_order cores true x y h = ground arith
in_order gpus false x y h = ground arith
in_order gpus true x y h = ground arith

sorted-IsListed :
    (p : Priority) (descending : Bool) (jobs : Jobs)
    → IsSorted (goes_before p descending) jobs
    → IsListed p descending jobs
sorted-IsListed p descending [] h = tt
sorted-IsListed p descending (x ∷ xs) (first, rest) =
    (All-map _ xs (λ y. in_order p descending x y) first, sorted-IsListed p descending xs rest)

sorted_jobs-perm : (q : JobResourceQueue) → Perm (sorted_jobs q) q.jobs
unfolding sorted_jobs
sorted_jobs-perm q = sorted-perm (goes_before q.priority q.descending) q.jobs

-- The listing of the queue is a rearrangement of its jobs in which, of the RAM, the cores or the
-- GPUs, whichever the queue is ordered by, no job asks for more than those that follow it, or for
-- less if `descending` is set.
pub sorted_jobs-IsListed :
    (q : JobResourceQueue)
    → IsListed q.priority q.descending (sorted_jobs q) × Perm (sorted_jobs q) q.jobs
unfolding sorted_jobs
sorted_jobs-IsListed q = (
  sorted-IsListed q.priority q.descending (sorted_jobs q)
      (sorted-IsSorted (goes_before-IsPreorder q.priority q.descending) q.jobs),
  sorted_jobs-perm q,
)

module _ (minus : Resources → Resources → Resources) (limit : Resources)
    (q : JobResourceQueue) where
  rest-perm :
      Nodup (ids q.jobs)
      → Perm (dequeue minus limit q).1.jobs (left_over minus limit (sorted_jobs q))
  unfolding dequeue
  rest-perm h =
      pop_all-perm (collect minus limit (sorted_jobs q)) (left_over minus limit (sorted_jobs q))
        q.jobs h
        (Perm.trans (Perm.symm (sorted_jobs-perm q))
          (Perm.symm (collect-left_over-perm minus limit (sorted_jobs q))))

  -- A dequeue loses no job: the jobs taken and the jobs that stay are together those that were
  -- queued, each once, if no job was queued twice, however Python rounds.
  pub dequeue-perm :
      Nodup (ids q.jobs) → Perm ((dequeue minus limit q).0 ++ (dequeue minus limit q).1.jobs) q.jobs
  unfolding dequeue
  dequeue-perm h =
      Perm.trans (Perm.append_left (collect minus limit (sorted_jobs q)) (rest-perm h))
        (Perm.trans (collect-left_over-perm minus limit (sorted_jobs q)) (sorted_jobs-perm q))

  -- Every dequeue keeps the queue valid, and takes jobs that a valid queue may hold.
  pub dequeue-IsValid :
      (total : Resources)
      → IsValid total q
      → IsValid total (dequeue minus limit q).1
        × All (λ entry. IsNonnegative entry.1 × Within entry.1 total) (dequeue minus limit q).0
  dequeue-IsValid total v =
      let parts =
        All-perm _ (λ entry. ×_prop (Within-prop _ _) (Within-prop _ _)) _ _
          (Perm.symm (dequeue-perm v.distinct)) v.sizes in
      (
        record {
          distinct =
              (Nodup-append.0 (
                rw map-append at (
                  Perm.nodup (Perm.map (λ e. e.0.id) (Perm.symm (dequeue-perm v.distinct)))
                    v.distinct))).1;
          sizes = All-right _ (dequeue minus limit q).0 _ parts;
        },
        All-left _ (dequeue minus limit q).0 (dequeue minus limit q).1.jobs parts,
      )

module _ (limit : Resources) (q : JobResourceQueue) where
  -- The jobs taken fit together within a limit that is not negative, where subtraction is exact.
  pub dequeue-Within : IsNonnegative limit → Within (sum_resources (dequeue sub limit q).0) limit
  unfolding dequeue
  dequeue-Within h = collect-Within limit (sorted_jobs q) h

  -- A dequeue is maximal: where no job asks for a negative amount, no job is queued twice and
  -- subtraction is exact, none of the jobs that stay would fit in what the jobs taken leave of the
  -- limit.
  pub dequeue_maximal :
      Nodup (ids q.jobs)
      → AllNonnegative q.jobs
      → All
          (λ entry. ¬ Within entry.1 (sub limit (sum_resources (dequeue sub limit q).0)))
          (dequeue sub limit q).1.jobs
  unfolding dequeue
  dequeue_maximal distinct h =
      All-perm _ (λ entry. ¬_prop) _ _ (Perm.symm (rest-perm sub limit q distinct))
        (left_over_does_not_fit limit (sorted_jobs q)
          (All-perm _ (λ entry. Within-prop _ entry.1) _ _ (Perm.symm (sorted_jobs-perm q)) h))

-- Where nothing is rounded between nothing and the whole, a dequeue of a valid queue does what it does
-- by exact subtraction.
pub dequeue-exact :
    (total : Resources) (round : ℤ → ℤ) (limit : Resources) (q : JobResourceQueue)
    → IsExact total round
    → IsNonnegative limit
    → Within limit total
    → IsValid total q
    → dequeue (sub_rounded round) limit q ≡ dequeue sub limit q
unfolding dequeue
dequeue-exact total round limit q exact h k v =
    ap (λ taken. (taken, record q { jobs = pop_all taken q.jobs }))
      (collect-exact total round limit (sorted_jobs q) exact h k (
        All-perm _ (λ entry. ×_prop (Within-prop _ _) (Within-prop _ _)) _ _
          (Perm.symm (sorted_jobs-perm q)) v.sizes))

-- A job is refused exactly if it is queued already. Otherwise it goes to the end of the queue, which
-- stays valid if the job asks for no negative amount and passes the test of `raise_if_oversized`.
pub enqueue-IsValid :
    (total : Resources) (job : Job) (q : JobResourceQueue)
    → IsValid total q
    → IsNonnegative (from_job job)
    → exceeds (from_job job) total ≡ false
    → ((has_job job.id q.jobs ≡ true) × (enqueue (some job) q ≡ none))
      ⊎ ((q' : JobResourceQueue) × (enqueue (some job) q ≡ some q')
          × (q'.jobs ≡ q.jobs ++ (job, from_job job) ∷ [])
          × IsValid total q')
unfolding enqueue
enqueue-IsValid total job q v nonneg fits = elim (Bool-cases (has_job job.id q.jobs)) [
  | inl old ↦ inl (old, rw old)
  | inr new ↦ inr (
    record q { jobs = q.jobs ++ (job, from_job job) ∷ [] },
    rw new,
    refl,
    record {
      distinct = ids_append-Nodup job (from_job job) q.jobs v.distinct new;
      sizes =
          All-append _ q.jobs _ v.sizes ((nonneg, (exceeds_iff (from_job job) total).0 fits), tt);
    },
  )
]
