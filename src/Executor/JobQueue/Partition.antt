-- ===== src/Executor/JobQueue/Partition.antt =====
-- A dequeue moves jobs and neither loses nor copies one: the second loop of
-- `JobResourceQueue.dequeue`, and what `enqueue` keeps of the dict's keys.
use mathlib.Core.Logic.Dec
use mathlib.Core.Logic.Or
use mathlib.Core.HLevel.{⊥_prop}
use mathlib.Core.List.{
  Perm, Nodup, Mem, Nodup-cons, mem-cons, mem-cons_self, mem-cons_of_mem, append-nil, perm_middle,
  not-mem-nil,
}
use mathlib.Core.List.Perm
use native.Mathlib.Decide.{ℕ_discrete}
use calrissian.Prelude.{◌≡◌, refl, sym, ◌≢◌, false, [], ◌∷◌, ◌++◌, All, arith, ℕ}
use calrissian.Executor.Resources.{Resources}
use calrissian.Executor.JobQueue.{Job, Jobs, ids, has_job, pop, pop_all}

absent : (id : ℕ) (jobs : Jobs) → ¬ Mem id (ids jobs) → All (λ entry. entry.0.id ≢ id) jobs
absent id [] h = tt
absent id (x ∷ jobs) h =
    ((λ e. h (rw e mem-cons_self)), absent id jobs (λ m. h (mem-cons_of_mem x.0.id m)))

pop-absent : (id : ℕ) (jobs : Jobs) → All (λ entry. entry.0.id ≢ id) jobs → pop id jobs ≡ jobs
unfolding Dec.not
pop-absent id [] h = refl
pop-absent id (x ∷ jobs) h = ground (arith, pop-absent id jobs h.1)

pop-cons :
    (job : Job) (r : Resources) (jobs : Jobs)
    → Nodup (ids ((job, r) ∷ jobs))
    → pop job.id ((job, r) ∷ jobs) ≡ jobs
unfolding Dec.not
pop-cons job r jobs h =
    ground (arith, pop-absent job.id jobs (absent job.id jobs (Nodup-cons.0 h).0))

-- Popping the jobs that were taken leaves the others.
pub pop_all-perm :
    (taken left jobs : Jobs)
    → Nodup (ids jobs)
    → Perm jobs (taken ++ left)
    → Perm (pop_all taken jobs) left
unfolding pop_all
pop_all-perm [] left jobs h p = p
pop_all-perm ((job, r) ∷ taken) left jobs h p =
    let h' : Nodup (ids ((job, r) ∷ taken ++ left)) = Perm.nodup (Perm.map (λ e. e.0.id) p) h in
    let p' : Perm (pop job.id jobs) (taken ++ left) =
      rw (pop-cons job r (taken ++ left) h') at
        (Perm.filter (λ e. Dec.not (ℕ_discrete e.0.id job.id)) p) in
    pop_all-perm taken left (pop job.id jobs)
      (Perm.nodup (Perm.map (λ e. e.0.id) (Perm.symm p')) (Nodup-cons.0 h').1) p'

-- `job in self.jobs` is false only for a job that is not a key.
has_job-absent : (id : ℕ) (jobs : Jobs) → has_job id jobs ≡ false → All (λ e. e.0.id ≢ id) jobs
has_job-absent id [] h = tt
has_job-absent id (x ∷ jobs) h = (ground arith, has_job-absent id jobs (ground arith))

absent-not-mem : (id : ℕ) (jobs : Jobs) → All (λ e. e.0.id ≢ id) jobs → ¬ Mem id (ids jobs)
absent-not-mem id [] h m = not-mem-nil m
absent-not-mem id (x ∷ jobs) h m =
    Or.elim ⊥_prop (mem-cons.0 m) (λ e. h.0 (sym e)) (absent-not-mem id jobs h.1)

pub ids_append-Nodup :
    (job : Job) (r : Resources) (jobs : Jobs)
    → Nodup (ids jobs)
    → has_job job.id jobs ≡ false
    → Nodup (ids (jobs ++ (job, r) ∷ []))
ids_append-Nodup job r jobs h new =
    Perm.nodup
      (Perm.map (λ e. e.0.id) (Perm.symm (rw append-nil at (perm_middle {a = (job, r)} jobs []))))
      (Nodup-cons.1 (absent-not-mem job.id jobs (has_job-absent job.id jobs new), h))
