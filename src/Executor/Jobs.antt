-- ===== src/Executor/Jobs.antt =====
-- Which jobs the executor holds (calrissian/executor.py): those that are submitted to the pool, and
-- those that are queued. Other threads change neither.
pub mod Waits
pub mod Holds
pub mod Run
use calrissian.Prelude.{
  ◌≡◌, refl, sym, ◌∙◌, ap, Bool, true, false, Bool-cases, Option-cases, inl, inr, Option, none,
  some, List, [], ◌∷◌, ◌++◌, ℕ, zero, suc, map, get_elem?, set,
}
use mathlib.Core.Option.{some-injective}
use calrissian.Executor.Resources.{Resources, add_rounded, is_negative, exceeds}
use calrissian.Executor.JobQueue.{ids}
use calrissian.Executor.Effects.{
  Exception, Status, pending, running, cancelled, notified, finished, Future, System, Result,
  return, raise, waits,
}
use calrissian.Executor.Pool.{
  account, restore, queue_raised, queue_outcome, is_cancelled, exception, job_done_callback, Event,
  begin, notify, callback, finish, is_pending, is_done, set_status, call, on_begin, on_finish,
  on_notify, on_callback, at_future, work, on_cancel, cancel, work_all, World, advance,
}

abbrev pub job_id : Future → ℕ
job_id f = f.job.id

abbrev pub submitted : System → List ℕ
submitted s = map job_id s.pool

-- The jobs of two states are the same.
pub record SameJobs (s s' : System) : Type 0 where
  pub pool : submitted s' ≡ submitted s
  pub jrq : s'.jrq ≡ s.jrq

pub SameJobs-refl : (s : System) → SameJobs s s
SameJobs-refl s = record { pool = refl; jrq = refl }

pub SameJobs-trans : (s t u : System) → SameJobs s t → SameJobs t u → SameJobs s u
SameJobs-trans s t u h k = record { pool = k.pool ∙ h.pool; jrq = k.jrq ∙ h.jrq }

map-set :
    (pool : List Future) (i : ℕ) (f g : Future)
    → get_elem? pool i ≡ some f
    → job_id g ≡ job_id f
    → map job_id (set pool i g) ≡ map job_id pool
map-set [] i f g e h = refl
map-set (x ∷ pool) zero f g e h =
    ap (λ j. j ∷ map job_id pool) (h ∙ ap job_id (some-injective f x (sym e)))
map-set (x ∷ pool) (suc i) f g e h = ap (λ js. job_id x ∷ js) (map-set pool i f g e h)

-- A state in which a future is changed, but not its job.
set-SameJobs :
    (i : ℕ) (f g : Future) (s : System)
    → get_elem? s.pool i ≡ some f
    → job_id g ≡ job_id f
    → SameJobs s (record s { pool = set s.pool i g })
set-SameJobs i f g s e h = record { pool = map-set s.pool i f g e h; jrq = refl }

account-SameJobs : (rsc : Resources) (s : System) → SameJobs s (account rsc s).1
unfolding account
account-SameJobs rsc s = elim (Bool-cases (is_negative (add_rounded s.round s.available rsc))) [
  | inl e ↦ rw e (record { pool = refl; jrq = refl })
  | inr e ↦ elim (Bool-cases (exceeds (add_rounded s.round s.available rsc) s.total)) [
    | inl k ↦ rw (e, k) (record { pool = refl; jrq = refl })
    | inr k ↦ rw (e, k) (record { pool = refl; jrq = refl })
  ]
]

queue_raised-SameJobs : (r : Result (Unit {0})) (s : System) → SameJobs s (queue_raised r s)
queue_raised-SameJobs (return a) s = SameJobs-refl s
queue_raised-SameJobs (raise e) s = record { pool = refl; jrq = refl }
queue_raised-SameJobs waits s = SameJobs-refl s

queue_outcome-SameJobs : (e : Option Exception) (s : System) → SameJobs s (queue_outcome e s)
queue_outcome-SameJobs none s = SameJobs-refl s
queue_outcome-SameJobs (some e) s = record { pool = refl; jrq = refl }

job_done_callback-SameJobs :
    (rsc : Resources) (status : Status) (s : System) → SameJobs s (job_done_callback rsc status s)
unfolding job_done_callback restore
job_done_callback-SameJobs rsc status s =
    let a = account rsc s in
    let restored = queue_raised a.0 a.1 in
    let so_far =
      SameJobs-trans s a.1 restored (account-SameJobs rsc s) (queue_raised-SameJobs a.0 a.1) in
    elim (Bool-cases (is_cancelled status)) [
      | inl e ↦ rw e so_far
      | inr e ↦
          rw e (
            SameJobs-trans s restored _ so_far (queue_outcome-SameJobs (exception status) restored))
    ]

module _ (i : ℕ) (f : Future) (s : System) (at : get_elem? s.pool i ≡ some f) where
  set_status-SameJobs : (status : Status) → SameJobs s (set_status i f status s)
  set_status-SameJobs status = set-SameJobs i f (record f { status = status }) s at refl

  call-SameJobs : (status : Status) → SameJobs s (call i (record f { status = status }) s)
  call-SameJobs status =
      SameJobs-trans s _ _
        (set-SameJobs i f (record f { status = status; called = true }) s at refl)
        (job_done_callback-SameJobs f.rsc status _)

  on_begin-SameJobs : SameJobs s (on_begin i f s)
  on_begin-SameJobs = elim (Bool-cases (is_pending f.status)) [
    | inl e ↦ rw (e, on_begin) (set_status-SameJobs running)
    | inr e ↦ rw (e, on_begin) (SameJobs-refl s)
  ]

  on_finish-SameJobs :
      (e : Option Exception) (status : Status) → SameJobs s (on_finish i e f status s)
  on_finish-SameJobs e running = set_status-SameJobs (finished e)
  on_finish-SameJobs e _ = SameJobs-refl s

  on_notify-SameJobs : (status : Status) → SameJobs s (on_notify i f status s)
  on_notify-SameJobs cancelled = set_status-SameJobs notified
  on_notify-SameJobs _ = SameJobs-refl s

  on_callback-SameJobs : SameJobs s (on_callback i f s)
  on_callback-SameJobs = elim (Bool-cases f.called) [
    | inl e ↦ rw (e, on_callback) (SameJobs-refl s)
    | inr e ↦ elim (Bool-cases (is_done f.status)) [
      | inl d ↦ rw (e, d, on_callback) (call-SameJobs f.status)
      | inr d ↦ rw (e, d, on_callback) (SameJobs-refl s)
    ]
  ]

  on_cancel-SameJobs : SameJobs s (on_cancel i f s)
  on_cancel-SameJobs = elim (Bool-cases (is_pending f.status)) [
    | inl e ↦ rw (e, on_cancel) (call-SameJobs cancelled)
    | inr e ↦ rw (e, on_cancel) (SameJobs-refl s)
  ]

at_future-SameJobs :
    (i : ℕ) (act : Future → System → System) (s : System)
    → ((f : Future) → get_elem? s.pool i ≡ some f → SameJobs s (act f s))
    → SameJobs s (at_future i act s)
at_future-SameJobs i act s h = elim (Option-cases (get_elem? s.pool i)) [
  | inl e ↦ rw (e, at_future) (SameJobs-refl s)
  | inr (f, e) ↦ rw (e, at_future) (h f e)
]

work-SameJobs : (e : Event) (s : System) → SameJobs s (work e s)
unfolding work
work-SameJobs (begin i) s = at_future-SameJobs i (on_begin i) s (λ f at. on_begin-SameJobs i f s at)
work-SameJobs (finish i e) s =
    at_future-SameJobs i (λ f. on_finish i e f f.status) s
      (λ f at. on_finish-SameJobs i f s at e f.status)
work-SameJobs (notify i) s =
    at_future-SameJobs i (λ f. on_notify i f f.status) s
      (λ f at. on_notify-SameJobs i f s at f.status)
work-SameJobs (callback i) s =
    at_future-SameJobs i (on_callback i) s (λ f at. on_callback-SameJobs i f s at)

pub cancel-SameJobs : (i : ℕ) (s : System) → SameJobs s (cancel i s)
unfolding cancel
cancel-SameJobs i s = at_future-SameJobs i (on_cancel i) s (λ f at. on_cancel-SameJobs i f s at)

work_all-SameJobs : (es : List Event) (s : System) → SameJobs s (work_all es s)
unfolding work_all
work_all-SameJobs [] s = SameJobs-refl s
work_all-SameJobs (e ∷ es) s =
    SameJobs-trans s (work e s) _ (work-SameJobs e s) (work_all-SameJobs es (work e s))

pub advance-SameJobs : (world : World) (s : System) → SameJobs s (advance world s)
unfolding advance
advance-SameJobs world s =
    let h = work_all-SameJobs (world s.clock s.pool) s in record { pool = h.pool; jrq = h.jrq }
