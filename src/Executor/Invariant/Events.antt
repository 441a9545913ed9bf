-- ===== src/Executor/Invariant/Events.antt =====
-- The events of the pool keep the invariant of the executor (calrissian/executor.py): the cancelling
-- of a future, and what the other threads do.
use calrissian.Prelude.{refl, Option, List, [], ◌∷◌, ℕ, All, Bool-cases, inl, inr}
use calrissian.Executor.Resources.{Resources}
use calrissian.Executor.Effects.{
  Exception, Status, running, cancelled, notified, finished, Future, System,
}
use calrissian.Executor.Pool.{
  Event, begin, notify, callback, finish, work, work_all, cancel, World, advance, is_pending,
  is_done, on_begin, on_finish, on_notify, on_callback, on_cancel,
}
use calrissian.Executor.Invariant.{HasProper, IsSound, Inv}
use calrissian.Executor.Invariant.Workers.{
  Frees, Frees-refl, Frees-trans, Keeps, call-Keeps, set_status-Keeps, IsAt, done-taken,
  pending-open, at_future-Keeps,
}

-- The outcomes of jobs report no inconsistent resources of the executor.
abbrev pub EventIsProper : Event → Type 0
EventIsProper (finish i e) = HasProper e
EventIsProper _ = Unit

module _ {total : Resources} (i : ℕ) (f : Future) (s : System) (v : Inv total s) (at : IsAt s i f)
    (h : IsSound f) where
  on_begin-Keeps : Inv total (on_begin i f s) × Frees s (on_begin i f s)
  on_begin-Keeps = elim (Bool-cases (is_pending f.status)) [
    | inl e ↦
        rw (e, on_begin)
          (set_status-Keeps i f (record f { status = running }) s v at refl refl
            (record { nonneg = h.nonneg; proper = tt; waiting = tt }))
    | inr e ↦ rw (e, on_begin) (v, Frees-refl s)
  ]

  on_finish-Keeps :
      (e : Option Exception) (status : Status)
      → HasProper e
      → Inv total (on_finish i e f status s) × Frees s (on_finish i e f status s)
  on_finish-Keeps e running p =
      set_status-Keeps i f (record f { status = finished e }) s v at refl refl
        (record { nonneg = h.nonneg; proper = p; waiting = tt })
  on_finish-Keeps e _ p = (v, Frees-refl s)

  on_notify-Keeps :
      (status : Status) → Inv total (on_notify i f status s) × Frees s (on_notify i f status s)
  on_notify-Keeps cancelled =
      set_status-Keeps i f (record f { status = notified }) s v at refl refl
        (record { nonneg = h.nonneg; proper = tt; waiting = tt })
  on_notify-Keeps _ = (v, Frees-refl s)

  on_callback-Keeps : Inv total (on_callback i f s) × Frees s (on_callback i f s)
  on_callback-Keeps = elim (Bool-cases f.called) [
    | inl called ↦ rw (called, on_callback) (v, Frees-refl s)
    | inr open_ ↦ elim (Bool-cases (is_done f.status)) [
      | inl done ↦
          rw (open_, done, on_callback)
            (call-Keeps i f f s v at refl open_ (done-taken f.status done) h)
      | inr busy ↦ rw (open_, busy, on_callback) (v, Frees-refl s)
    ]
  ]

  on_cancel-Keeps : Inv total (on_cancel i f s) × Frees s (on_cancel i f s)
  on_cancel-Keeps = elim (Bool-cases (is_pending f.status)) [
    | inl e ↦
        rw (e, on_cancel)
          (call-Keeps i f (record f { status = cancelled }) s v at refl
            (pending-open f.status f.called e h.waiting) refl
            (record { nonneg = h.nonneg; proper = tt; waiting = tt }))
    | inr e ↦ rw (e, on_cancel) (v, Frees-refl s)
  ]

-- Every event keeps the invariant, and no event takes resources away.
pub work-Keeps : {total : Resources} (e : Event) → EventIsProper e → Keeps total (work e)
unfolding work
work-Keeps (begin i) p s v =
    at_future-Keeps i (on_begin i) s (λ f at h. on_begin-Keeps i f s v at h) v
work-Keeps (finish i e) p s v =
    at_future-Keeps i (λ f. on_finish i e f f.status) s
      (λ f at h. on_finish-Keeps i f s v at h e f.status p) v
work-Keeps (notify i) p s v =
    at_future-Keeps i (λ f. on_notify i f f.status) s
      (λ f at h. on_notify-Keeps i f s v at h f.status) v
work-Keeps (callback i) p s v =
    at_future-Keeps i (on_callback i) s (λ f at h. on_callback-Keeps i f s v at h) v

pub cancel-Keeps : {total : Resources} (i : ℕ) → Keeps total (cancel i)
unfolding cancel
cancel-Keeps i s v = at_future-Keeps i (on_cancel i) s (λ f at h. on_cancel-Keeps i f s v at h) v

work_all-Keeps :
    {total : Resources} (es : List Event) → All EventIsProper es → Keeps total (work_all es)
unfolding work_all
work_all-Keeps [] p s v = (v, Frees-refl s)
work_all-Keeps (e ∷ es) p s v =
    let (v', freed) = work-Keeps e p.0 s v in
    let (v'', freed') = work_all-Keeps es p.1 (work e s) v' in (v'', Frees-trans s _ _ freed freed')

-- A world in which no job fails with an InconsistentResourcesException of its own.
abbrev pub WorldIsProper : World → Type 0
WorldIsProper world = (clock : ℕ) (pool : List Future) → All EventIsProper (world clock pool)

pub advance-Keeps :
    {total : Resources} (world : World) → WorldIsProper world → Keeps total (advance world)
unfolding advance
advance-Keeps world p s v =
    let (v', freed) = work_all-Keeps (world s.clock s.pool) (p s.clock s.pool) s v in
    (
      record {
        whole = v'.whole;
        exact = v'.exact;
        balance = v'.balance;
        spare = v'.spare;
        queue = v'.queue;
        futures = v'.futures;
        proper = v'.proper;
      },
      record { available = freed.available; jrq = freed.jrq; size = freed.size },
    )
