-- ===== src/Report/Parallel/Sums.antt =====
-- The reports that run at a time, and the sums over the events of a timeline up to a time
-- (calrissian/report.py).
use calrissian.Prelude.{
  ℕ, ◌+◌, ◌≤◌, ◌≡◌, refl, ◌∙◌, not, leb, ◌&&◌, Bool, true, false, Bool-cases, inl, inr, Option,
  none, some, List, [], ◌∷◌, All, arith, if◌then◌else◌,
}
use calrissian.Sort.{insert, sorted}
use calrissian.Report.{TimedResourceReport}
use calrissian.Report.Parallel.{
  EventType, started, finished, Event, start_event, finish_event, event_le, Metric, count_unit,
  events_of,
}

-- A report with both times, of which the finish is not before the start.
pub record IsClosed (c : TimedResourceReport) : Type 0 where
  pub s : ℕ
  pub f : ℕ
  pub starts : c.start_time ≡ some s
  pub finishes : c.finish_time ≡ some f
  pub ordered : s ≤ f

abbrev pub begun : ℕ → Option ℕ → Bool
begun t none = false
begun t (some s) = leb s t

-- What the reports that have started by the time `t` and not finished count for.
unfoldable pub active : Metric → ℕ → List TimedResourceReport → ℕ
active m t [] = 0
active m t (c ∷ children) =
    let rest = active m t children in
    if begun t c.start_time && not (begun t c.finish_time) then count_unit m c + rest else rest

abbrev pub same_type : EventType → EventType → Bool
same_type started started = true
same_type finished finished = true
same_type _ _ = false

-- The events of one type up to the time `t`.
unfoldable pub upto : Metric → EventType → ℕ → List Event → ℕ
upto m type t [] = 0
upto m type t (e ∷ events) =
    let rest = upto m type t events in
    if same_type type e.type && begun t e.time then count_unit m e.report + rest else rest

module _ (m : Metric) (type : EventType) (t : ℕ) where
  upto_swap :
      (e x : Event) (events : List Event)
      → upto m type t (x ∷ e ∷ events) ≡ upto m type t (e ∷ x ∷ events)
  unfolding upto
  upto_swap e x events = ground arith

  upto-cons :
      (e : Event) (xs ys : List Event)
      → upto m type t xs ≡ upto m type t ys
      → upto m type t (e ∷ xs) ≡ upto m type t (e ∷ ys)
  unfolding upto
  upto-cons e xs ys h = ground arith

  upto-insert :
      (e : Event) (events : List Event)
      → upto m type t (insert event_le e events) ≡ upto m type t (e ∷ events)
  unfolding insert upto
  upto-insert e [] = refl
  upto-insert e (x ∷ events) = elim (Bool-cases (event_le e x)) [
    | inl h ↦ rw (h, insert) refl
    | inr h ↦
        rw (h, insert) (upto-cons x _ (e ∷ events) (upto-insert e events) ∙ upto_swap e x events)
  ]

  pub upto-sorted :
      (events : List Event) → upto m type t (sorted event_le events) ≡ upto m type t events
  unfolding sorted upto
  upto-sorted [] = refl
  upto-sorted (e ∷ events) =
      upto-insert e (sorted event_le events) ∙ upto-cons e _ events (upto-sorted events)

closed_step :
    (m : Metric) (t : ℕ) (c : TimedResourceReport) (children : List TimedResourceReport)
    → IsClosed c
    → upto m started t (events_of children)
      ≡ active m t children + upto m finished t (events_of children)
    → upto m started t (events_of (c ∷ children))
      ≡ active m t (c ∷ children) + upto m finished t (events_of (c ∷ children))
unfolding upto active events_of start_event finish_event
closed_step m t c children h ih = rw (h.starts, h.finishes) (ground (arith, h.ordered))

-- Up to any time, what has started is what has finished and what still runs.
pub upto-events_of :
    (m : Metric) (t : ℕ) (children : List TimedResourceReport)
    → All IsClosed children
    → upto m started t (events_of children)
      ≡ active m t children + upto m finished t (events_of children)
unfolding upto active events_of start_event finish_event
upto-events_of m t [] h = omega arith
upto-events_of m t (c ∷ children) h =
    closed_step m t c children h.0 (upto-events_of m t children h.1)
