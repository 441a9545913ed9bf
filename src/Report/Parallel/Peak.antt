-- ===== src/Report/Parallel/Peak.antt =====
-- The maximum that the processors report is the peak of what runs at the same time
-- (calrissian/report.py, `TimelineReport._walk` and the `max_parallel` methods).
use Prim.Native.Nat.{max}
use calrissian.Prelude.{
  Option, none, eq_of_parts, ◌≤ℤ◌, ℕ, ◌≤◌, ◌≡◌, refl, ◌∙◌, ap, ◌||◌, true, false, Bool-cases, inl,
  inr, some, List, [], ◌∷◌, ℤ, pos, ◌≤ℤ◌, All, All-map, any, arith,
}
use calrissian.Sort.{insert, sorted}
use calrissian.Sort.Laws.{sorted-IsSorted, sorted-All}
use calrissian.Report.{TimedResourceReport, TimelineReport, ok}
use calrissian.Report.Parallel.{
  started, finished, Event, start_event, finish_event, event_le, Metric, process_all, events_of,
  new_processor, walk, is_untimed, max_parallel,
}
use calrissian.Report.Parallel.Sums.{IsClosed, active, upto-sorted, upto-events_of}
use calrissian.Report.Parallel.Loop.{
  At, Timed, event_le-IsPreorder, is_start, has_start, Balanced, BoundedBy, upper, lower,
  process_all-max,
}

Timed-events_of :
    (children : List TimedResourceReport) → All IsClosed children → All Timed (events_of children)
unfolding events_of start_event finish_event
Timed-events_of [] h = tt
Timed-events_of (c ∷ children) h =
    ((h.0.s, h.0.starts), ((h.0.f, h.0.finishes), Timed-events_of children h.1))

untimed-events_of :
    (children : List TimedResourceReport)
    → All IsClosed children
    → any is_untimed (events_of children) ≡ false
unfolding events_of start_event finish_event
untimed-events_of [] h = refl
untimed-events_of (c ∷ children) h = rw (h.0.starts, h.0.finishes) (untimed-events_of children h.1)

Balanced-start :
    (m : Metric) (t : ℕ) (children : List TimedResourceReport)
    → All IsClosed children
    → Balanced m (λ t. active m t children) (pos 0) (sorted event_le (events_of children)) t
Balanced-start m t children h = omega (
  arith,
  upto-sorted m started t (events_of children),
  upto-sorted m finished t (events_of children),
  upto-events_of m t children h,
)

abbrev pub active_at : Metric → Option ℕ → List TimedResourceReport → ℕ
active_at m none all = 0
active_at m (some t) all = active m t all

-- The most that is active at the start of one of the reports, and nothing without reports.
unfoldable pub peak : Metric → List TimedResourceReport → List TimedResourceReport → ℕ
peak m all [] = 0
peak m all (c ∷ children) = max (active_at m c.start_time all) (peak m all children)

peak_bounds :
    (m : Metric) (all children : List TimedResourceReport) (B : ℕ)
    → peak m all children ≤ B
    → All (λ c. (t : ℕ) → c.start_time ≡ some t → active m t all ≤ B) children
unfolding peak
peak_bounds m all [] B h = tt
peak_bounds m all (c ∷ children) B h =
    ((λ t e. at_bounds c.start_time t e (omega arith)), peak_bounds m all children B (omega arith))
  where
    at_bounds :
        (start : Option ℕ) (t : ℕ) → start ≡ some t → active_at m start all ≤ B → active m t all ≤ B
    at_bounds start t e k = ground arith

peak_least :
    (m : Metric) (all children : List TimedResourceReport) (n : ℤ)
    → pos 0 ≤ℤ n
    → All IsClosed children
    → All (λ c. (t : ℕ) → c.start_time ≡ some t → pos (active m t all) ≤ℤ n) children
    → pos (peak m all children) ≤ℤ n
unfolding peak
peak_least m all [] n z closed h = z
peak_least m all (c ∷ children) n z closed h =
    let rest = peak_least m all children n z closed.1 h.1 in
    let here = h.0 closed.0.s closed.0.starts in rw (closed.0.starts) (omega arith)

antisym_ℤ : (n : ℤ) (b : ℕ) → n ≤ℤ pos b → pos b ≤ℤ n → n ≡ pos b
antisym_ℤ n b h k = eq_of_parts n (pos b) (omega arith)

bounded-events_of :
    (m : Metric) (A : ℕ → ℕ) (B : ℕ) (children : List TimedResourceReport)
    → All (λ c. (t : ℕ) → c.start_time ≡ some t → A t ≤ B) children
    → BoundedBy m A B (events_of children)
unfolding events_of start_event finish_event
bounded-events_of m A B [] h = tt
bounded-events_of m A B (c ∷ children) h =
    ((λ _. h.0), ((λ ty. cc), bounded-events_of m A B children h.1))

module _ (t : ℕ) where
  has_start-insert :
      (e : Event) (events : List Event)
      → has_start t (insert event_le e events) ≡ has_start t (e ∷ events)
  unfolding has_start insert
  has_start-insert e [] = refl
  has_start-insert e (x ∷ events) = elim (Bool-cases (event_le e x)) [
    | inl h ↦ rw (h, insert) refl
    | inr h ↦ rw (h, insert) (ground (arith, has_start-insert e events))
  ]

  has_start-sorted :
      (events : List Event) → has_start t (sorted event_le events) ≡ has_start t events
  unfolding has_start sorted
  has_start-sorted [] = refl
  has_start-sorted (e ∷ events) =
      has_start-insert e (sorted event_le events)
      ∙ ap (λ b. is_start t e.type e.time || b) (has_start-sorted events)

has_start-events_of :
    (children : List TimedResourceReport)
    → All (λ c. (t : ℕ) → c.start_time ≡ some t → has_start t (events_of children) ≡ true) children
unfolding has_start events_of start_event finish_event
has_start-events_of [] = tt
has_start-events_of (c ∷ children) = (
  (λ t e. rw e (ground arith)),
  All-map _ children (λ d h t e. ground (arith, h t e)) (has_start-events_of children),
)

-- Where every report has both times and none finishes before it starts, the maximum that is reported
-- of tasks, CPUs or memory is the peak: the most that is active at the start of one of the reports,
-- where a report is active from its start until just before its finish.
pub max_parallel-peak :
    (m : Metric) (r : TimelineReport)
    → All IsClosed r.children
    → max_parallel m r ≡ ok (pos (peak m r.children r.children))
unfolding max_parallel walk new_processor
max_parallel-peak m r h =
    let all = r.children in
    let events = events_of all in
    let list = sorted event_le events in
    let A = λ (t : ℕ). active m t all in
    let n = (process_all m list new_processor).max in
    let ordered = sorted-IsSorted event_le-IsPreorder events in
    let timed = sorted-All event_le Timed events (Timed-events_of all h) in
    let low =
      All-map Timed {Q = λ e. (t : ℕ) → At e t → 0 ≤ t} list (λ e _ t _. omega arith) timed in
    let balanced = λ (t : ℕ) (_ : 0 ≤ t). Balanced-start m t all h in
    let above =
      All-map (λ c. (t : ℕ) → c.start_time ≡ some t → has_start t events ≡ true)
        {Q = λ c. (t : ℕ) → c.start_time ≡ some t → pos (active m t all) ≤ℤ n} all
        (λ c found t e.
          lower m A list new_processor 0 ordered timed low balanced t
            (has_start-sorted t events ∙ found t e))
        (has_start-events_of all) in
    let below =
      upper m A (peak m all all) list new_processor 0 ordered timed low balanced
        (sorted-All event_le _ events
          (bounded-events_of m A (peak m all all) all (peak_bounds m all all _ (omega arith))))
        (omega arith) (omega arith) in
    let least = peak_least m all all n (process_all-max m A list new_processor) h above in
    rw (untimed-events_of all h) (ground (arith, antisym_ℤ n (peak m all all) below least))
