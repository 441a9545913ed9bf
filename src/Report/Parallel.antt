-- ===== src/Report/Parallel.antt =====
-- The events of a timeline and the processors that walk over them (calrissian/report.py).
pub mod Sums
pub mod Loop
pub mod Peak
use calrissian.Prelude.{
  ℕ, ltb, ◌==◌, ◌||◌, ◌&&◌, Bool, true, false, Option, none, some, List, [], ◌∷◌, ℤ, pos, any, ◌+ℤ◌,
  ◌-ℤ◌, max_ℤ, if◌then◌else◌,
}
use calrissian.Sort.{sorted}
use calrissian.Report.{TimedResourceReport, TimelineReport, Result, ok, type_error}

-- FINISH is -1 and START is 1: at one time the finishes are sorted before the starts.
pub data EventType : Type 0 where
  finished started : EventType

pub record Event : Type 0 where
  pub time : Option ℕ
  pub type : EventType
  pub report : TimedResourceReport

unfoldable pub start_event : TimedResourceReport → Event
start_event r = record { time = r.start_time; type = started; report = r }

unfoldable pub finish_event : TimedResourceReport → Event
finish_event r = record { time = r.finish_time; type = finished; report = r }

abbrev pub type_le : EventType → EventType → Bool
type_le started finished = false
type_le _ _ = true

-- `(x.time, x.type) <= (y.time, y.type)`, for two times or twice None.
abbrev pub times_le : EventType → EventType → Option ℕ → Option ℕ → Bool
times_le a b (some s) (some t) = ltb s t || (s == t && type_le a b)
times_le a b none none = type_le a b
times_le a b none (some _) = true
times_le a b (some _) none = false

abbrev pub event_le : Event → Event → Bool
event_le x y = times_le x.type y.type x.time y.time

-- MaxParallelCountProcessor and its subclasses, which differ in `count_unit`.
pub data Metric : Type 0 where
  tasks cpus ram : Metric

unfoldable pub count_unit : Metric → TimedResourceReport → ℕ
count_unit tasks r = 1
count_unit cpus r = r.cpus
count_unit ram r = r.ram_megabytes

pub record Processor : Type 0 where
  pub count : ℤ
  pub max : ℤ

unfoldable pub new_processor : Processor
new_processor = record { count = pos 0; max = pos 0 }

abbrev pub with_count : ℤ → Processor → Processor
with_count n p = record { count = n; max = max_ℤ p.max n }

unfoldable pub process : ℕ → EventType → Processor → Processor
process u started p = with_count (p.count +ℤ pos u) p
process u finished p = with_count (p.count -ℤ pos u) p

unfoldable pub events_of : List TimedResourceReport → List Event
unfolding start_event finish_event
events_of [] = []
events_of (c ∷ children) = start_event c ∷ finish_event c ∷ events_of children

unfoldable pub process_all : Metric → List Event → Processor → Processor
unfolding process count_unit
process_all m [] p = p
process_all m (e ∷ events) p = process_all m events (process (count_unit m e.report) e.type p)

abbrev pub is_timed : Event → Bool
is_timed e = elim e.time [ none ↦ false | some _ ↦ true ]

abbrev pub is_untimed : Event → Bool
is_untimed e = elim e.time [ none ↦ true | some _ ↦ false ]

-- `_walk`. Sorting compares a time with None exactly if there are both.
unfoldable pub walk : Metric → List TimedResourceReport → Result ℤ
unfolding events_of process_all sorted new_processor
walk m children =
    let events = events_of children in
    if any is_timed events && any is_untimed events
    then type_error
    else ok (process_all m (sorted event_le events) new_processor).max

unfoldable pub max_parallel : Metric → TimelineReport → Result ℤ
unfolding walk
max_parallel m r = walk m r.children
