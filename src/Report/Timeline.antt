-- ===== src/Report/Timeline.antt =====
-- TimelineReport._recalculate_times and add_report, and Reporter (calrissian/report.py).
pub mod Span
use calrissian.Prelude.{ℕ, leb, map, Option, none, some, List, [], ◌∷◌, ◌++◌}
use calrissian.Sort.{sorted}
use calrissian.Report.{TimedResourceReport, TimelineReport}

-- `[t for t in times if t]`
unfoldable pub present : List (Option ℕ) → List ℕ
present [] = []
present (none ∷ times) = present times
present (some t ∷ times) = t ∷ present times

abbrev pub starts : List TimedResourceReport → List (Option ℕ)
starts = map (λ c. c.start_time)

abbrev pub finishes : List TimedResourceReport → List (Option ℕ)
finishes = map (λ c. c.finish_time)

-- `sorted(times)[0]` and `sorted(times)[-1]`, or the old time if there are none.
abbrev pub first_or : Option ℕ → List ℕ → Option ℕ
first_or old [] = old
first_or old (t ∷ _) = some t

abbrev pub last_or : Option ℕ → List ℕ → Option ℕ
last_or old [] = old
last_or old (t ∷ ts) = last_or (some t) ts

unfoldable pub recalculate_times : TimelineReport → TimelineReport
unfolding present sorted
recalculate_times r = record r {
  timed = record (r.timed) {
    start_time = first_or r.start_time (sorted leb (present (starts r.children)));
    finish_time = last_or r.finish_time (sorted leb (present (finishes r.children)));
  };
}

unfoldable pub add_report : TimedResourceReport → TimelineReport → TimelineReport
unfolding recalculate_times
add_report child r = recalculate_times (record r { children = r.children ++ child ∷ [] })

-- Reporter.initialize, with the arguments of TimelineReport, and Reporter.add_report, which fails
-- before it. Both run under the lock, so each is one step.
unfoldable pub initialize : ℕ → ℕ → TimelineReport
initialize cores_allowed ram_mb_allowed = record {
  timed = record { name = none; start_time = none; finish_time = none };
  cores_allowed = cores_allowed;
  ram_mb_allowed = ram_mb_allowed;
  children = [];
}

unfoldable pub reporter_add_report :
    TimedResourceReport → Option TimelineReport → Option TimelineReport
unfolding add_report
reporter_add_report child none = none
reporter_add_report child (some r) = some (add_report child r)
