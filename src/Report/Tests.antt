-- ===== src/Report/Tests.antt =====
-- A timeline of three reports (calrissian/report.py), and the theorems at inputs that meet their
-- hypotheses.
use calrissian.Prelude.{ℕ, ◌-◌, ◌≡◌, refl, none, some, [], ◌∷◌, pos, All, arith}
use calrissian.Report.{
  TimedResourceReport, TimelineReport, ok, elapsed_seconds, total_cpu_hours,
  total_ram_megabyte_hours,
}
use calrissian.Report.Timeline.{add_report}
use calrissian.Report.Timeline.Span.{Spans, TakesAtMost, add_report-Spans, add_report-TakesAtMost}
use calrissian.Report.Area.{area, totals-area}
use calrissian.Report.Json.{timeline_to_dict}
use calrissian.Report.Json.Total.{IsOk, timeline_to_dict-IsOk}
use calrissian.Report.Parallel.{tasks, cpus, ram, max_parallel}
use calrissian.Report.Parallel.Sums.{IsClosed}
use calrissian.Report.Parallel.Peak.{peak, max_parallel-peak}

abbrev ran : ℕ → ℕ → ℕ → TimedResourceReport
ran s f n = record {
  timed = record { name = none; start_time = some s; finish_time = some f };
  cpus = n;
  ram_megabytes = 10;
  disk_megabytes = 0;
  exit_code = 0;
}

-- The second report starts when the first finishes.
abbrev timeline : TimelineReport
timeline = record {
  timed = record { name = none; start_time = none; finish_time = none };
  cores_allowed = 8;
  ram_mb_allowed = 100;
  children = ran 5 9 2 ∷ ran 0 5 4 ∷ ran 4 6 1 ∷ [];
}

timeline-IsClosed : All IsClosed timeline.children
timeline-IsClosed = (
  record { s = 5; f = 9; starts = refl; finishes = refl; ordered = omega arith },
  (
    record { s = 0; f = 5; starts = refl; finishes = refl; ordered = omega arith },
    (record { s = 4; f = 6; starts = refl; finishes = refl; ordered = omega arith }, tt),
  ),
)

max_parallel-peak_example :
    max_parallel cpus timeline ≡ ok (pos (peak cpus timeline.children timeline.children))
max_parallel-peak_example = max_parallel-peak cpus timeline timeline-IsClosed

peak_value : peak cpus timeline.children timeline.children ≡ 5
unfolding peak calrissian.Report.Parallel.Sums.active calrissian.Report.Parallel.count_unit
peak_value = refl

add_report-Spans_example : Spans (add_report (ran 0 5 4) timeline)
add_report-Spans_example =
    add_report-Spans (ran 0 5 4) timeline
      (record { s = 0; f = 5; starts = refl; finishes = refl; ordered = omega arith })

add_report-TakesAtMost_example :
    (n : ℕ) × (elapsed_seconds (add_report (ran 0 5 4) timeline).timed ≡ ok (some n))
    × All (TakesAtMost n) (add_report (ran 0 5 4) timeline).children
add_report-TakesAtMost_example =
    add_report-TakesAtMost (ran 0 5 4) timeline
      (record { s = 0; f = 5; starts = refl; finishes = refl; ordered = omega arith })
      timeline-IsClosed

timeline_to_dict-IsOk_example : IsOk (timeline_to_dict (add_report (ran 0 5 4) timeline))
timeline_to_dict-IsOk_example =
    timeline_to_dict-IsOk (ran 0 5 4) timeline
      (record { s = 0; f = 5; starts = refl; finishes = refl; ordered = omega arith })
      timeline-IsClosed

grown-Spans : Spans (add_report (ran 0 5 4) timeline)
grown-Spans =
    add_report-Spans (ran 0 5 4) timeline
      (record { s = 0; f = 5; starts = refl; finishes = refl; ordered = omega arith })

abbrev ticks : ℕ
ticks = grown-Spans.hi - grown-Spans.lo

totals-area_example :
    (total_cpu_hours (add_report (ran 0 5 4) timeline)
      ≡ ok (area cpus (add_report (ran 0 5 4) timeline).children grown-Spans.lo ticks))
    × (total_ram_megabyte_hours (add_report (ran 0 5 4) timeline)
        ≡ ok (area ram (add_report (ran 0 5 4) timeline).children grown-Spans.lo ticks))
unfolding add_report
totals-area_example =
    let (a, (b, (c, _))) = timeline-IsClosed in
    totals-area (add_report (ran 0 5 4) timeline) grown-Spans (a, (b, (c, (b, tt))))

area_value : area cpus timeline.children 0 9 ≡ 30
unfolding area calrissian.Report.Parallel.Sums.active calrissian.Report.Parallel.count_unit
area_value = refl
