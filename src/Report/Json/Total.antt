-- ===== src/Report/Json/Total.antt =====
-- A timeline of reports with both times can be written (calrissian/report.py).
use calrissian.Prelude.{ℕ, ◌≡◌, Option, some, List, [], ◌∷◌, All, All-append, All-map, map}
use calrissian.Report.{
  TimedReport, TimedResourceReport, TimelineReport, Result, ok, bind, elapsed_hours,
  elapsed_seconds, ram_megabyte_hours, cpu_hours, sum_ignore_none, total_cpu_hours,
  total_ram_megabyte_hours, total_disk_megabytes,
}
use calrissian.Report.Timeline.{add_report, recalculate_times}
use calrissian.Report.Timeline.Span.{add_report-TakesAtMost, elapsed_between-ok}
use calrissian.Report.Parallel.{Metric, max_parallel, tasks, cpus, ram}
use calrissian.Report.Parallel.Sums.{IsClosed}
use calrissian.Report.Parallel.Peak.{max_parallel-peak}
use calrissian.Report.Json.{
  Fields, timed_to_dict, resource_to_dict, children_to_dict, timeline_to_dict, resource_fields,
  timeline_fields,
}

-- A result that is no exception.
pub data IsOk {A : Type 0} : Result A → Type 0 where
  is_ok : (a : A) → IsOk (ok a)

bind-IsOk :
    {A B : Type 0} (r : Result A) (f : A → Result B)
    → IsOk r
    → ((a : A) → IsOk (f a))
    → IsOk (bind r f)
bind-IsOk _ f (is_ok a) h = h a

sum_ignore_none-IsOk :
    (f : TimedResourceReport → Result (Option ℕ)) (children : List TimedResourceReport)
    → All (λ c. IsOk (f c)) children
    → IsOk (sum_ignore_none (map f children))
unfolding sum_ignore_none
sum_ignore_none-IsOk f [] h = is_ok 0
sum_ignore_none-IsOk f (c ∷ children) h =
    bind-IsOk (f c) _ h.0 (λ n. bind-IsOk _ _ (sum_ignore_none-IsOk f children h.1) (λ m. is_ok _))

-- The elapsed time can be computed.
abbrev HasElapsed : TimedReport → Type 0
HasElapsed r = IsOk (elapsed_seconds r)

elapsed_hours-IsOk : (r : TimedReport) → HasElapsed r → IsOk (elapsed_hours r)
unfolding elapsed_hours
elapsed_hours-IsOk r h = bind-IsOk (elapsed_seconds r) _ h (λ n. is_ok _)

timed_to_dict-IsOk :
    (fields : Fields) (r : TimedReport) → HasElapsed r → IsOk (timed_to_dict fields r)
unfolding timed_to_dict
timed_to_dict-IsOk fields r h =
    bind-IsOk (elapsed_hours r) _ (elapsed_hours-IsOk r h)
      (λ hours. bind-IsOk (elapsed_seconds r) _ h (λ seconds. is_ok _))

cpu_hours-IsOk : (c : TimedResourceReport) → HasElapsed c.timed → IsOk (cpu_hours c)
unfolding cpu_hours
cpu_hours-IsOk c h =
    bind-IsOk (elapsed_hours c.timed) _ (elapsed_hours-IsOk c.timed h) (λ n. is_ok _)

ram_megabyte_hours-IsOk :
    (c : TimedResourceReport) → HasElapsed c.timed → IsOk (ram_megabyte_hours c)
unfolding ram_megabyte_hours
ram_megabyte_hours-IsOk c h =
    bind-IsOk (elapsed_hours c.timed) _ (elapsed_hours-IsOk c.timed h) (λ n. is_ok _)

resource_to_dict-IsOk : (c : TimedResourceReport) → HasElapsed c.timed → IsOk (resource_to_dict c)
unfolding resource_to_dict
resource_to_dict-IsOk c h =
    bind-IsOk (timed_to_dict (resource_fields c) c.timed) _
      (timed_to_dict-IsOk (resource_fields c) c.timed h)
      (λ d.
        bind-IsOk (ram_megabyte_hours c) _ (ram_megabyte_hours-IsOk c h)
          (λ ram. bind-IsOk (cpu_hours c) _ (cpu_hours-IsOk c h) (λ cpu. is_ok _)))

children_to_dict-IsOk :
    (children : List TimedResourceReport)
    → All (λ c. HasElapsed c.timed) children
    → IsOk (children_to_dict children)
unfolding children_to_dict
children_to_dict-IsOk [] h = is_ok []
children_to_dict-IsOk (c ∷ children) h =
    bind-IsOk (resource_to_dict c) _ (resource_to_dict-IsOk c h.0) (λ d.
      bind-IsOk (children_to_dict children) _ (children_to_dict-IsOk children h.1) (λ ds. is_ok _))

ok-IsOk : {A : Type 0} (r : Result A) (a : A) → r ≡ ok a → IsOk r
ok-IsOk r a e = rw e (is_ok a)

closed-HasElapsed : (c : TimedResourceReport) → IsClosed c → HasElapsed c.timed
closed-HasElapsed c h =
    ok-IsOk (elapsed_seconds c.timed) _
      (elapsed_between-ok c.timed h.s h.f h.starts h.finishes h.ordered)

module _ (r : TimelineReport) (closed : All IsClosed r.children) where
  elapsed : All (λ c. HasElapsed c.timed) r.children
  elapsed = All-map IsClosed r.children closed-HasElapsed closed

  max_parallel-IsOk : (m : Metric) → IsOk (max_parallel m r)
  max_parallel-IsOk m = ok-IsOk (max_parallel m r) _ (max_parallel-peak m r closed)

  total_cpu_hours-IsOk : IsOk (total_cpu_hours r)
  unfolding total_cpu_hours
  total_cpu_hours-IsOk =
      sum_ignore_none-IsOk cpu_hours r.children
        (All-map _ r.children (λ c. cpu_hours-IsOk c) elapsed)

  total_ram_megabyte_hours-IsOk : IsOk (total_ram_megabyte_hours r)
  unfolding total_ram_megabyte_hours
  total_ram_megabyte_hours-IsOk =
      sum_ignore_none-IsOk ram_megabyte_hours r.children
        (All-map _ r.children (λ c. ram_megabyte_hours-IsOk c) elapsed)

  total_disk_megabytes-IsOk : IsOk (total_disk_megabytes r)
  unfolding total_disk_megabytes
  total_disk_megabytes-IsOk =
      sum_ignore_none-IsOk (λ c. ok (some c.disk_megabytes)) r.children
        (All-map IsClosed r.children (λ c _. is_ok _) closed)

  timeline_to_dict-IsOk_if : HasElapsed r.timed → IsOk (timeline_to_dict r)
  unfolding timeline_to_dict
  timeline_to_dict-IsOk_if h =
      bind-IsOk (timed_to_dict (timeline_fields r) r.timed) _
        (timed_to_dict-IsOk (timeline_fields r) r.timed h)
        (λ d. bind-IsOk (total_cpu_hours r) _ total_cpu_hours-IsOk (λ cpu.
          bind-IsOk (total_ram_megabyte_hours r) _ total_ram_megabyte_hours-IsOk (λ mem.
            bind-IsOk (total_disk_megabytes r) _ total_disk_megabytes-IsOk (λ disk.
              bind-IsOk (max_parallel cpus r) _ (max_parallel-IsOk cpus) (λ a.
                bind-IsOk (max_parallel ram r) _ (max_parallel-IsOk ram) (λ b.
                  bind-IsOk (max_parallel tasks r) _ (max_parallel-IsOk tasks) (λ c.
                    bind-IsOk (children_to_dict r.children) _
                      (children_to_dict-IsOk r.children elapsed) (λ ds. is_ok _))))))))

-- Once a report with both times is added to a timeline of such reports, none of which finishes before
-- it starts, all that is written of the timeline can be computed.
pub timeline_to_dict-IsOk :
    (child : TimedResourceReport) (r : TimelineReport)
    → IsClosed child
    → All IsClosed r.children
    → IsOk (timeline_to_dict (add_report child r))
unfolding add_report recalculate_times
timeline_to_dict-IsOk child r h k =
    let (n, e, _) = add_report-TakesAtMost child r h k in
    timeline_to_dict-IsOk_if (add_report child r) (closed_children child r h k)
      (ok-IsOk _ (some n) e)
  where
    closed_children :
        (child : TimedResourceReport) (r : TimelineReport)
        → IsClosed child
        → All IsClosed r.children
        → All IsClosed (add_report child r).children
    closed_children child r h k = All-append IsClosed r.children (child ∷ []) k (h, tt)
