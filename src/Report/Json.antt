-- ===== src/Report/Json.antt =====
-- What `write_report` writes (calrissian/report.py): the dicts of reports, in the order of their keys.
pub mod Total
use Prim.Native.String.{String}
use calrissian.Prelude.{ℕ, Option, none, some, List, [], ◌∷◌, ◌++◌, ℤ, map}
use calrissian.Report.{
  TimedReport, TimedResourceReport, TimelineReport, Result, ok, bind, elapsed_hours,
  elapsed_seconds, ram_megabyte_hours, cpu_hours, total_cpu_hours, total_ram_megabyte_hours,
  total_disk_megabytes, total_tasks,
}
use calrissian.Report.Parallel.{tasks, cpus, ram, max_parallel}

-- A time is written in its ISO form.
pub data Value : Type 0 where
  null : Value
  text : String → Value
  number : ℤ → Value
  count : ℕ → Value
  time : ℕ → Value

abbrev pub Fields : Type 0
Fields = List (String × Value)

-- A field that is None is left out.
abbrev pub if_there : String → (ℕ → Value) → Option ℕ → Fields
if_there key f none = []
if_there key f (some n) = (key, f n) ∷ []

abbrev pub named : Option String → Fields
named none = []
named (some name) = ("name", text name) ∷ []

abbrev pub timed_fields : TimedReport → Fields
timed_fields r =
    named r.name
    ++ if_there "start_time" time r.start_time
    ++ if_there "finish_time" time r.finish_time

abbrev pub or_null : Option ℕ → Value
or_null none = null
or_null (some n) = count n

-- TimedReport.timed_to_dict, given the fields of the object that are not None.
unfoldable pub timed_to_dict : Fields → TimedReport → Result Fields
unfolding elapsed_hours elapsed_seconds
timed_to_dict fields r = bind (elapsed_hours r) (λ hours. bind (elapsed_seconds r) (λ seconds.
    ok (fields ++ ("elapsed_hours", or_null hours) ∷ ("elapsed_seconds", or_null seconds) ∷ [])))

abbrev pub resource_fields : TimedResourceReport → Fields
resource_fields c =
    ("cpus", count c.cpus)
    ∷ ("ram_megabytes", count c.ram_megabytes)
    ∷ ("disk_megabytes", count c.disk_megabytes)
    ∷ ("exit_code", count c.exit_code)
    ∷ timed_fields c.timed

-- `exit_code` has its place among the fields.
unfoldable pub resource_to_dict : TimedResourceReport → Result Fields
unfolding timed_to_dict ram_megabyte_hours cpu_hours
resource_to_dict c = bind (timed_to_dict (resource_fields c) c.timed) (λ d.
    bind (ram_megabyte_hours c) (λ ram.
      bind (cpu_hours c)
        (λ cpu. ok (d ++ ("ram_megabyte_hours", or_null ram) ∷ ("cpu_hours", or_null cpu) ∷ []))))

unfoldable pub children_to_dict : List TimedResourceReport → Result (List Fields)
unfolding resource_to_dict
children_to_dict [] = ok []
children_to_dict (c ∷ children) =
    let rest = children_to_dict children in
    bind (resource_to_dict c) (λ d. bind rest (λ ds. ok (d ∷ ds)))

-- The dict of a timeline, and those under its key `children`.
pub record Summary : Type 0 where
  pub fields : Fields
  pub children : List Fields

abbrev pub timeline_fields : TimelineReport → Fields
timeline_fields r =
    ("cores_allowed", count r.cores_allowed)
    ∷ ("ram_mb_allowed", count r.ram_mb_allowed)
    ∷ timed_fields r.timed

unfoldable pub timeline_to_dict : TimelineReport → Result Summary
unfolding timed_to_dict children_to_dict total_cpu_hours total_ram_megabyte_hours
    total_disk_megabytes total_tasks max_parallel
timeline_to_dict r = bind (timed_to_dict (timeline_fields r) r.timed) (λ d.
    bind (total_cpu_hours r) (λ cpu_total. bind (total_ram_megabyte_hours r) (λ ram_total.
      bind (total_disk_megabytes r) (λ disk_total. bind (max_parallel cpus r) (λ cpu_max.
        bind (max_parallel ram r) (λ ram_max. bind (max_parallel tasks r) (λ task_max.
          bind (children_to_dict r.children) (λ children. ok (record {
            fields =
                d
                ++ ("total_cpu_hours", count cpu_total)
                  ∷ ("total_ram_megabyte_hours", count ram_total)
                  ∷ ("total_disk_megabytes", count disk_total)
                  ∷ ("total_tasks", count (total_tasks r))
                  ∷ ("max_parallel_cpus", number cpu_max)
                  ∷ ("max_parallel_ram_megabytes", number ram_max)
                  ∷ ("max_parallel_tasks", number task_max)
                  ∷ [];
            children = children;
          })))))))))
