-- ===== src/Report.antt =====
-- calrissian/report.py: timed reports, their timeline and its statistics. Times are whole ticks. A
-- number of hours is given by its ticks, so that no division is needed: what the source computes in
-- hours is here in the part of an hour that a tick is.
pub mod Timeline
pub mod Parallel
pub mod Parser
pub mod Create
pub mod Json
pub mod Area
mod Tests
use Prim.Native.String.{String}
use calrissian.Prelude.{
  ℕ, ◌+◌, ◌*◌, ◌-◌, ◌==◌, ltb, map, length, Option, none, some, List, [], ◌∷◌, ◌++◌, if◌then◌else◌,
}

pub record TimedReport : Type 0 where
  pub name : Option String
  pub start_time : Option ℕ
  pub finish_time : Option ℕ

-- `x if x else now`
abbrev or_now : ℕ → Option ℕ → Option ℕ
or_now now none = some now
or_now now (some t) = some t

unfoldable pub start : ℕ → Option ℕ → TimedReport → TimedReport
start now start_time r = record r { start_time = or_now now start_time }

unfoldable pub finish : ℕ → Option ℕ → TimedReport → TimedReport
finish now finish_time r = record r { finish_time = or_now now finish_time }

-- A result, or an error: the ValueError of a negative time, and the TypeError of comparing a time
-- with None.
pub data Result (A : Type 0) : Type 0 where
  ok : A → Result A
  value_error type_error : Result A

abbrev pub bind : {A B : Type 0} → Result A → (A → Result B) → Result B
bind (ok a) f = f a
bind value_error f = value_error
bind type_error f = type_error

unfoldable pub elapsed_between : Option ℕ → Option ℕ → Result (Option ℕ)
elapsed_between none finish_time = ok none
elapsed_between (some s) none = ok none
elapsed_between (some s) (some f) = if ltb f s then value_error else ok (some (f - s))

unfoldable pub elapsed_seconds : TimedReport → Result (Option ℕ)
unfolding elapsed_between
elapsed_seconds r = elapsed_between r.start_time r.finish_time

-- No time at all counts as none, as in `if elapsed_seconds`.
abbrev pub if_positive : Option ℕ → Option ℕ
if_positive none = none
if_positive (some n) = if n == 0 then none else some n

unfoldable pub elapsed_hours : TimedReport → Result (Option ℕ)
unfolding elapsed_seconds
elapsed_hours r = bind (elapsed_seconds r) (λ n. ok (if_positive n))

pub record TimedResourceReport : Type 0 where
  pub timed : TimedReport
  pub open timed use *
  pub cpus : ℕ
  pub ram_megabytes : ℕ
  pub disk_megabytes : ℕ
  pub exit_code : ℕ

abbrev pub scaled : ℕ → Option ℕ → Option ℕ
scaled k none = none
scaled k (some hours) = some (k * hours)

unfoldable pub ram_megabyte_hours : TimedResourceReport → Result (Option ℕ)
unfolding elapsed_hours
ram_megabyte_hours r = bind (elapsed_hours r.timed) (λ h. ok (scaled r.ram_megabytes h))

unfoldable pub cpu_hours : TimedResourceReport → Result (Option ℕ)
unfolding elapsed_hours
cpu_hours r = bind (elapsed_hours r.timed) (λ h. ok (scaled r.cpus h))

pub record TimelineReport : Type 0 where
  pub timed : TimedReport
  pub open timed use *
  pub cores_allowed : ℕ
  pub ram_mb_allowed : ℕ
  pub children : List TimedResourceReport

-- `sum_ignore_none`, of results.
abbrev pub add_option : Option ℕ → ℕ → ℕ
add_option none n = n
add_option (some m) n = m + n

unfoldable pub sum_ignore_none : List (Result (Option ℕ)) → Result ℕ
sum_ignore_none [] = ok 0
sum_ignore_none (r ∷ rs) =
    let rest = sum_ignore_none rs in bind r (λ n. bind rest (λ m. ok (add_option n m)))

unfoldable pub total_cpu_hours : TimelineReport → Result ℕ
unfolding sum_ignore_none cpu_hours
total_cpu_hours r = sum_ignore_none (map cpu_hours r.children)

unfoldable pub total_ram_megabyte_hours : TimelineReport → Result ℕ
unfolding sum_ignore_none ram_megabyte_hours
total_ram_megabyte_hours r = sum_ignore_none (map ram_megabyte_hours r.children)

unfoldable pub total_disk_megabytes : TimelineReport → Result ℕ
unfolding sum_ignore_none
total_disk_megabytes r = sum_ignore_none (map (λ c. ok (some c.disk_megabytes)) r.children)

unfoldable pub total_tasks : TimelineReport → ℕ
total_tasks r = length r.children
