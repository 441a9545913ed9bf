-- ===== src/Report/Parser/Tests.antt =====
-- The parsers on floats that are whole thousandths (calrissian/report.py).
use calrissian.Prelude.{
  ℕ, ◌*◌, ◌/◌, ◌≡◌, refl, Bool, true, ◌&&◌, Option, none, some, [], ◌∷◌, ◌++◌, All, if◌then◌else◌,
}
use calrissian.Text.{Text, codes, ends_with, remove}
use calrissian.Text.Decimal.{is_digit, IsDecimal, value, str, digits_onto}
use calrissian.Job.Pod.Resources.{resource_value}
use calrissian.K8s.Effects.{CompletionResult}
use calrissian.Report.Create.{create}
use calrissian.Report.Parser.{Floats, parse, memory_suffixes, parse_to_megabytes, parse_cpu}
use calrissian.Report.Parser.RoundTrip.{
  ReadsDecimals, quantities, Parses, parse_memory-suffixes, parse_cpu-suffixes,
  parse_to_megabytes-resource_value,
}

abbrev all_digits : Text → Bool
all_digits [] = true
all_digits (c ∷ t) = is_digit c && all_digits t

abbrev read : Text → Option ℕ
read [] = none
read (c ∷ t) = if all_digits (c ∷ t) then some (value (c ∷ t) * 1000) else none

abbrev pub thousandths : Floats
thousandths = record {
  Float = ℕ;
  float = read;
  of_nat = λ n. n * 1000;
  milli = 1;
  mul = λ x y. x * y / 1000;
  div = λ x y. x * 1000 / y;
}

digits_true : (t : Text) → All (λ c. is_digit c ≡ true) t → all_digits t ≡ true
digits_true [] h = refl
digits_true (c ∷ t) h = rw (h.0, digits_true t h.1) refl

thousandths-ReadsDecimals : ReadsDecimals thousandths
thousandths-ReadsDecimals [] d = absurd (d.filled refl)
thousandths-ReadsDecimals (c ∷ t) d = rw (digits_true (c ∷ t) d.digits) refl

sixteen-IsDecimal : IsDecimal (codes "16")
sixteen-IsDecimal = record { filled = λ e. cc; digits = (refl, (refl, tt)) }

parse_memory-suffixes_example :
    (parse thousandths (memory_suffixes thousandths) (codes "16") ≡ some 16000)
    × All (Parses thousandths (memory_suffixes thousandths) (codes "16")) quantities
parse_memory-suffixes_example =
    parse_memory-suffixes thousandths (codes "16") thousandths-ReadsDecimals sixteen-IsDecimal

parse_cpu-suffixes_example :
    (parse_cpu thousandths (codes "16") ≡ some 16000)
    × (parse_cpu thousandths (codes "16" ++ codes "m") ≡ some 16)
parse_cpu-suffixes_example =
    parse_cpu-suffixes thousandths (codes "16") thousandths-ReadsDecimals sixteen-IsDecimal

parse_to_megabytes-resource_value_example :
    ((w : Text) × (resource_value (some (codes "memory")) (str 512) ≡ some w)
      × (parse_to_megabytes thousandths w ≡ some 536870))
    × (w : Text) × (resource_value (some (codes "cpu")) (str 512) ≡ some w)
    × (parse_cpu thousandths w ≡ some 512000)
parse_to_megabytes-resource_value_example =
    parse_to_megabytes-resource_value thousandths 512 thousandths-ReadsDecimals

suffixes_tried :
    (parse thousandths (memory_suffixes thousandths) (codes "2Gi") ≡ some 2147483648000)
    × (parse thousandths (memory_suffixes thousandths) (codes "1x") ≡ none)
unfolding parse ends_with remove
suffixes_tried = (refl, refl)

abbrev completed : CompletionResult
completed = record {
  exit_code = 3;
  cpus = "500m";
  memory = "2G";
  start_time = 5;
  finish_time = 9;
  tool_log = [];
}

created :
    create thousandths (λ x. x) "job" completed 3000000
    ≡ some (record {
      timed = record { name = some "job"; start_time = some 5; finish_time = some 9 };
      cpus = 500;
      ram_megabytes = 2000000;
      disk_megabytes = 3000;
      exit_code = 3;
    })
unfolding create parse ends_with remove str digits_onto
created = refl
