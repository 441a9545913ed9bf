-- ===== src/Report/Create.antt =====
-- TimedResourceReport.create (calrissian/report.py): the report of a pod that completed. `none` is the
-- ValueError of a parser. `units` takes a float to the fixed unit that reports count in.
use Prim.Native.String.{String}
use calrissian.Prelude.{ℕ, Option, none, some}
use calrissian.Text.{codes}
use calrissian.Text.Decimal.{str}
use calrissian.K8s.Effects.{CompletionResult}
use calrissian.Report.{TimedResourceReport}
use calrissian.Report.Parser.{Floats, parse_cpu, parse_to_megabytes}

module _ (fl : Floats) (units : fl.Float → ℕ) where
  abbrev pub amounts :
      String
      → CompletionResult
      → Option fl.Float
      → Option fl.Float
      → Option fl.Float
      → Option TimedResourceReport
  amounts name c none _ _ = none
  amounts name c (some cpus) none _ = none
  amounts name c (some cpus) (some ram) none = none
  amounts name c (some cpus) (some ram) (some disk) = some (record {
    timed = record {
      name = some name;
      start_time = some c.start_time;
      finish_time = some c.finish_time;
    };
    cpus = units cpus;
    ram_megabytes = units ram;
    disk_megabytes = units disk;
    exit_code = c.exit_code;
  })

  unfoldable pub create : String → CompletionResult → ℕ → Option TimedResourceReport
  unfolding parse_cpu parse_to_megabytes str
  create name c disk_bytes =
      amounts name c (parse_cpu fl (codes c.cpus)) (parse_to_megabytes fl (codes c.memory))
        (parse_to_megabytes fl (str disk_bytes))
