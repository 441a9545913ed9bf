-- ===== src/Main/Tests.antt =====
-- A small command line (calrissian/main.py), and the theorems at inputs that meet their hypotheses.
use calrissian.Prelude.{
  Option, ℕ, ◌≡◌, refl, true, false, none, some, [], ◌∷◌, ◌*◌, ◌/◌, if◌then◌else◌,
}
use calrissian.Text.{Text, codes, eq_text}
use calrissian.Text.Dict.{lookup, last_value}
use calrissian.Retry.Bounded.{bounded, bounded-IsTenacity}
use calrissian.K8s.Config.{loads}
use calrissian.K8s.Effects.{ok}
use calrissian.K8s.Monitor.{Setting}
use calrissian.Report.Parser.{Floats}
use calrissian.Job.Runner.Bindings.{join_path}
use calrissian.Main.Arguments.{
  Parser, Home, Load, missing, loaded, exits_with_failure, exits_with_success, parse_args,
  set_defaults, parse_arguments, home_defaults, conf_defaults,
}
use calrissian.Main.Version.{version}
use calrissian.Main.Arguments.Precedence.{Reads, parse_arguments-Reads}
use calrissian.Main.{Process, returned, Machine, main}
use calrissian.Main.Cleanup.{Runs, main-Runs}

abbrev parser : Parser
parser = record {
  defaults = (codes "max_ram", none) ∷ (codes "conf", none) ∷ [];
  given =
      (codes "conf", some (codes "my.json"))
      ∷ (codes "max_cores", some (codes "4"))
      ∷ (codes "usage_report", some (codes "usage.json"))
      ∷ [];
}

-- There is no default.json; the file of `--conf` gives the RAM.
abbrev load : Text → Load
load path =
    if eq_text path (codes "my.json")
    then loaded ((codes "max_ram", some (codes "2G")) ∷ (codes "max_cores", some (codes "8")) ∷ [])
    else missing

abbrev home : Home
home = record { directory = some (codes "/root"); load = load }

parse_arguments-Reads_example : Reads home parser (parse_arguments home parser)
parse_arguments-Reads_example = parse_arguments-Reads home parser

exits :
    (parse_arguments home (record { defaults = []; given = [] }) ≡ exits_with_failure)
    × (parse_arguments home
          (record { defaults = []; given = (codes "version", some (codes "True")) ∷ [] })
        ≡ exits_with_success)
unfolding parse_arguments home_defaults conf_defaults parse_args set_defaults join_path eq_text
    lookup last_value calrissian.Text.Dict.update calrissian.Job.Volumes.ends_with_slash
    calrissian.Text.starts_with
exits = (refl, refl)

abbrev cluster : Setting
cluster = record {
  api = record {
    create_namespaced_pod = λ _ name. ok name;
    delete_namespaced_pod = λ _ _. ok tt;
    list_namespaced_pod = λ _ _. ok [];
    watch = λ _ _. ([], none);
    read_log = λ _ _. ([], none);
    utcnow = λ _ _. "now";
  };
  config = record {
    load_incluster_config = loads;
    load_kube_config = loads;
    namespace_file = some (codes "flow");
  };
  tenacity = bounded;
  retry_attempts = some 3;
  delete_pods = none;
  pod_name_variable = some "self";
}

abbrev floats : Floats
floats = record {
  Float = ℕ;
  float = λ t. some 4;
  of_nat = λ n. n;
  milli = 0;
  mul = λ x y. x * y;
  div = λ x y. x / y;
}

-- The workflow leaves a pod.
abbrev machine : Machine
machine = record {
  home = home;
  parser = parser;
  cluster = cluster;
  floats = floats;
  units = λ x. x;
  int = λ _. some 0;
  opens = λ _. true;
  cwlmain =
      λ _ _ p. (returned 0, record p { session = record (p.session) { pod_names = "pod" ∷ [] } });
}

abbrev fresh : Process
fresh = record {
  session = record {
    pod = none;
    completion_result = none;
    tool_log = [];
    pod_names = [];
    requested = [];
    calls = 0;
  };
  reporter = none;
  written = [];
  handles_sigterm = false;
  level = none;
  tees = [];
}

main-Runs_example : Runs machine bounded-IsTenacity fresh (main machine fresh)
main-Runs_example = main-Runs machine bounded-IsTenacity fresh

abbrev one_package : Text → Option Text
one_package name = if eq_text name (codes "cwltool") then some (codes "3.1") else none

version_of : version one_package ≡ codes "calrissian unknown (cwltool 3.1)"
unfolding version eq_text
version_of = refl
