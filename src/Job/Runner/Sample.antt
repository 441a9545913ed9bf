-- ===== src/Job/Runner/Sample.antt =====
-- A small job on a small cluster, for tests (calrissian/job.py).
use calrissian.Prelude.{
  ℕ, refl, Bool, true, false, none, some, List, [], ◌∷◌, ◌*◌, ◌/◌, if◌then◌else◌,
}
use calrissian.Text.{Text, codes, eq_text, starts_with}
use calrissian.Text.Dict.{TextDict, lookup, last_value, or_value}
use calrissian.Retry.Bounded.{bounded}
use calrissian.K8s.Config.{loads}
use calrissian.K8s.Effects.{Terminated, Pod, ok}
use calrissian.K8s.Monitor.{Setting}
use calrissian.Report.Timeline.{initialize}
use calrissian.Report.Parser.{Floats}
use calrissian.Job.Volumes.{
  VolumeBuilder, persistent_volume_claim, new_builder, add_persistent_volume_entry,
}
use calrissian.Job.Volumes.Invariant.{IsValid}
use calrissian.Job.Volumes.Reach.{start, next, entry, Reach-IsValid}
use calrissian.Job.Runner.{
  FileOp, make_dirs, MapperEnt, writable_file, Job, RuntimeContext, JobState,
}
use calrissian.Job.Runner.Bindings.{Files, join_path}
use calrissian.Job.Runner.Runtime.{Host}
use calrissian.Job.Runner.Run.{Machine}

abbrev pub made : Text → List FileOp → Bool
made path [] = false
made path (make_dirs p ∷ ops) = if eq_text p path then true else made path ops
made path (_ ∷ ops) = made path ops

-- Every operation succeeds, and every temporary directory is the same.
abbrev pub files : Files
files = record {
  exists = λ ops path. made path ops;
  succeeds = λ _ _. true;
  temp_name = λ _ parent. join_path parent (codes "tmp1");
  realpath = λ path. path;
}

abbrev pub host : Host
host = record {
  files = files;
  yaml = λ _. some ((codes "HOME", codes "/other") ∷ (codes "N", codes "1") ∷ []);
  uid = codes "1000";
  gid = codes "1000";
  should_quote = λ _. false;
  quote = λ arg. arg;
  init_image = none;
  tag = codes "abc";
  max = λ a b. b;
}

abbrev pub input : MapperEnt
input = record { resolved = codes "/data/in/a.txt"; target = codes "/in/a.txt" }

abbrev pub job : Job
job = record {
  name = "step";
  outdir = codes "/data/out";
  tmpdir = codes "/data/tmp";
  stagedir = none;
  builder_outdir = codes "/out";
  command_line = codes "cat" ∷ [];
  stdout = none;
  stderr = none;
  stdin = none;
  success_codes = [];
  temporary_fail_codes = 75 ∷ [];
  permanent_fail_codes = 1 ∷ [];
  inplace_update = false;
  get_requirement = λ _. (none, false);
  builder_requires_docker = false;
  find_default_container = some (codes "alpine");
  requirements = [];
  pathmapper = writable_file input none ∷ [];
  generatemapper = none;
}

abbrev pub ctx : RuntimeContext
ctx = record {
  pod_labels = none;
  pod_nodeselectors = none;
  pod_env_vars = some (codes "env.yml");
  pod_serviceaccount = none;
  no_match_user = false;
  max_gpus = none;
  tool_logs_basepath = none;
  rm_tmpdir = false;
}

abbrev pub builder : VolumeBuilder
builder = record {
  persistent_volume_entries =
      (
        codes "/data",
        record {
          prefix = codes "/data";
          sub_path = none;
          volume = persistent_volume_claim (codes "claim") (codes "claim") false;
        },
      )
      ∷ [];
  emptydir_volume_names = [];
  volume_mounts = [];
  volumes = persistent_volume_claim (codes "claim") (codes "claim") false ∷ [];
}

pub builder-IsValid : IsValid builder
unfolding new_builder add_persistent_volume_entry calrissian.Text.Dict.insert
builder-IsValid =
    Reach-IsValid builder (next start (entry (codes "/data") none (codes "claim") false refl))

abbrev pub at_start : JobState
at_start = record {
  session = record {
    pod = none;
    completion_result = none;
    tool_log = [];
    pod_names = [];
    requested = [];
    calls = 0;
  };
  volume_builder = builder;
  environment = [];
  resources = (codes "cores", codes "1") ∷ (codes "ram", codes "256") ∷ [];
  files = [];
  reporter = some (initialize 8 1000);
  callbacks = [];
}

abbrev pub at_end : Terminated
at_end = record { exit_code = 3; started_at = 10; finished_at = 20 }

abbrev pub pod : Pod
pod = record {
  name = "pod";
  container_statuses =
      some (record { running = false; waiting = false; terminated = some at_end } ∷ []);
  containers = record { requests = some (("memory", "1M") ∷ ("cpu", "2") ∷ []) } ∷ [];
}

abbrev pub cluster : Setting
cluster = record {
  api = record {
    create_namespaced_pod = λ _ name. ok name;
    delete_namespaced_pod = λ _ _. ok tt;
    list_namespaced_pod = λ _ _. ok [];
    watch = λ _ _. (pod ∷ [], none);
    read_log = λ _ _. ([], none);
    utcnow = λ _ _. "now";
  };
  config = record {
    load_incluster_config = loads;
    load_kube_config = loads;
    namespace_file = some (codes "flow");
  };
  tenacity = bounded;
  retry_attempts = some 3;
  delete_pods = none;
  pod_name_variable = some "self";
}

-- Numbers of one digit.
abbrev pub floats : Floats
floats = record {
  Float = ℕ;
  float = λ t. some 1;
  of_nat = λ n. n;
  milli = 0;
  mul = λ x y. x * y;
  div = λ x y. x / y;
}

abbrev pub machine : Machine
machine = record {
  host = host;
  cluster = cluster;
  floats = floats;
  units = λ x. x;
  render = λ _. "pod";
  setup = λ _ ops. some ops;
  output_callback = λ _ _ _. some tt;
  collect_outputs = λ _ _ _. some (record { name = "outputs"; sizes = some 5 ∷ none ∷ [] });
}
