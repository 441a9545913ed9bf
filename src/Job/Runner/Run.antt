-- ===== src/Job/Runner/Run.antt =====
-- CalrissianCommandLineJob.run (calrissian/job.py), and the methods that it calls around the pod.
use Prim.Native.String.{String}
use calrissian.Prelude.{
  ℕ, ◌+◌, ◌==◌, any, Bool, not, Option, none, some, List, [], ◌∷◌, ◌++◌, if◌then◌else◌,
}
use calrissian.Text.{Text, codes}
use calrissian.Text.Dict.{TextDict}
use calrissian.K8s.Effects.{CompletionResult}
use calrissian.K8s.Monitor.{Setting, submit_pod}
use calrissian.K8s.Client.{wait_for_completion}
use calrissian.Report.{TimedResourceReport}
use calrissian.Report.Parser.{Floats}
use calrissian.Report.Create.{create}
use calrissian.Report.Timeline.{reporter_add_report}
use calrissian.Job.Pod.Build.{Manifest, if_filled}
use calrissian.Job.Volumes.{
  PodSpec, VolumeBuilder, new_builder, add_persistent_volume_entries_from_pod,
}
use calrissian.Job.Runner.{
  Job, RuntimeContext, FileOp, make_dirs, write_lines, remove_tree, Status, success, temporary_fail,
  permanent_fail, Outputs, value_error, attribute_error, base_error, Method, pure, raise, or_raise,
  on_client, get, modify, whenever, ◌>>=◌, ◌>>◌,
}
use calrissian.Job.Runner.Bindings.{join_path, perform}
use calrissian.Job.Runner.Runtime.{
  Host, check_requirements, populate_env_vars, setup_kubernetes, create_kubernetes_runtime,
}

-- What a job is run with besides its host: the cluster, floats, the base class of cwltool, which sets
-- up files and collects outputs and may raise, and the text of a manifest.
pub record Machine : Type 1 where
  pub host : Host
  pub cluster : Setting
  pub floats : Floats
  pub units : floats.Float → ℕ
  pub render : Manifest → String
  pub setup : TextDict Text → List FileOp → Option (List FileOp)
  pub collect_outputs : List FileOp → Text → ℕ → Option Outputs
  -- The callback of a job, given its calls so far. It may raise.
  pub output_callback : List (Outputs × Status) → Outputs → Status → Option (Unit {0})

-- The sum of the sizes, where a size that is not there is 0.
unfoldable pub total_size : List (Option ℕ) → ℕ
total_size [] = 0
total_size (none ∷ sizes) = total_size sizes
total_size (some size ∷ sizes) = size + total_size sizes

abbrev pub is_in : ℕ → List ℕ → Bool
is_in code = any (λ c. c == code)

unfoldable pub status_of : Job → ℕ → Status
status_of job exit_code =
    if is_in exit_code job.success_codes
    then success
    else if is_in exit_code job.temporary_fail_codes
    then temporary_fail
    else if is_in exit_code job.permanent_fail_codes
    then permanent_fail
    else if exit_code == 0
    then success
    else permanent_fail

-- The builder of a new job, from the pod that calrissian runs in. `none` is an exception.
unfoldable pub initial_volume_builder : PodSpec → Option VolumeBuilder
unfolding add_persistent_volume_entries_from_pod new_builder
initial_volume_builder pod = add_persistent_volume_entries_from_pod pod new_builder

module _ (m : Machine) (ctx : RuntimeContext) (job : Job) where
  abbrev pub act : FileOp → Method (Unit {0})
  act = perform m.host.files

  abbrev pub make_dirs_unless_there : Text → Method (Unit {0})
  make_dirs_unless_there path = do
    s ← get
    whenever (not (m.host.files.exists s.files path)) (act (make_dirs path))

  unfoldable pub make_tmpdir : Method (Unit {0})
  unfolding perform
  make_tmpdir = make_dirs_unless_there job.tmpdir

  -- The new timeline; there is none before `Reporter.initialize`.
  abbrev pub with_report : Option TimedResourceReport → Method (Unit {0})
  with_report none = raise value_error
  with_report (some r) = do
    s ← get
    timeline ← or_raise attribute_error (reporter_add_report r s.reporter)
    modify (λ s. record s { reporter = some timeline })

  unfoldable pub report : CompletionResult → ℕ → Method (Unit {0})
  unfolding create reporter_add_report
  report result disk_bytes = with_report (create m.floats m.units job.name result disk_bytes)

  abbrev pub dump_to : Option Text → CompletionResult → Method (Unit {0})
  dump_to none result = pure tt
  dump_to (some basepath) result = do
    make_dirs_unless_there basepath
    act (write_lines (join_path basepath (codes job.name ++ codes ".log")) result.tool_log)

  unfoldable pub dump_tool_logs : CompletionResult → Method (Unit {0})
  unfolding perform join_path
  dump_tool_logs result = dump_to (if_filled ctx.tool_logs_basepath) result

  -- `shutil.rmtree` that ignores errors.
  abbrev pub remove : Text → Method (Unit {0})
  remove path = modify (λ s. record s { files = s.files ++ remove_tree path ∷ [] })

  abbrev pub remove_stagedir : Option Text → Method (Unit {0})
  remove_stagedir none = pure tt
  remove_stagedir (some path) = do
    s ← get
    whenever (m.host.files.exists s.files path) (remove path)

  abbrev pub output_callback : Outputs → Status → Method (Unit {0})
  output_callback outputs status = do
    s ← get
    modify (λ s. record s { callbacks = s.callbacks ++ (outputs, status) ∷ [] })
    or_raise base_error (m.output_callback s.callbacks outputs status)

  unfoldable pub finish : CompletionResult → Method (Unit {0})
  unfolding dump_tool_logs report status_of total_size
  finish result = do
    dump_tool_logs result
    s ← get
    outputs ← or_raise base_error (m.collect_outputs s.files job.outdir result.exit_code)
    report result (total_size outputs.sizes)
    output_callback outputs (status_of job result.exit_code)
    remove_stagedir job.stagedir
    whenever ctx.rm_tmpdir (remove job.tmpdir)

  -- `_setup` of cwltool
  abbrev pub base_setup : Method (Unit {0})
  base_setup = do
    s ← get
    files ← or_raise base_error (m.setup s.resources s.files)
    modify (λ s. record s { files = files })

  unfoldable pub execute_kubernetes_pod : Manifest → Method (Unit {0})
  unfolding submit_pod
  execute_kubernetes_pod pod = on_client (submit_pod m.cluster (m.render pod)) >> pure tt

  unfoldable pub wait_for_kubernetes_pod : Method CompletionResult
  unfolding wait_for_completion
  wait_for_kubernetes_pod = on_client (wait_for_completion m.cluster)

  -- What `run` does before it finishes.
  unfoldable pub run_pod : Method CompletionResult
  unfolding check_requirements make_tmpdir populate_env_vars setup_kubernetes
      create_kubernetes_runtime execute_kubernetes_pod wait_for_kubernetes_pod
  run_pod = do
    check_requirements job
    make_tmpdir
    populate_env_vars m.host ctx job
    setup_kubernetes m.host ctx job
    base_setup
    pod ← create_kubernetes_runtime m.host ctx job
    execute_kubernetes_pod pod
    wait_for_kubernetes_pod

  unfoldable pub run : Method (Unit {0})
  unfolding run_pod finish
  run = run_pod >>= finish
