-- ===== src/Job/Runner/Tests.antt =====
-- A job on a small cluster (calrissian/job.py), and the theorems at inputs that meet their hypotheses.
use calrissian.Prelude.{◌≡◌, refl, none, some, [], ◌∷◌}
use calrissian.Text.{Text, codes, eq_text, starts_with}
use calrissian.Text.Dict.{lookup, last_value, or_value}
use calrissian.Retry.Bounded.{bounded}
use calrissian.K8s.Effects.{CompletionResult}
use calrissian.Job.Volumes.{
  VolumeBuilder, Entry, persistent_volume_claim, new_builder, add_persistent_volume_entry,
}
use calrissian.Job.Runner.{
  FileOp, make_dirs, make_temp, copy, make_writable, Status, success, permanent_fail,
  temporary_fail, MapperEnt, file_or_directory, writable_file, Job, RuntimeContext, JobState,
  Outputs,
}
use calrissian.Job.Runner.Bindings.{
  Files, join_path, basename, perform, add_writable_file_volume, add_volumes,
}
use calrissian.Job.Runner.Runtime.{create_kubernetes_runtime, populate_env_vars}
use calrissian.Job.Runner.Run.{Machine, status_of, total_size, run}
use calrissian.Job.Runner.Keeps.{Ends}
use calrissian.Job.Runner.Mounts.{IsDeclared, create_kubernetes_runtime-IsDeclared}
use calrissian.Job.Runner.Outcome.{HasFailed, HasFinished, run-HasFinished}
use calrissian.Job.Runner.Protects.{Protects, add_volumes-Protects}
use calrissian.Job.Runner.Environment.{preset, lookup-populate_env_vars}
use calrissian.Job.Runner.Sample.{files, host, input, job, ctx, builder-IsValid, at_start, machine}

create_kubernetes_runtime-IsDeclared_example :
    Ends (λ made _. IsDeclared made) (λ _. Unit) (create_kubernetes_runtime host ctx job at_start)
create_kubernetes_runtime-IsDeclared_example =
    create_kubernetes_runtime-IsDeclared host ctx job at_start builder-IsValid

run-HasFinished_example :
    Ends
      (λ _ s'. HasFinished machine job at_start s')
      (HasFailed machine ctx job at_start)
      (run machine ctx job at_start)
run-HasFinished_example = run-HasFinished machine ctx job at_start

add_volumes-Protects_example :
    Ends
      (λ _. Protects files job job.pathmapper at_start)
      (Protects files job job.pathmapper at_start)
      (add_volumes files job job.pathmapper at_start)
add_volumes-Protects_example = add_volumes-Protects files job job.pathmapper at_start refl

lookup-populate_env_vars_example :
    lookup (codes "HOME") (populate_env_vars host ctx job at_start).1.environment
    ≡ or_value
        (last_value (codes "HOME") ((codes "HOME", codes "/other") ∷ (codes "N", codes "1") ∷ []))
        (preset job [] (codes "HOME"))
lookup-populate_env_vars_example =
    lookup-populate_env_vars host ctx job at_start _ refl (codes "HOME")

status_cases :
    (status_of job 0 ≡ success)
    × (status_of job 75 ≡ temporary_fail)
    × (status_of job 3 ≡ permanent_fail)
    × (total_size (some 5 ∷ none ∷ some 2 ∷ []) ≡ 7)
unfolding status_of total_size
status_cases = (refl, refl, refl, refl)

copied_input :
    (add_writable_file_volume files job input none at_start).1.files
    ≡ make_temp (codes "/data/tmp/tmp1")
      ∷ copy (codes "/data/in/a.txt") (codes "/data/tmp/tmp1/a.txt")
      ∷ make_writable (codes "/data/tmp/tmp1/a.txt")
      ∷ []
unfolding add_writable_file_volume calrissian.Job.Runner.Bindings.copy_file
    calrissian.Job.Runner.Bindings.mkdtemp perform join_path basename
    calrissian.Job.Runner.Bindings.bind_volume calrissian.Job.Volumes.add_volume_binding
    calrissian.Job.Volumes.find_persistent_volume calrissian.Job.Volumes.find_entry
    calrissian.Job.Volumes.calculate_subpath calrissian.Job.Volumes.slashed
    calrissian.Job.Volumes.ends_with_slash calrissian.Text.drop starts_with
copied_input = refl

run_called_back :
    (run machine ctx job at_start).1.callbacks
    ≡ (record { name = "outputs"; sizes = some 5 ∷ none ∷ [] }, permanent_fail) ∷ []
unfolding calrissian.Job.Runner.Bindings.add_writable_file_volume calrissian.Job.Runner.Run.run
    calrissian.Retry.Bounded.bounded
run_called_back = refl

abbrev result : CompletionResult
result = record {
  exit_code = 3;
  cpus = "2";
  memory = "1M";
  start_time = 10;
  finish_time = 20;
  tool_log = [];
}
