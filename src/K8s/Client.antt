-- ===== src/K8s/Client.antt =====
-- KubernetesClient (calrissian/k8s.py): following a pod until it is done, and looking pods up.
use Prim.Native.String.{String}
use text.Mathlib.Text.{◌==◌ as str_eq}
use calrissian.Prelude.{length, ℕ, Option, none, some, List, [], ◌∷◌, ◌++◌, if◌then◌else◌}
use calrissian.Dict.{Dict, lookup}
use calrissian.K8s.Effects.{
  Terminated, State, Container, Pod, LogEntry, CompletionResult, Error, incomplete_status,
  job_exception, key_error, attribute_error, Session, Result, ok, err, Action, pure, throw, called,
  lift, get, modify, ◌>>=◌, ◌>>◌,
}
use calrissian.K8s.Monitor.{
  Setting, is_api_error, is_watch_error, retrying, delete_pod_name, remove, should_delete_pod,
  clear_pod,
}

-- `get_first_or_none`: more than one is an error.
unfoldable pub get_first_or_none : {A : Type 0} → Option (List A) → Result (Option A)
get_first_or_none none = ok none
get_first_or_none (some []) = ok none
get_first_or_none (some (x ∷ [])) = ok (some x)
get_first_or_none (some (_ ∷ _ ∷ _)) = err job_exception

abbrev key_or_error : Option String → Result String
key_or_error none = err key_error
key_or_error (some v) = ok v

abbrev requests_of : Option (Dict String) → Action (String × String)
requests_of none = throw job_exception
requests_of (some []) = throw job_exception
requests_of (some (r ∷ rs)) = do
  cpu ← lift (key_or_error (lookup "cpu" (r ∷ rs)))
  memory ← lift (key_or_error (lookup "memory" (r ∷ rs)))
  pure (cpu, memory)

-- `_extract_cpu_memory_requests`; None has no attribute `resources`.
unfoldable pub extract_cpu_memory_requests : Option Container → Action (String × String)
extract_cpu_memory_requests none = throw attribute_error
extract_cpu_memory_requests (some container) = requests_of container.requests

-- `_extract_start_finish_times`
unfoldable pub extract_start_finish_times : Terminated → ℕ × ℕ
extract_start_finish_times t = (t.started_at, t.finished_at)

-- `_handle_completion`
unfoldable pub handle_completion : Terminated → Option Container → Action (Unit {0})
unfolding extract_cpu_memory_requests extract_start_finish_times
handle_completion t container = do
  requests ← extract_cpu_memory_requests container
  modify (λ s. record s {
    completion_result = some (record {
      exit_code = t.exit_code;
      cpus = requests.0;
      memory = requests.1;
      start_time = (extract_start_finish_times t).0;
      finish_time = (extract_start_finish_times t).1;
      tool_log = s.tool_log;
    });
  })

-- What one event of the watch does; `true` stops the watch.
pub data Verdict : Type 0 where
  continue stop : Verdict

abbrev pod_or_error : Option String → Result String
pod_or_error none = err attribute_error
pod_or_error (some name) = ok name

module _ (env : Setting) where
  -- `format_log_entry`, and the loop over the lines.
  abbrev format_log_entry : String → String → Session → LogEntry
  format_log_entry pod line s = record {
    timestamp = env.utcnow s.calls (length s.tool_log);
    pod = pod;
    entry = line;
  }

  unfoldable pub append_lines : String → List String → Session → Session
  append_lines pod [] s = s
  append_lines pod (line ∷ lines) s =
      append_lines pod lines
        (record s { tool_log = s.tool_log ++ format_log_entry pod line s ∷ [] })

  abbrev ended : Option Error → Action (Unit {0})
  ended none = pure tt
  ended (some e) = throw e

  -- One attempt of `follow_logs`: the lines that came before an error stay in the log.
  unfoldable pub follow_logs_once : Action (Unit {0})
  unfolding append_lines
  follow_logs_once = do
    s ← get
    pod ← lift (pod_or_error s.pod)
    log ← called (λ n. ok (env.read_log n pod))
    modify (append_lines pod log.0)
    ended log.1

  unfoldable pub follow_logs : Action (Unit {0})
  unfolding follow_logs_once
  follow_logs = retrying env is_api_error (Unit {0}) follow_logs_once

  -- Deleting the finished pod, under the lock of PodMonitor.
  abbrev pub delete_and_remove : String → Action (Unit {0})
  delete_and_remove name = do delete_pod_name env name; modify (remove name)

  unfoldable pub handle_terminated : Pod → Terminated → Action Verdict
  unfolding get_first_or_none handle_completion delete_pod_name remove should_delete_pod clear_pod
  handle_terminated pod t = do
    container ← lift (get_first_or_none (some pod.containers))
    handle_completion t container
    if should_delete_pod env.delete_pods then delete_and_remove pod.name else pure tt
    modify clear_pod
    pure stop

  abbrev pub on_terminated : Pod → Option Terminated → Action Verdict
  on_terminated pod none = throw job_exception
  on_terminated pod (some t) = handle_terminated pod t

  abbrev pub on_state : Pod → Option State → Action Verdict
  on_state pod none = pure continue
  on_state pod (some state) =
      if state.waiting
      then pure continue
      else if state.running
      then follow_logs >> pure continue
      else on_terminated pod state.terminated

  unfoldable pub handle_event : Pod → Action Verdict
  unfolding follow_logs handle_terminated get_first_or_none
  handle_event pod = do
    status ← lift (get_first_or_none pod.container_statuses)
    on_state pod status

  abbrev unless_stopped : Action (Unit {0}) → Verdict → Action (Unit {0})
  unless_stopped rest stop = pure tt
  unless_stopped rest continue = rest

  -- The loop over the watch. After `w.stop()` no further event is taken.
  unfoldable pub watch_events : Option Error → List Pod → Action (Unit {0})
  unfolding handle_event
  watch_events last [] = ended last
  watch_events last (pod ∷ events) = do
    verdict ← handle_event pod
    unless_stopped (watch_events last events) verdict

  abbrev result_or_error : Option CompletionResult → Action CompletionResult
  result_or_error none = throw incomplete_status
  result_or_error (some r) = pure r

  -- One attempt of `wait_for_completion`. The field selector needs the pod's name.
  unfoldable pub wait_for_completion_once : Action CompletionResult
  unfolding watch_events
  wait_for_completion_once = do
    s ← get
    name ← lift (pod_or_error s.pod)
    events ← called (λ n. ok (env.watch n name))
    watch_events events.1 events.0
    s' ← get
    result_or_error s'.completion_result

  unfoldable pub wait_for_completion : Action CompletionResult
  unfolding wait_for_completion_once
  wait_for_completion = retrying env is_watch_error CompletionResult wait_for_completion_once

  abbrev pub only_pod : List Pod → Result Pod
  only_pod [] = err job_exception
  only_pod (pod ∷ []) = ok pod
  only_pod (_ ∷ _ ∷ _) = err job_exception

  unfoldable pub get_pod_for_name : String → Action Pod
  get_pod_for_name name =
      retrying env is_api_error Pod
        (do pods ← called (λ n. env.list_namespaced_pod n name); lift (only_pod pods))

  abbrev pub name_or_error : Option String → Action Pod
  name_or_error none = throw job_exception
  name_or_error (some name) = if str_eq name "" then throw job_exception else get_pod_for_name name

  unfoldable pub get_current_pod : Action Pod
  unfolding get_pod_for_name
  get_current_pod = name_or_error env.pod_name_variable
