-- ===== src/K8s/Completion.antt =====
-- Waiting for a pod to complete (calrissian/k8s.py): what `wait_for_completion` returns once the
-- watch shows the pod terminated.
use Prim.Native.String.{String}
use calrissian.Prelude.{
  ℕ, suc, ◌≡◌, refl, ◌∙◌, Bool, true, false, Option, none, some, List, [], ◌∷◌, ◌++◌, ◌⊎◌, inl, inr,
  arith, All, if◌then◌else◌,
}
use calrissian.Dict.{Dict, lookup}
use calrissian.Retry.{IsTenacity, attempts}
use calrissian.K8s.Effects.{
  Terminated, State, Container, Pod, CompletionResult, Error, api_exception, Session, ok, err, pure,
}
use calrissian.K8s.Monitor.{
  Setting, is_api_error, is_watch_error, delete_pod_name_once, delete_pod_name, remove,
  should_delete_pod, clear_pod,
}
use calrissian.K8s.Client.{
  stop, continue, get_first_or_none, handle_completion, append_lines, follow_logs_once, follow_logs,
  handle_terminated, handle_event, watch_events, wait_for_completion_once, wait_for_completion,
  extract_cpu_memory_requests, extract_start_finish_times, delete_and_remove,
}

-- The containers of a pod that is not done: none yet, one that waits, or one that runs.
abbrev pub IsQuiet : Option (List State) → Type 0
IsQuiet none = Unit
IsQuiet (some []) = Unit
IsQuiet (some (state ∷ [])) =
    (state.waiting ≡ true) ⊎ ((state.waiting ≡ false) × (state.running ≡ true))
IsQuiet (some (_ ∷ _ ∷ _)) = ⊥

-- The pod's one container has terminated, and states its requests.
pub record HasTerminated (pod : Pod) (t : Terminated) (cpu mem : String) : Type 0 where
  pub state : State
  pub container : Container
  pub requests : Dict String
  pub statuses : pod.container_statuses ≡ some (state ∷ [])
  pub not_waiting : state.waiting ≡ false
  pub not_running : state.running ≡ false
  pub terminated : state.terminated ≡ some t
  pub containers : pod.containers ≡ container ∷ []
  pub requested : container.requests ≡ some requests
  pub cpu_request : lookup "cpu" requests ≡ some cpu
  pub memory_request : lookup "memory" requests ≡ some mem

-- What the API has to do for the run to end: logs are read to their end, and a deletion is done or
-- finds the pod gone.
pub record IsReliable (env : Setting) : Type 0 where
  pub logs : (n : ℕ) (pod : String) → (env.read_log n pod).1 ≡ none
  pub deletes :
      (n : ℕ) (pod : String)
      → (env.delete_namespaced_pod n pod ≡ ok tt)
        ⊎ (env.delete_namespaced_pod n pod ≡ err (api_exception 404))

-- The completion that the pod's end stands for.
pub record Reports (t : Terminated) (cpu mem : String) (r : CompletionResult) : Type 0 where
  pub exit_code : r.exit_code ≡ t.exit_code
  pub cpus : r.cpus ≡ cpu
  pub memory : r.memory ≡ mem
  pub start_time : r.start_time ≡ t.started_at
  pub finish_time : r.finish_time ≡ t.finished_at

append_lines-pod :
    (env : Setting) (pod : String) (lines : List String) (s : Session)
    → (append_lines env pod lines s).pod ≡ s.pod
unfolding append_lines
append_lines-pod env pod [] s = refl
append_lines-pod env pod (line ∷ lines) s = append_lines-pod env pod lines _

module _ (env : Setting) (laws : IsTenacity env.tenacity) (api : IsReliable env) where
  follow_logs-ok :
      (name : String) (s : Session)
      → s.pod ≡ some name
      → (s' : Session) × (follow_logs env s ≡ (ok tt, s')) × (s'.pod ≡ s.pod)
  unfolding follow_logs follow_logs_once
  follow_logs-ok name s e =
      let s1 = record s { calls = suc s.calls } in
      let s2 = append_lines env name (env.read_log s.calls name).0 s1 in
      (
        s2,
        laws.returns (Unit {0}) is_api_error (attempts env.retry_attempts) (follow_logs_once env) s
            s2 tt (rw e (rw (api.logs s.calls name))),
        append_lines-pod env name (env.read_log s.calls name).0 s1,
      )

  delete_pod_name-ok :
      (name : String) (s : Session)
      → (s' : Session) × (delete_pod_name env name s ≡ (ok tt, s'))
        × (s'.completion_result ≡ s.completion_result)
  unfolding delete_pod_name delete_pod_name_once
  delete_pod_name-ok name s =
      let s1 = record s { requested = s.requested ++ name ∷ []; calls = suc s.calls } in
      (
        s1,
        laws.returns (Unit {0}) is_api_error (attempts env.retry_attempts)
            (delete_pod_name_once env name) s s1 tt
            (elim (api.deletes s.calls name) [ inl done ↦ rw done | inr gone ↦ rw gone ]),
        refl,
      )

  quiet_state :
      (pod : Pod) (name : String) (statuses : Option (List State)) (s : Session)
      → IsQuiet statuses
      → pod.container_statuses ≡ statuses
      → s.pod ≡ some name
      → (s' : Session) × (handle_event env pod s ≡ (ok continue, s')) × (s'.pod ≡ some name)
  unfolding handle_event get_first_or_none
  quiet_state pod name none s q e at = (s, rw e, at)
  quiet_state pod name (some []) s q e at = (s, rw e, at)
  quiet_state pod name (some (state ∷ [])) s (inl waiting) e at = (s, rw e (rw waiting), at)
  quiet_state pod name (some (state ∷ [])) s (inr (ready, running)) e at =
      let (s', followed, same) = follow_logs-ok name s at in
      (s', rw e (rw (ready, running) (rw followed)), same ∙ at)
  quiet_state pod name (some (_ ∷ _ ∷ _)) s q e at = absurd q

  handle_completion_lem :
      (t : Terminated) (container : Container) (requests : Dict String) (cpu mem : String)
      (s : Session)
      → container.requests ≡ some requests
      → lookup "cpu" requests ≡ some cpu
      → lookup "memory" requests ≡ some mem
      → (r : CompletionResult) × (handle_completion t (some container) s
          ≡ (ok tt, record s { completion_result = some r }))
        × Reports t cpu mem r
  unfolding handle_completion extract_cpu_memory_requests extract_start_finish_times
  handle_completion_lem t container [] cpu mem s e c m = cc
  handle_completion_lem t container (q ∷ requests) cpu mem s e c m = (
    record {
      exit_code = t.exit_code;
      cpus = cpu;
      memory = mem;
      start_time = t.started_at;
      finish_time = t.finished_at;
      tool_log = s.tool_log;
    },
    rw e (rw (c, m)),
    record { exit_code = refl; cpus = refl; memory = refl; start_time = refl; finish_time = refl },
  )

  remove-result :
      (name : String) (s : Session) → (remove name s).completion_result ≡ s.completion_result
  unfolding remove
  remove-result name s = ground arith

  delete_if_wanted :
      (b : Bool) (name : String) (s : Session)
      → (s' : Session) × ((if b then delete_and_remove env name else pure tt) s ≡ (ok tt, s'))
        × (s'.completion_result ≡ s.completion_result)
  delete_if_wanted false name s = (s, refl, refl)
  delete_if_wanted true name s =
      let (s', deleted, same) = delete_pod_name-ok name s in
      (remove name s', rw deleted, remove-result name s' ∙ same)

  terminated_lem :
      (pod : Pod) (t : Terminated) (cpu mem : String) (s : Session)
      → HasTerminated pod t cpu mem
      → (s' : Session) × (r : CompletionResult) × (handle_event env pod s ≡ (ok stop, s'))
        × (s'.completion_result ≡ some r)
        × Reports t cpu mem r
        × (s'.pod ≡ none)
  unfolding handle_event handle_terminated get_first_or_none clear_pod
  terminated_lem pod t cpu mem s h =
      let (r, completed, reports) =
        handle_completion_lem t h.container h.requests cpu mem s h.requested h.cpu_request
          h.memory_request in
      let (s', deleted, same) =
        delete_if_wanted (should_delete_pod env.delete_pods) pod.name
          (record s { completion_result = some r }) in
      (
        clear_pod s',
        r,
        rw h.statuses (
            rw (h.not_waiting, h.not_running, h.terminated)
              (rw h.containers (rw completed (rw deleted)))),
        same,
        reports,
        refl,
      )

  watch_lem :
      (last : Option Error) (quiet : List Pod) (pod : Pod) (rest : List Pod) (t : Terminated)
      (cpu mem name : String) (s : Session)
      → All (λ p. IsQuiet p.container_statuses) quiet
      → HasTerminated pod t cpu mem
      → s.pod ≡ some name
      → (s' : Session) × (r : CompletionResult) × (watch_events env last (quiet ++ pod ∷ rest) s
          ≡ (ok tt, s'))
        × (s'.completion_result ≡ some r)
        × Reports t cpu mem r
        × (s'.pod ≡ none)
  unfolding watch_events
  watch_lem last [] pod rest t cpu mem name s q h at =
      let (s', r, ended, result, reports, cleared) = terminated_lem pod t cpu mem s h in
      (s', r, rw ended, result, reports, cleared)
  watch_lem last (p ∷ quiet) pod rest t cpu mem name s q h at =
      let (s1, passed, at1) = quiet_state p name p.container_statuses s q.0 refl at in
      let (s', r, ended, result, reports, cleared) =
        watch_lem last quiet pod rest t cpu mem name s1 q.1 h at1 in
      (s', r, rw passed ended, result, reports, cleared)

-- Where the API is reliable, waiting for a pod that the watch shows as terminated returns its
-- completion: the exit code, the requested CPU and memory and the times that the event states. Events
-- before it, in which the pod is not there, waits or runs, and events after it do not matter, and
-- nor does an error that would end the watch later. The client then observes no pod.
pub wait_for_completion-Reports :
    (env : Setting) (quiet : List Pod) (pod : Pod) (rest : List Pod) (t : Terminated)
    (cpu mem name : String) (s : Session)
    → IsTenacity env.tenacity
    → IsReliable env
    → s.pod ≡ some name
    → (env.watch s.calls name).0 ≡ quiet ++ pod ∷ rest
    → All (λ p. IsQuiet p.container_statuses) quiet
    → HasTerminated pod t cpu mem
    → (s' : Session) × (r : CompletionResult) × (wait_for_completion env s ≡ (ok r, s'))
      × Reports t cpu mem r
      × (s'.pod ≡ none)
unfolding wait_for_completion wait_for_completion_once
wait_for_completion-Reports env quiet pod rest t cpu mem name s laws api at events q h =
    let s1 = record s { pod = some name; calls = suc s.calls } in
    let (s', r, ended, result, reports, cleared) =
      watch_lem env laws api (env.watch s.calls name).1 quiet pod rest t cpu mem name s1 q h refl in
    (
      s',
      r,
      laws.returns CompletionResult is_watch_error (attempts env.retry_attempts)
          (wait_for_completion_once env) s s' r (rw at (rw events (rw ended (rw result)))),
      reports,
      cleared,
    )
