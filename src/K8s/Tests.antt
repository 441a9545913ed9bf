-- ===== src/K8s/Tests.antt =====
-- A client on a small cluster (calrissian/k8s.py), and the theorems at inputs that meet their
-- hypotheses.
use Prim.Native.Nat.{max}
use calrissian.Prelude.{
  ◌+◌, ◌*◌, ◌≤◌, length, ◌≡◌, refl, true, false, none, some, List, [], ◌∷◌, inl, inr, ◌⊎◌, ◌≢◌,
  ◌==◌, if◌then◌else◌,
}
use calrissian.Text.{codes}
use calrissian.Retry.Bounded.{bounded, bounded-IsTenacity}
use calrissian.K8s.Effects.{
  Terminated, State, Container, Pod, CompletionResult, Session, ok, err, http_error, api_exception,
}
use calrissian.K8s.Monitor.{Api, Setting, should_delete_pod, submit_pod, cleanup}
use calrissian.K8s.Client.{wait_for_completion}
use calrissian.K8s.Submission.{Submitted, submit_pod-Submitted}
use calrissian.K8s.Deletion.{IsRefused, IsCleaned, cleanup-requests}
use calrissian.K8s.Config.{Config, loads, config_exception, load_config_get_namespace}
use calrissian.K8s.Calls.{cleanup-calls}
use calrissian.K8s.Completion.{HasTerminated, IsReliable, Reports, wait_for_completion-Reports}

should_delete_pod_cases :
    (should_delete_pod none ≡ true)
    × (should_delete_pod (some (codes "No")) ≡ false)
    × (should_delete_pod (some (codes "false ")) ≡ true)
unfolding should_delete_pod
should_delete_pod_cases = (refl, refl, refl)

abbrev at_end : Terminated
at_end = record { exit_code = 3; started_at = 10; finished_at = 20 }

abbrev container : Container
container = record { requests = some (("memory", "1Mi") ∷ ("cpu", "2") ∷ []) }

abbrev running : State
running = record { running = true; waiting = false; terminated = none }

abbrev terminated : State
terminated = record { running = false; waiting = false; terminated = some at_end }

abbrev seen : List State → Pod
seen states = record { name = "pod"; container_statuses = some states; containers = container ∷ [] }

abbrev api : Api
api = record {
  create_namespaced_pod = λ _ name. ok name;
  delete_namespaced_pod = λ _ _. ok tt;
  list_namespaced_pod = λ _ _. ok [];
  watch = λ _ _. (seen [] ∷ seen (running ∷ []) ∷ seen (terminated ∷ []) ∷ [], some http_error);
  read_log = λ _ _. ("line" ∷ [], none);
  utcnow = λ _ _. "now";
}

abbrev in_cluster : Config
in_cluster = record {
  load_incluster_config = loads;
  load_kube_config = loads;
  namespace_file = some (codes "flow");
}

abbrev env : Setting
env = record {
  api = api;
  config = in_cluster;
  tenacity = bounded;
  retry_attempts = some 3;
  delete_pods = none;
  pod_name_variable = some "self";
}

abbrev session : Session
session = record {
  pod = some "pod";
  completion_result = none;
  tool_log = [];
  pod_names = "other" ∷ "pod" ∷ [];
  requested = [];
  calls = 0;
}

cleanup-requests_example :
    IsRefused env session (cleanup env session)
    ⊎ ((load_config_get_namespace in_cluster ≢ none) × IsCleaned session (cleanup env session))
cleanup-requests_example = cleanup-requests env session bounded-IsTenacity

env-IsReliable : IsReliable env
env-IsReliable = record { logs = λ _ _. refl; deletes = λ _ _. inl refl }

pod-HasTerminated : HasTerminated (seen (terminated ∷ [])) at_end "2" "1Mi"
pod-HasTerminated = record {
  state = terminated;
  container = container;
  requests = ("memory", "1Mi") ∷ ("cpu", "2") ∷ [];
  statuses = refl;
  not_waiting = refl;
  not_running = refl;
  terminated = refl;
  containers = refl;
  requested = refl;
  cpu_request = refl;
  memory_request = refl;
}

wait_for_completion-Reports_example :
    (s' : Session) × (r : CompletionResult) × (wait_for_completion env session ≡ (ok r, s'))
    × Reports at_end "2" "1Mi" r
    × (s'.pod ≡ none)
wait_for_completion-Reports_example =
    wait_for_completion-Reports env (seen [] ∷ seen (running ∷ []) ∷ []) (seen (terminated ∷ [])) []
      at_end "2" "1Mi" "pod" session bounded-IsTenacity env-IsReliable refl refl
      (tt, (inr (refl, refl), tt)) pod-HasTerminated

-- The first call fails, and is tried again.
abbrev flaky : Setting
flaky = record env {
  api = record api {
    create_namespaced_pod = λ n name. if n == 0 then err (api_exception 500) else ok name;
  };
}

abbrev idle : Session
idle = record session { pod = none }

submit_pod-Submitted_example :
    Submitted idle (submit_pod flaky "new" idle).0 (submit_pod flaky "new" idle).1
submit_pod-Submitted_example = submit_pod-Submitted flaky "new" idle bounded-IsTenacity refl

submit_value :
    ((submit_pod flaky "new" idle).0 ≡ ok tt)
    × ((submit_pod flaky "new" idle).1.pod_names ≡ "other" ∷ "pod" ∷ "new" ∷ [])
unfolding submit_pod bounded
submit_value = (refl, refl)

cleanup-calls_example :
    (session.calls + length session.pod_names ≤ (cleanup env session).1.calls)
    × ((cleanup env session).1.calls ≤ session.calls + max 1 3 * length session.pod_names)
unfolding load_config_get_namespace
cleanup-calls_example = cleanup-calls env session (codes "flow") bounded-IsTenacity refl

namespaces :
    (load_config_get_namespace (record {
      load_incluster_config = config_exception;
      load_kube_config = loads;
      namespace_file = some (codes "flow");
    })
      ≡ some (codes "default"))
    × (load_config_get_namespace (record {
      load_incluster_config = loads;
      load_kube_config = loads;
      namespace_file = some (codes "flow");
    })
        ≡ some (codes "flow"))
unfolding load_config_get_namespace
namespaces = (refl, refl)
