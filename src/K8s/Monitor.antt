-- ===== src/K8s/Monitor.antt =====
-- PodMonitor and the calls of KubernetesClient that create and delete pods (calrissian/k8s.py). The
-- class's lock is held over each block below, so a block is one step for other threads.
use Prim.Native.String.{String}
use text.Mathlib.Text.{◌==◌ as str_eq}
use calrissian.Prelude.{
  ℕ, ◌==◌, Bool, true, false, not, Option, none, some, List, [], ◌∷◌, ◌++◌, any, if◌then◌else◌,
}
use calrissian.Text.{Text, codes, lower, eq_text}
use calrissian.K8s.Effects.{
  Error, api_exception, http_error, job_exception, incomplete_status, other, Pod, Session, Result,
  ok, err, Action, pure, throw, called, or_else, modify, ◌>>=◌, ◌>>◌,
}
use calrissian.K8s.Config.{Config, load_config_get_namespace}
use calrissian.Retry.{Tenacity, retry_exponential_if_exception_type}

-- The Kubernetes API and what surrounds the process: a call gets the number of API calls before it.
pub record Api : Type 0 where
  pub create_namespaced_pod : ℕ → String → Result String
  pub delete_namespaced_pod : ℕ → String → Result (Unit {0})
  pub list_namespaced_pod : ℕ → String → Result (List Pod)
  -- The events of a watch, and the exception that ends it, if one does.
  pub watch : ℕ → String → List Pod × Option Error
  -- The lines of a log, decoded and stripped, and the exception that cuts it off, if one does.
  pub read_log : ℕ → String → List String × Option Error
  -- The time, given the calls of the API and the lines of the log so far.
  pub utcnow : ℕ → ℕ → String

-- What the environment variables say, where the client of the clean-up gets its configuration, and
-- the tenacity package.
pub record Setting : Type 1 where
  pub api : Api
  pub open api use *
  pub config : Config
  pub tenacity : Tenacity
  pub retry_attempts : Option ℕ
  pub delete_pods : Option Text
  pub pod_name_variable : Option String

-- The exceptions of the decorators: ApiException and HTTPError, and for one method
-- IncompleteStatusException too.
abbrev pub is_api_error : Error → Bool
is_api_error (api_exception _) = true
is_api_error http_error = true
is_api_error _ = false

abbrev pub is_watch_error : Error → Bool
is_watch_error incomplete_status = true
is_watch_error e = is_api_error e

abbrev pub contains : String → List String → Bool
contains name = any (λ n. str_eq n name)

-- `list.remove`: the first occurrence.
unfoldable pub remove_first : String → List String → List String
remove_first name [] = []
remove_first name (n ∷ names) = if str_eq n name then names else n ∷ remove_first name names

-- PodMonitor.add
unfoldable pub add : String → Session → Session
add name s = record s { pod_names = s.pod_names ++ name ∷ [] }

-- PodMonitor.remove
unfoldable pub remove : String → Session → Session
unfolding remove_first
remove name s =
    if contains name s.pod_names then record s { pod_names = remove_first name s.pod_names } else s

abbrev falses : List Text
falses = codes "false" ∷ codes "no" ∷ codes "0" ∷ []

abbrev or_nothing : Option Text → Text
or_nothing none = []
or_nothing (some t) = t

unfoldable pub should_delete_pod : Option Text → Bool
unfolding lower eq_text
should_delete_pod variable = not (any (eq_text (lower (or_nothing variable))) falses)

unfoldable pub set_pod : String → Action (Unit {0})
set_pod name s = elim s.pod [
  | none ↦ (ok tt, record s { pod = some name })
  | some _ ↦ (err job_exception, s)
]

unfoldable pub clear_pod : Session → Session
clear_pod s = record s { pod = none }

abbrev request : String → Session → Session
request name s = record s { requested = s.requested ++ name ∷ [] }

-- A pod that is not there counts as deleted.
abbrev pub unless_gone : Error → Action (Unit {0})
unless_gone (api_exception status) = if status == 404 then pure tt else throw (api_exception status)
unless_gone e = throw e

module _ (env : Setting) where
  abbrev pub retrying : (Error → Bool) → (A : Type 0) → Action A → Action A
  retrying p A m = retry_exponential_if_exception_type env.tenacity env.retry_attempts A p m

  -- One attempt of `submit_pod`.
  unfoldable pub submit_pod_once : String → Action (Unit {0})
  unfolding add set_pod
  submit_pod_once body = do
    name ← called (λ n. env.create_namespaced_pod n body)
    modify (add name)
    set_pod name

  unfoldable pub submit_pod : String → Action (Unit {0})
  unfolding submit_pod_once
  submit_pod body = retrying is_api_error (Unit {0}) (submit_pod_once body)

  -- One attempt of `delete_pod_name`.
  unfoldable pub delete_pod_name_once : String → Action (Unit {0})
  delete_pod_name_once name s =
      let (result, after) = called (λ n. env.delete_namespaced_pod n name) (request name s) in
      or_else result unless_gone after

  unfoldable pub delete_pod_name : String → Action (Unit {0})
  unfolding delete_pod_name_once
  delete_pod_name name = retrying is_api_error (Unit {0}) (delete_pod_name_once name)

  -- The loop of `PodMonitor.cleanup`. Whatever a deletion raises is ignored.
  unfoldable pub delete_each : List String → Session → Session
  unfolding delete_pod_name
  delete_each [] s = s
  delete_each (name ∷ names) s = delete_each names (delete_pod_name name s).1

  abbrev pub with_client : Option Text → Action (Unit {0}) → Action (Unit {0})
  with_client none m = throw other
  with_client (some namespace) m = m

  -- PodMonitor.cleanup, with the shared list. Making the new client may raise, before the loop.
  unfoldable pub cleanup : Action (Unit {0})
  unfolding delete_each load_config_get_namespace
  cleanup =
      with_client (load_config_get_namespace env.config)
        (modify (λ s. record (delete_each s.pod_names s) { pod_names = [] }))
