-- ===== src/K8s/Calls.antt =====
-- How many calls of the cluster's API deleting takes (calrissian/k8s.py).
use Prim.Native.Nat.{max}
use Prim.Native.String.{String}
use calrissian.Prelude.{ℕ, suc, ◌+◌, ◌*◌, ◌≤◌, ◌≡◌, ap, some, List, [], ◌∷◌, length, arith}
use calrissian.Retry.{IsTenacity, attempts}
use calrissian.Retry.Count.{Calls, retry-Calls}
use calrissian.Text.{Text}
use calrissian.K8s.Config.{load_config_get_namespace}
use calrissian.K8s.Effects.{Session}
use calrissian.K8s.Monitor.{
  Setting, is_api_error, delete_pod_name_once, delete_pod_name, delete_each, with_client, cleanup,
}
use calrissian.K8s.Deletion.{handled}

module _ (env : Setting) (laws : IsTenacity env.tenacity) where
  delete_pod_name-Calls :
      (name : String) (s : Session)
      → Calls (attempts env.retry_attempts) s (delete_pod_name env name s).1
  unfolding delete_pod_name delete_pod_name_once
  delete_pod_name-Calls name s =
      retry-Calls env.tenacity laws (Unit {0}) is_api_error (delete_pod_name_once env name)
        (λ t. ap (λ u. u.calls) (handled (env.delete_namespaced_pod t.calls name) _).0)
        (attempts env.retry_attempts) s

  abbrev most : ℕ
  most = max 1 (attempts env.retry_attempts)

  delete_each-calls :
      (names : List String) (s : Session)
      → (s.calls + length names ≤ (delete_each env names s).calls)
        × ((delete_each env names s).calls ≤ s.calls + most * length names)
  unfolding delete_each
  delete_each-calls [] s = (omega arith, omega arith)
  delete_each-calls (name ∷ names) s =
      let here = delete_pod_name-Calls name s in
      let some_call = here.some_call in
      let few = here.few in
      let (low, high) = delete_each-calls names (delete_pod_name env name s).1 in
      let step = grows most (length names) in
      (omega (arith, some_call, low), omega (arith, few, high, step))
    where
      grows : (u k : ℕ) → u * suc k ≡ u + u * k
      grows u k = omega arith

-- Where its client can be made, cleaning up takes at least one call of the API for each pod that
-- is listed, and at most as many for each as there are attempts, where the number of attempts
-- counts as one if it is zero. That holds where the laws of tenacity do.
pub cleanup-calls :
    (env : Setting) (s : Session) (namespace : Text)
    → IsTenacity env.tenacity
    → load_config_get_namespace env.config ≡ some namespace
    → (s.calls + length s.pod_names ≤ (cleanup env s).1.calls)
      × ((cleanup env s).1.calls
          ≤ s.calls + max 1 (attempts env.retry_attempts) * length s.pod_names)
unfolding cleanup
cleanup-calls env s namespace laws e =
    rw (e, with_client) (delete_each-calls env laws s.pod_names s)
