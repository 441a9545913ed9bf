-- ===== src/K8s/Deletion.antt =====
-- Deleting pods (calrissian/k8s.py): `delete_pod_name` and `PodMonitor.cleanup`.
use Prim.Native.String.{String}
use mathlib.Core.List.{Mem, mem-append_left, mem-append_right, mem-cons_self}
use calrissian.Prelude.{
  ◌==◌, ◌≡◌, refl, ◌∙◌, ◌≢◌, Bool-cases, Option-cases, none, ◌⊎◌, List, [], ◌∷◌, inl, inr, arith,
  All,
}
use calrissian.Retry.{IsTenacity, attempts}
use calrissian.Retry.Rule.{retry_rule}
use calrissian.K8s.Config.{load_config_get_namespace}
use calrissian.K8s.Effects.{Error, api_exception, other, Session, Result, ok, err, or_else}
use calrissian.K8s.Monitor.{
  Setting, is_api_error, unless_gone, delete_pod_name_once, delete_pod_name, delete_each,
  with_client, cleanup,
}

-- How the deletion of a pod ends: never with a 404.
abbrev pub NotGone : Result (Unit {0}) → Type 0
NotGone (ok _) = Unit
NotGone (err e) = e ≢ api_exception 404

-- What a deletion leaves alone: earlier requests stay, and so does all else but the count of calls.
pub record Keeps (s s' : Session) : Type 0 where
  pub requested : (n : String) → Mem n s.requested → Mem n s'.requested
  pub names : s'.pod_names ≡ s.pod_names
  pub pod : s'.pod ≡ s.pod
  pub result : s'.completion_result ≡ s.completion_result
  pub log : s'.tool_log ≡ s.tool_log

pub Keeps-refl : (s : Session) → Keeps s s
Keeps-refl s = record { requested = λ n m. m; names = refl; pod = refl; result = refl; log = refl }

pub Keeps-trans : (s t u : Session) → Keeps s t → Keeps t u → Keeps s u
Keeps-trans s t u h k = record {
  requested = λ n m. k.requested n (h.requested n m);
  names = k.names ∙ h.names;
  pod = k.pod ∙ h.pod;
  result = k.result ∙ h.result;
  log = k.log ∙ h.log;
}

unless_gone-NotGone : (e : Error) (s : Session) → NotGone (unless_gone e s).0
unless_gone-NotGone (api_exception status) s = elim (Bool-cases (status == 404)) [
  | inl gone ↦ rw (gone, NotGone) tt
  | inr there ↦ rw (there, NotGone) (λ h. ground arith)
]
unless_gone-NotGone _ s = λ h. cc

unless_gone-state : (e : Error) (s : Session) → (unless_gone e s).1 ≡ s
unless_gone-state (api_exception status) s = elim (Bool-cases (status == 404)) [
  | inl gone ↦ rw gone
  | inr there ↦ rw there
]
unless_gone-state _ s = refl

pub handled :
    (r : Result (Unit {0})) (s : Session)
    → ((or_else r unless_gone s).1 ≡ s) × NotGone (or_else r unless_gone s).0
handled (ok _) s = (refl, tt)
handled (err e) s = (unless_gone-state e s, unless_gone-NotGone e s)

module _ (env : Setting) (name : String) where
  requested_once :
      (s : Session)
      → let s' = (delete_pod_name_once env name s).1 in Mem name s'.requested × Keeps s s'
  unfolding delete_pod_name_once
  requested_once s = rw (handled (env.delete_namespaced_pod s.calls name) _).0 (
    mem-append_right s.requested mem-cons_self,
    record {
      requested = λ n m. mem-append_left (name ∷ []) m;
      names = refl;
      pod = refl;
      result = refl;
      log = refl;
    },
  )

  NotGone-once : (s : Session) → NotGone (delete_pod_name_once env name s).0
  unfolding delete_pod_name_once
  NotGone-once s = (handled (env.delete_namespaced_pod s.calls name) _).1

  pub delete_pod_name-requests :
      (s : Session)
      → IsTenacity env.tenacity
      → let (r, s') = delete_pod_name env name s in Mem name s'.requested × Keeps s s' × NotGone r
  unfolding delete_pod_name
  delete_pod_name-requests s laws =
      retry_rule env.tenacity laws (Unit {0}) is_api_error (delete_pod_name_once env name) (Keeps s)
        (λ r s'. Mem name s'.requested × Keeps s s' × NotGone r)
        (λ t kept.
          let (here, more) = requested_once t in
          let all = Keeps-trans s t _ kept more in ((here, all, NotGone-once t), λ _ _ _. all))
        (attempts env.retry_attempts) s (Keeps-refl s)

module _ (env : Setting) (laws : IsTenacity env.tenacity) where
  delete_each-requests :
      (names : List String) (s : Session)
      → Keeps s (delete_each env names s)
        × All (λ name. Mem name (delete_each env names s).requested) names
  unfolding delete_each
  delete_each-requests [] s = (Keeps-refl s, tt)
  delete_each-requests (name ∷ names) s =
      let (here, kept, _) = delete_pod_name-requests env name s laws in
      let (kept', all) = delete_each-requests names (delete_pod_name env name s).1 in
      (Keeps-trans s _ _ kept kept', (kept'.requested name here, all))

-- A clean-up that raises: its client could not be made, and nothing has changed.
pub record IsRefused (env : Setting) (before : Session) (after : Result (Unit {0}) × Session)
    : Type 0 where
  pub config : load_config_get_namespace env.config ≡ none
  pub raised : after.0 ≡ err other
  pub same : after.1 ≡ before

-- A clean-up that returns: every pod that was listed is requested to be deleted, and none is listed.
pub record IsCleaned (before : Session) (after : Result (Unit {0}) × Session) : Type 0 where
  pub returned : after.0 ≡ ok tt
  pub names : after.1.pod_names ≡ []
  pub requested : All (λ name. Mem name after.1.requested) before.pod_names

-- Cleaning up raises exactly if the configuration of its client cannot be loaded, and then changes
-- nothing: no pod is deleted and the list stays. Otherwise it requests the deletion of every pod
-- that is still listed, whether or not earlier deletions fail and whatever CALRISSIAN_DELETE_PODS
-- says, leaves the list empty, and returns. That holds where the laws of tenacity do.
pub cleanup-requests :
    (env : Setting) (s : Session)
    → IsTenacity env.tenacity
    → IsRefused env s (cleanup env s)
      ⊎ ((load_config_get_namespace env.config ≢ none) × IsCleaned s (cleanup env s))
unfolding cleanup
cleanup-requests env s laws = elim (Option-cases (load_config_get_namespace env.config)) [
  | inl e ↦
      inl
        (record { config = e; raised = rw (e, with_client) refl; same = rw (e, with_client) refl })
  | inr (namespace, e) ↦ inr (
    (λ h. cc),
    record {
      returned = rw (e, with_client) refl;
      names = rw (e, with_client) refl;
      requested = rw (e, with_client) ((delete_each-requests env laws s.pod_names s).1);
    },
  )
]
