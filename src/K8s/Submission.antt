-- ===== src/K8s/Submission.antt =====
-- Submitting a pod (calrissian/k8s.py): `submit_pod`.
use Prim.Native.String.{String}
use calrissian.Prelude.{◌≡◌, refl, suc, ap, ◌⊎◌, inl, inr, none, some, [], ◌∷◌, ◌++◌}
use calrissian.Retry.{IsTenacity, attempts}
use calrissian.Retry.Rule.{retry_rule}
use calrissian.K8s.Effects.{Error, Session, Result, ok, err, and_then}
use calrissian.K8s.Monitor.{Setting, is_api_error, add, set_pod, submit_pod_once, submit_pod}

-- A client that observes nothing yet, with the list of pods of an earlier state.
abbrev IsFree : Session → Session → Type 0
IsFree s t = (t.pod ≡ none) × (t.pod_names ≡ s.pod_names)

-- One pod is submitted, observed and listed, or none is.
abbrev pub Submitted : Session → Result (Unit {0}) → Session → Type 0
Submitted s r s' =
    ((name : String) × (r ≡ ok tt)
      × (s'.pod ≡ some name)
      × (s'.pod_names ≡ s.pod_names ++ name ∷ []))
    ⊎ ((e : Error) × (r ≡ err e) × (s'.pod ≡ none) × (s'.pod_names ≡ s.pod_names))

module _ (env : Setting) (body : String) (s : Session) where
  -- What follows the call of the API.
  abbrev created : Result String → Session → Result (Unit {0}) × Session
  created r t = and_then r (λ name t. set_pod name (add name t)) t

  created_lem :
      (r : Result String) (t : Session)
      → IsFree s t
      → Submitted s (created r t).0 (created r t).1
        × ((e : Error) → (created r t).0 ≡ err e → IsFree s (created r t).1)
  unfolding add set_pod
  created_lem (ok name) t h =
      rw h.0 (inl (name, refl, refl, ap (λ names. names ++ name ∷ []) h.1), λ e k. cc)
  created_lem (err x) t h = (inr (x, refl, h.0, h.1), λ e k. h)

-- However often it is tried, a submission by a client that observes no pod ends with one new pod that
-- the client observes and PodMonitor lists, or with an exception and nothing new in either place.
pub submit_pod-Submitted :
    (env : Setting) (body : String) (s : Session)
    → IsTenacity env.tenacity
    → s.pod ≡ none
    → let (r, s') = submit_pod env body s in Submitted s r s'
unfolding submit_pod submit_pod_once
submit_pod-Submitted env body s laws free =
    retry_rule env.tenacity laws (Unit {0}) is_api_error (submit_pod_once env body) (IsFree s)
      (Submitted s)
      (λ t h.
        let (done, again) =
          created_lem env body s (env.create_namespaced_pod t.calls body)
            (record t { calls = suc t.calls }) h in
        (done, λ e failed _. again e failed))
      (attempts env.retry_attempts) s (free, refl)
