-- ===== src/K8s/Effects.antt =====
-- The data of calrissian/k8s.py: the parts of the Kubernetes objects that it reads, the state of a
-- KubernetesClient with the list of PodMonitor, and calls that may raise.
use Prim.Native.String.{String}
use calrissian.Prelude.{ℕ, suc, Bool, Option, List}
use calrissian.Dict.{Dict}

-- V1ContainerStateTerminated. Times are only passed on.
pub record Terminated : Type 0 where
  pub exit_code : ℕ
  pub started_at : ℕ
  pub finished_at : ℕ

-- V1ContainerState. Of `running` and `waiting` the code tests only whether they are there.
pub record State : Type 0 where
  pub running : Bool
  pub waiting : Bool
  pub terminated : Option Terminated

-- V1Container: its resource requests, if any.
pub record Container : Type 0 where
  pub requests : Option (Dict String)

-- V1Pod: the name, the states of its containers (None before there are any), and the containers.
pub record Pod : Type 0 where
  pub name : String
  pub container_statuses : Option (List State)
  pub containers : List Container

pub record LogEntry : Type 0 where
  pub timestamp : String
  pub pod : String
  pub entry : String

pub record CompletionResult : Type 0 where
  pub exit_code : ℕ
  pub cpus : String
  pub memory : String
  pub start_time : ℕ
  pub finish_time : ℕ
  pub tool_log : List LogEntry

-- The exceptions that the code tells apart. An ApiException has an HTTP status.
pub data Error : Type 0 where
  api_exception : ℕ → Error
  http_error incomplete_status job_exception key_error attribute_error other : Error

-- The fields of a client, the class's list of pod names, the names whose deletion was requested, and
-- the number of calls of the Kubernetes API so far.
pub record Session : Type 0 where
  pub pod : Option String
  pub completion_result : Option CompletionResult
  pub tool_log : List LogEntry
  pub pod_names : List String
  pub requested : List String
  pub calls : ℕ

pub data Result (A : Type 0) : Type 0 where
  ok : A → Result A
  err : Error → Result A

abbrev pub Action : Type 0 → Type 0
Action A = Session → Result A × Session

module _ {A : Type 0} where
  abbrev pub pure : A → Action A
  pure a s = (ok a, s)

  abbrev pub throw : Error → Action A
  throw e s = (err e, s)

  -- The result of a call of the API, which counts.
  abbrev pub called : (ℕ → Result A) → Action A
  called api s = (api s.calls, record s { calls = suc s.calls })

  abbrev pub lift : Result A → Action A
  lift r s = (r, s)

  -- `except` with a handler that sees the exception.
  abbrev pub or_else : Result A → (Error → Action A) → Action A
  or_else (ok a) f s = (ok a, s)
  or_else (err e) f s = f e s

abbrev pub get : Action Session
get s = (ok s, s)

abbrev pub modify : (Session → Session) → Action (Unit {0})
modify f s = (ok tt, f s)

module _ {A B : Type 0} where
  abbrev pub and_then : Result A → (A → Action B) → Action B
  and_then (ok a) f s = f a s
  and_then (err e) f s = (err e, s)

  infixl 5 ◌>>=◌ ◌>>◌
  abbrev pub ◌>>=◌ : Action A → (A → Action B) → Action B
  m >>= f = λ s. let (result, after) = m s in and_then result f after

  abbrev pub ◌>>◌ : Action A → Action B → Action B
  m >> n = m >>= λ _. n
