-- ===== src/Job/Runner.antt =====
-- The state of a CalrissianCommandLineJob (calrissian/job.py), what surrounds it, and calls of its
-- methods, which may raise.
pub mod Bindings
pub mod Runtime
pub mod Run
pub mod Keeps
pub mod Frame
pub mod Mounts
pub mod Outcome
pub mod Total
pub mod Protects
pub mod Environment
mod Sample
mod Tests
use Prim.Native.String.{String}
use calrissian.Prelude.{
  ℕ, Bool, true, false, Option, none, some, List, [], ◌∷◌, ◌++◌, if◌then◌else◌,
}
use calrissian.Text.{Text}
use calrissian.Text.Dict.{TextDict}
use calrissian.K8s.Effects.{Session, LogEntry, Action, ok, err}
use calrissian.K8s.Effects as Client
use calrissian.Report.{TimelineReport}
use calrissian.Job.Volumes.{VolumeBuilder}
use calrissian.Job.Pod.{Requirement}

-- What a job asks of the file system. Times of making are counted, so that names can be made.
pub data FileOp : Type 0 where
  make_dirs : (path : Text) → FileOp
  make_temp : (path : Text) → FileOp
  copy copy_tree : (source destination : Text) → FileOp
  make_writable : (path : Text) → FileOp
  write_lines : (path : Text) → (lines : List LogEntry) → FileOp
  remove_tree : (path : Text) → FileOp

-- The statuses of a CWL step.
pub data Status : Type 0 where
  success temporary_fail permanent_fail : Status

pub data Error : Type 0 where
  volume_builder_exception job_exception workflow_exception unsupported_requirement : Error
  key_error value_error attribute_error os_error yaml_error base_error : Error
  -- What the Kubernetes client raises.
  client_error : Client.Error → Error

-- A volume of the path mapper of cwltool.
pub record MapperEnt : Type 0 where
  pub resolved : Text
  pub target : Text

-- The calls that `add_volumes` of cwltool makes, in its order; `refusal` is that it raises itself.
pub data VolumeCall : Type 0 where
  file_or_directory : MapperEnt → (host_outdir_tgt : Option Text) → VolumeCall
  writable_file : MapperEnt → (host_outdir_tgt : Option Text) → VolumeCall
  writable_directory : MapperEnt → (host_outdir_tgt : Option Text) → VolumeCall
  appended : (source target : Text) → (writable : Bool) → VolumeCall
  refusal : VolumeCall

-- The outputs that cwltool collects, of which the code sees the sizes of the dicts of class File.
pub record Outputs : Type 0 where
  pub name : String
  pub sizes : List (Option ℕ)

-- What the job is made with by cwltool. A requirement is its fields, and whether it is required.
pub record Job : Type 0 where
  pub name : String
  pub outdir : Text
  pub tmpdir : Text
  pub stagedir : Option Text
  pub builder_outdir : Text
  pub command_line : List Text
  pub stdout : Option Text
  pub stderr : Option Text
  pub stdin : Option Text
  pub success_codes : List ℕ
  pub temporary_fail_codes : List ℕ
  pub permanent_fail_codes : List ℕ
  pub inplace_update : Bool
  pub get_requirement : Text → Option (TextDict Text) × Bool
  -- `builder.get_requirement('DockerRequirement')[1] or False`
  pub builder_requires_docker : Bool
  pub find_default_container : Option Text
  pub requirements : List Requirement
  pub pathmapper : List VolumeCall
  -- With `any_path_okay`; None where there is no generate mapper.
  pub generatemapper : Option (Bool → List VolumeCall)

pub record RuntimeContext : Type 0 where
  pub pod_labels : Option Text
  pub pod_nodeselectors : Option Text
  pub pod_env_vars : Option Text
  pub pod_serviceaccount : Option Text
  pub no_match_user : Bool
  pub max_gpus : Option Text
  pub tool_logs_basepath : Option Text
  pub rm_tmpdir : Bool

-- The fields of a job that change, the reporter, what the job has done to the file system, and what
-- its output callback was called with.
pub record JobState : Type 0 where
  pub session : Session
  pub volume_builder : VolumeBuilder
  pub environment : TextDict Text
  pub resources : TextDict Text
  pub files : List FileOp
  pub reporter : Option TimelineReport
  pub callbacks : List (Outputs × Status)

pub data Result (A : Type 0) : Type 0 where
  returns : A → Result A
  raises : Error → Result A

abbrev pub Method : Type 0 → Type 0
Method A = JobState → Result A × JobState

module _ {A : Type 0} where
  abbrev pub pure : A → Method A
  pure a s = (returns a, s)

  abbrev pub raise : Error → Method A
  raise e s = (raises e, s)

  -- A value, or else the exception.
  abbrev pub or_raise : Error → Option A → Method A
  or_raise e none s = (raises e, s)
  or_raise e (some a) s = (returns a, s)

  abbrev pub from_client : Client.Result A → Result A
  from_client (ok a) = returns a
  from_client (err e) = raises (client_error e)

  -- A method of the Kubernetes client.
  abbrev pub on_client : Action A → Method A
  on_client m s =
      let (result, session) = m s.session in (from_client result, record s { session = session })

abbrev pub get : Method JobState
get s = (returns s, s)

abbrev pub modify : (JobState → JobState) → Method (Unit {0})
modify f s = (returns tt, f s)

module _ {A B : Type 0} where
  abbrev pub and_then : Result A → (A → Method B) → Method B
  and_then (returns a) f s = f a s
  and_then (raises e) f s = (raises e, s)

  infixl 5 ◌>>=◌ ◌>>◌
  abbrev pub ◌>>=◌ : Method A → (A → Method B) → Method B
  m >>= f = λ s. let (result, after) = m s in and_then result f after

  abbrev pub ◌>>◌ : Method A → Method B → Method B
  m >> n = m >>= λ _. n

-- Nothing, or a method that is called.
abbrev pub whenever : Bool → Method (Unit {0}) → Method (Unit {0})
whenever b m = if b then m else pure tt
