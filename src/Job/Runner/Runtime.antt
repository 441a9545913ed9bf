-- ===== src/Job/Runner/Runtime.antt =====
-- What CalrissianCommandLineJob (calrissian/job.py) makes a pod of: its requirements, image,
-- environment and labels, and `create_kubernetes_runtime`.
use calrissian.Prelude.{
  Bool, true, false, ◌&&◌, any, Option, none, some, List, [], ◌∷◌, if◌then◌else◌,
}
use calrissian.Text.{Text, codes, eq_text}
use calrissian.Text.Dict.{TextDict, lookup, insert, update}
use calrissian.Job.Pod.{PodBuilder, quoted_arg_list}
use calrissian.Job.Pod.Build.{Manifest, build, if_filled}
use calrissian.Job.Runner.{
  Job, JobState, RuntimeContext, VolumeCall, job_exception, unsupported_requirement,
  workflow_exception, key_error, yaml_error, Result, returns, raises, Method, pure, raise, or_raise,
  get, modify, ◌>>=◌, ◌>>◌,
}
use calrissian.Job.Runner.Bindings.{
  Files, bind_volume, add_emptydir_volume_and_binding, add_volumes,
}

-- The process of a job: its files, YAML files as the texts that `str` makes of what they map (none
-- where a file does not hold a mapping), its user, quoting for the shell, the image of
-- init containers, the random tag, and `max` of two counts.
pub record Host : Type 0 where
  pub files : Files
  pub open files use *
  pub yaml : Text → Option (List (Text × Text))
  pub uid : Text
  pub gid : Text
  pub should_quote : Text → Bool
  pub quote : Text → Text
  pub init_image : Option Text
  pub tag : Text
  pub max : Text → Text → Text

abbrev pub container_tmpdir : Text
container_tmpdir = codes "/tmp"

abbrev pub docker : Text
docker = codes "DockerRequirement"

abbrev pub cuda : Text
cuda = codes "http://commonwl.org/cwltool#CUDARequirement"

abbrev pub supported_features : List (Text × List Text)
supported_features =
    (docker, codes "class" ∷ codes "dockerPull" ∷ [])
    ∷ (
      cuda,
      codes "class"
          ∷ codes "cudaDeviceCount"
          ∷ codes "cudaDeviceCountMin"
          ∷ codes "cudaDeviceCountMax"
          ∷ codes "cudaVersionMin"
          ∷ codes "cudaComputeCapability"
          ∷ [],
    )
    ∷ []

-- A requirement that is neither None nor empty.
abbrev pub if_any : Option (TextDict Text) → Option (TextDict Text)
if_any none = none
if_any (some []) = none
if_any (some (f ∷ fields)) = some (f ∷ fields)

abbrev pub are_supported : List Text → TextDict Text → Bool
are_supported supported [] = true
are_supported supported ((field, _) ∷ fields) =
    any (eq_text field) supported && are_supported supported fields

abbrev pub feature_is_supported : List Text → Option (TextDict Text) × Bool → Bool
feature_is_supported supported (none, _) = true
feature_is_supported supported (some fields, false) = true
feature_is_supported supported (some fields, true) = are_supported supported fields

abbrev pub features_are_supported : Job → List (Text × List Text) → Bool
features_are_supported job [] = true
features_are_supported job ((feature, supported) ∷ features) =
    feature_is_supported supported (job.get_requirement feature)
    && features_are_supported job features

unfoldable pub check_requirements : Job → Method (Unit {0})
unfolding eq_text
check_requirements job =
    if features_are_supported job supported_features then pure tt else raise unsupported_requirement

-- `container_image` that is neither None nor empty.
abbrev pub image_or_raise : Option Text → Result Text
image_or_raise none = raises job_exception
image_or_raise (some []) = raises job_exception
image_or_raise (some (c ∷ image)) = returns (c ∷ image)

abbrev pub pull_or_raise : Option Text → Result Text
pull_or_raise none = raises key_error
pull_or_raise (some image) = image_or_raise (some image)

abbrev pub image_of : Job → Option (TextDict Text) → Result Text
image_of job none = image_or_raise job.find_default_container
image_of job (some fields) = pull_or_raise (lookup (codes "dockerPull") fields)

unfoldable pub get_container_image : Job → Result Text
unfolding lookup
get_container_image job = image_of job (if_any (job.get_requirement docker).0)

-- The method that does no more than return or raise.
abbrev pub lift : {A : Type 0} → Result A → Method A
lift r s = (r, s)

module _ (host : Host) (ctx : RuntimeContext) where
  abbrev pub read_yaml : Option Text → Method (List (Text × Text))
  read_yaml none = pure []
  read_yaml (some file) = or_raise yaml_error (host.yaml file)

  unfoldable pub get_pod_labels : Method (List (Text × Text))
  get_pod_labels = read_yaml (if_filled ctx.pod_labels)

  unfoldable pub get_pod_nodeselectors : Method (List (Text × Text))
  get_pod_nodeselectors = read_yaml (if_filled ctx.pod_nodeselectors)

  unfoldable pub get_pod_env_vars : Method (List (Text × Text))
  get_pod_env_vars = read_yaml (if_filled ctx.pod_env_vars)

  unfoldable pub get_security_context : TextDict Text
  get_security_context =
      if ctx.no_match_user
      then []
      else (codes "runAsUser", host.uid) ∷ (codes "runAsGroup", host.gid) ∷ []

  abbrev pub set_env : Text → Text → Method (Unit {0})
  set_env k v = modify (λ s. record s { environment = insert k v s.environment })

  unfoldable pub populate_env_vars : Job → Method (Unit {0})
  unfolding get_pod_env_vars insert update
  populate_env_vars job = do
    set_env (codes "HOME") job.builder_outdir
    set_env (codes "TMPDIR") container_tmpdir
    extra ← get_pod_env_vars
    modify (λ s. record s { environment = update extra s.environment })

  abbrev pub set_resource : Text → Text → Method (Unit {0})
  set_resource k v = modify (λ s. record s { resources = insert k v s.resources })

  abbrev pub setup_gpus : Option (TextDict Text) → Option Text → Method (Unit {0})
  setup_gpus none _ = pure tt
  setup_gpus (some fields) none = raise workflow_exception
  setup_gpus (some fields) (some gpus) = do
    least ← or_raise key_error (lookup (codes "cudaDeviceCountMin") fields)
    greatest ← or_raise key_error (lookup (codes "cudaDeviceCountMax") fields)
    set_resource (codes "cudaDeviceCount") (host.max least greatest)
    set_resource (codes "cudaDeviceCountMin") least
    set_resource (codes "cudaDeviceCountMax") greatest

  unfoldable pub setup_kubernetes : Job → Method (Unit {0})
  unfolding lookup insert
  setup_kubernetes job = setup_gpus (if_any (job.get_requirement cuda).0) (if_filled ctx.max_gpus)

  abbrev pub add_generated : Job → Option (Bool → List VolumeCall) → Method (Unit {0})
  add_generated job none = pure tt
  add_generated job (some calls) = add_volumes host.files job (calls job.builder_requires_docker)

  abbrev pub pod_builder :
      Job → Text → List (Text × Text) → List (Text × Text) → JobState → PodBuilder
  pod_builder job image labels nodeselectors s = record {
    name = codes job.name;
    container_image = image;
    environment = s.environment;
    volume_mounts = s.volume_builder.volume_mounts;
    volumes = s.volume_builder.volumes;
    command_line = quoted_arg_list host.should_quote host.quote host.init_image job.command_line;
    stdout = job.stdout;
    stderr = job.stderr;
    stdin = job.stdin;
    resources = s.resources;
    labels = labels;
    nodeselectors = nodeselectors;
    security_context = get_security_context;
    serviceaccount = ctx.pod_serviceaccount;
    requirements = job.requirements;
  }

  -- The volumes of the pod.
  unfoldable pub add_pod_volumes : Job → Method (Unit {0})
  unfolding bind_volume add_emptydir_volume_and_binding add_volumes
  add_pod_volumes job = do
    bind_volume (host.files.realpath job.outdir) job.builder_outdir true
    add_emptydir_volume_and_binding (codes "tmpdir") container_tmpdir
    add_volumes host.files job job.pathmapper
    add_generated job job.generatemapper

  unfoldable pub create_kubernetes_runtime : Job → Method Manifest
  unfolding add_pod_volumes get_container_image get_pod_labels get_pod_nodeselectors build
      get_security_context quoted_arg_list
  create_kubernetes_runtime job = do
    add_pod_volumes job
    image ← lift (get_container_image job)
    labels ← get_pod_labels
    nodeselectors ← get_pod_nodeselectors
    s ← get
    or_raise key_error (
        build host.should_quote host.quote host.init_image host.tag
          (pod_builder job image labels nodeselectors s))
