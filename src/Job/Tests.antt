-- ===== src/Job/Tests.antt =====
-- Volumes and the manifest of a pod on small inputs (calrissian/job.py), and the theorems at inputs that meet
-- their hypotheses.
use calrissian.Prelude.{◌≡◌, refl, true, false, none, some, [], ◌∷◌, ◌++◌, All, ◌↔◌}
use calrissian.Text.{Text, codes, starts_with}
use calrissian.Text.Dict.{insert}
use calrissian.Job.Volumes.{
  persistent_volume_claim, bind, Entry, VolumeBuilder, new_builder, add_persistent_volume_entry,
  slashed, add_volume_binding,
}
use calrissian.Job.Volumes.Invariant.{IsValid}
use calrissian.Job.Pod.{PodBuilder, Requirement, k8s_safe_name, pod_name, container_args, dirname}
use calrissian.Job.Pod.Resources.{container_resources}
use calrissian.Job.Pod.Build.{container_environment}
use calrissian.Job.Pod.Names.{
  IsLabel, starts_alphanumeric, ends_alphanumeric, k8s_safe_name-IsLabel, pod_name-IsLabel,
}
use calrissian.Text.{lower, join}
use calrissian.Job.Volumes.Reach.{Reach, start, next, entry, Reach-IsValid}
use calrissian.Job.Volumes.Paths.{
  IsFirst, add_volume_binding_below, add_volume_binding_raises, add_volume_binding_sibling,
}

abbrev pv : Entry
pv = record {
  prefix = codes "/data";
  sub_path = some (codes "sub");
  volume = persistent_volume_claim (codes "claim") (codes "claim") true;
}

abbrev builder : VolumeBuilder
builder = record {
  persistent_volume_entries = (codes "/data", pv) ∷ [];
  emptydir_volume_names = [];
  volume_mounts = [];
  volumes = persistent_volume_claim (codes "claim") (codes "claim") true ∷ [];
}

builder-Reach : Reach builder
unfolding new_builder add_persistent_volume_entry insert
builder-Reach = next start (entry (codes "/data") (some (codes "sub")) (codes "claim") true refl)

Reach-IsValid_example : IsValid builder
Reach-IsValid_example = Reach-IsValid builder builder-Reach

abbrev bound : Text → VolumeBuilder
bound path = record builder { volume_mounts = bind (codes "claim") (codes "/in") path true ∷ [] }

data-IsFirst :
    IsFirst
      (slashed (codes "/data") ++ codes "x/y")
      builder.persistent_volume_entries
      (codes "/data")
      pv
unfolding slashed starts_with
data-IsFirst = record { before = []; after = []; split = refl; starts = refl; others = tt }

add_volume_binding_below_example :
    add_volume_binding (slashed (codes "/data") ++ codes "x/y") (codes "/in") false builder
    ≡ some (bound (codes "sub/x/y"))
add_volume_binding_below_example =
    add_volume_binding_below builder (codes "/data") (codes "x/y") (codes "/in") false pv
      data-IsFirst refl

add_volume_binding_raises_example :
    (add_volume_binding (codes "/home/x") (codes "/in") false builder ≡ none)
    ↔ All (λ e. starts_with e.0 (codes "/home/x") ≡ false) builder.persistent_volume_entries
add_volume_binding_raises_example =
    add_volume_binding_raises builder (codes "/home/x") (codes "/in") false

add_volume_binding_sibling_example :
    add_volume_binding (codes "/data" ++ b'2' ∷ codes "/x") (codes "/in") false builder
    ≡ some (bound (codes "sub//x"))
unfolding slashed
add_volume_binding_sibling_example =
    add_volume_binding_sibling builder (codes "/data") (codes "/x") (codes "/in") b'2' false pv refl
      refl (λ e. cc) refl

-- The builder of a pod for a job named "_tool", which redirects its output.
abbrev pod_builder : PodBuilder
pod_builder = record {
  name = codes "_tool";
  container_image = codes "alpine";
  environment = (codes "HOME", codes "/out") ∷ (codes "A", codes "b") ∷ [];
  volume_mounts = [];
  volumes = [];
  command_line = codes "echo" ∷ codes "hi" ∷ [];
  stdout = some (codes "logs//out.txt");
  stderr = none;
  stdin = none;
  resources = (codes "cores", codes "1") ∷ (codes "ram", codes "64") ∷ (codes "x", codes "y") ∷ [];
  labels = [];
  nodeselectors = [];
  security_context = [];
  serviceaccount = some [];
  requirements = [];
}

k8s_safe_name-IsLabel_example :
    IsLabel (k8s_safe_name (codes "Step_1.cwl"))
    ↔ (starts_alphanumeric (lower (codes "Step_1.cwl")) ≡ true)
      × (ends_alphanumeric (lower (codes "Step_1.cwl")) ≡ true)
k8s_safe_name-IsLabel_example = k8s_safe_name-IsLabel (codes "Step_1.cwl")

pod_name-IsLabel_example :
    IsLabel (pod_name (codes "qwertyui") pod_builder)
    ↔ (starts_alphanumeric (lower (codes "_tool")) ≡ true)
pod_name-IsLabel_example =
    pod_name-IsLabel (codes "qwertyui") pod_builder
      ((λ e. cc), (refl, (refl, (refl, (refl, (refl, (refl, (refl, (refl, tt)))))))))

names : Unit {0}
unfolding k8s_safe_name lower container_args join
names = tt

safe_name : k8s_safe_name (codes "Step_1.cwl") ≡ codes "step-1-cwl"
unfolding names
safe_name = refl

args : container_args pod_builder ≡ codes "echo hi > logs//out.txt" ∷ []
unfolding names
args = refl

dirname_values :
    (dirname (codes "logs//out.txt") ≡ codes "logs")
    × (dirname (codes "//x") ≡ codes "//")
    × (dirname (codes "x") ≡ [])
unfolding dirname
dirname_values = (refl, refl, refl)

resources_value :
    container_resources pod_builder
    ≡ some ((codes "requests", (codes "cpu", codes "1") ∷ (codes "memory", codes "64Mi") ∷ []) ∷ [])
unfolding container_resources
resources_value = refl

environment_value :
    container_environment pod_builder ≡ (codes "A", codes "b") ∷ (codes "HOME", codes "/out") ∷ []
unfolding container_environment
environment_value = refl

abbrev cuda : Requirement
cuda = record {
  class_name = codes "cwltool:CUDARequirement";
  device_count_min = some (codes "1");
  device_count_max = some (codes "2");
}

abbrev gpu_builder : PodBuilder
gpu_builder = record pod_builder { requirements = cuda ∷ [] }

lacks_count :
    container_resources
      (record gpu_builder { requirements = record cuda { device_count_max = none } ∷ [] })
    ≡ none
unfolding container_resources
lacks_count = refl
