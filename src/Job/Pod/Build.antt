-- ===== src/Job/Pod/Build.antt =====
-- KubernetesPodBuilder.build (calrissian/job.py), with the environment and the labels of a pod.
use calrissian.Prelude.{Bool, true, false, ◌&&◌, ◌||◌, ltb, ◌==◌, Option, none, some, List, [], ◌∷◌}
use calrissian.Sort.{sorted}
use calrissian.Text.{Text}
use calrissian.Text.Dict.{TextDict, insert}
use calrissian.Job.Volumes.{Volume, Mount}
use calrissian.Job.Pod.{
  PodBuilder, InitContainer, pod_name, container_name, container_command, container_args,
  container_workingdir, init_containers,
}
use calrissian.Job.Pod.Resources.{Bounds, container_resources}

-- The order of texts, by their code points.
unfoldable pub le_text : Text → Text → Bool
le_text [] t = true
le_text (_ ∷ _) [] = false
le_text (c ∷ s) (d ∷ t) = ltb c d || (c == d && le_text s t)

-- `sorted(self.environment.items())`; a name occurs once.
unfoldable pub container_environment : PodBuilder → List (Text × Text)
unfolding sorted le_text
container_environment b = sorted (λ x y. le_text x.0 y.0) b.environment

-- The dict of the pairs, which are texts already.
unfoldable pub to_strings : List (Text × Text) → TextDict Text → TextDict Text
unfolding insert
to_strings [] d = d
to_strings ((k, v) ∷ pairs) d = to_strings pairs (insert k v d)

unfoldable pub pod_labels : PodBuilder → TextDict Text
unfolding to_strings
pod_labels b = to_strings b.labels []

unfoldable pub pod_nodeselectors : PodBuilder → TextDict Text
unfolding to_strings
pod_nodeselectors b = to_strings b.nodeselectors []

pub record PodContainer : Type 0 where
  pub name : Text
  pub image : Text
  pub command : List Text
  pub args : List Text
  pub env : List (Text × Text)
  pub resources : Bounds
  pub volume_mounts : List Mount
  pub working_dir : Text

-- `apiVersion` is v1, `kind` is Pod and `restartPolicy` is Never in every manifest.
pub record Manifest : Type 0 where
  pub name : Text
  pub labels : TextDict Text
  pub init_containers : List InitContainer
  pub container : PodContainer
  pub volumes : List Volume
  pub security_context : TextDict Text
  pub node_selector : TextDict Text
  pub service_account_name : Option Text

abbrev pub if_filled : Option Text → Option Text
if_filled none = none
if_filled (some []) = none
if_filled (some (c ∷ name)) = some (c ∷ name)

abbrev pub manifest :
    Text → PodBuilder → Option (List InitContainer) → Option Bounds → Option Text → Option Manifest
manifest tag b none _ _ = none
manifest tag b (some inits) none _ = none
manifest tag b (some inits) (some bounds) none = none
manifest tag b (some inits) (some bounds) (some home) = some (record {
  name = pod_name tag b;
  labels = pod_labels b;
  init_containers = inits;
  container = record {
    name = container_name b;
    image = b.container_image;
    command = container_command;
    args = container_args b;
    env = container_environment b;
    resources = bounds;
    volume_mounts = b.volume_mounts;
    working_dir = home;
  };
  volumes = b.volumes;
  security_context = b.security_context;
  node_selector = pod_nodeselectors b;
  service_account_name = if_filled b.serviceaccount;
})

module _ (should_quote : Text → Bool) (quote : Text → Text) (init_image : Option Text) where
  unfoldable pub build : Text → PodBuilder → Option Manifest
  unfolding init_containers container_resources container_workingdir
  build tag b =
      manifest tag b (init_containers should_quote quote init_image b) (container_resources b)
        (container_workingdir b)
