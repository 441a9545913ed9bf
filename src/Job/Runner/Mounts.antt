-- ===== src/Job/Runner/Mounts.antt =====
-- The volumes of the pod that a job makes (calrissian/job.py).
use mathlib.Core.List.{Mem}
use calrissian.Prelude.{Bool, Option, none, some, List, [], ◌∷◌, All}
use calrissian.Text.{Text}
use calrissian.Job.Volumes.{mount_name}
use calrissian.Job.Volumes.Invariant.{IsValid, names}
use calrissian.Job.Volumes.Reach.{Step-IsValid}
use calrissian.Job.Pod.{
  PodBuilder, InitContainer, init_container, init_containers, container_workingdir,
}
use calrissian.Job.Pod.Resources.{Bounds, container_resources}
use calrissian.Job.Pod.Build.{Manifest, manifest, build, if_filled}
use calrissian.Job.Runner.{
  Job, JobState, RuntimeContext, Result, returns, raises, Method, Error, or_raise, get, key_error,
}
use calrissian.Job.Runner.Runtime.{
  Host, get_container_image, get_pod_labels, get_pod_nodeselectors, create_kubernetes_runtime,
  pod_builder,
}
use calrissian.Job.Runner.Keeps.{Ends, Meets, in_turn, Keeps, IsStable}
use calrissian.Job.Runner.Frame.{lift-Keeps, read_yaml-Keeps, add_pod_volumes-Keeps}

-- Every mount of the containers is one of a volume of the pod.
pub record IsDeclared (pod : Manifest) : Type 0 where
  pub mounts : All (λ mount. Mem (mount_name mount) (names pod.volumes)) pod.container.volume_mounts
  pub init_mounts :
      All
        (λ c. All (λ mount. Mem (mount_name mount) (names pod.volumes)) c.volume_mounts)
        pod.init_containers

abbrev pub HasValidVolumes : JobState → Type 0
HasValidVolumes s = IsValid s.volume_builder

HasValidVolumes-IsStable : IsStable HasValidVolumes
HasValidVolumes-IsStable = record {
  session = λ s x p. p;
  environment = λ s x p. p;
  resources = λ s x p. p;
  files = λ s x p. p;
  volumes = λ s b step p. Step-IsValid step p;
}

-- The mounts of a pod builder, which its containers get.
abbrev Declares : PodBuilder → Type 0
Declares b = All (λ mount. Mem (mount_name mount) (names b.volumes)) b.volume_mounts

abbrev IfMade : Option Manifest → Type 0
IfMade none = Unit
IfMade (some pod) = IsDeclared pod

abbrev IfInit : PodBuilder → Option (List InitContainer) → Type 0
IfInit b none = Unit
IfInit b (some inits) =
    All (λ c. All (λ mount. Mem (mount_name mount) (names b.volumes)) c.volume_mounts) inits

manifest-IsDeclared :
    (tag : Text) (b : PodBuilder) (inits : Option (List InitContainer)) (bounds : Option Bounds)
    → (home : Option Text) → Declares b
    → IfInit b inits
    → IfMade (manifest tag b inits bounds home)
manifest-IsDeclared tag b none bounds home d i = tt
manifest-IsDeclared tag b (some inits) none home d i = tt
manifest-IsDeclared tag b (some inits) (some bounds) none d i = tt
manifest-IsDeclared tag b (some inits) (some bounds) (some home) d i = record {
  mounts = d;
  init_mounts = i;
}

module _ (should_quote : Text → Bool) (quote : Text → Text) (init_image : Option Text) where
  init_container-IfInit :
      (b : PodBuilder) (commands : List Text) (home : Option Text)
      → Declares b
      → IfInit b (init_container should_quote quote init_image b commands home)
  init_container-IfInit b [] home d = tt
  init_container-IfInit b (c ∷ commands) none d = tt
  init_container-IfInit b (c ∷ commands) (some home) d = (d, tt)

  build-IfMade :
      (tag : Text) (b : PodBuilder)
      → Declares b
      → IfMade (build should_quote quote init_image tag b)
  unfolding build init_containers
  build-IfMade tag b d =
      manifest-IsDeclared tag b _ (container_resources b) (container_workingdir b) d
        (init_container-IfInit b _ (container_workingdir b) d)

or_raise-IsDeclared :
    (pod : Option Manifest) (e : Error)
    → IfMade pod
    → Meets (λ s. Unit) (or_raise e pod) (λ pod s. IsDeclared pod) (λ s. Unit)
or_raise-IsDeclared none e h = record { runs = λ s p. tt }
or_raise-IsDeclared (some pod) e h = record { runs = λ s p. h }

forget :
    {A : Type 0} (P : JobState → Type 0) (r : Result A × JobState)
    → Ends (λ _. P) P r
    → Ends (λ _. P) (λ s. Unit) r
forget P (returns a, s) h = h
forget P (raises e, s) h = tt

raises_anyhow :
    {A : Type 0} {P : JobState → Type 0} (m : Method A) → Keeps P m → Meets P m (λ _. P) (λ s. Unit)
raises_anyhow {P} m h = record { runs = λ s p. forget P (m s) (h.runs s p) }

get_valid : Meets HasValidVolumes get (λ s _. HasValidVolumes s) (λ s. Unit)
get_valid = record { runs = λ s p. p }

-- In the pod that a job makes, every mount of its containers is the mount of a volume of the pod,
-- whatever `add_volumes` calls, where that holds for the volumes that the job starts from.
pub create_kubernetes_runtime-IsDeclared :
    (host : Host) (ctx : RuntimeContext) (job : Job) (s : JobState)
    → IsValid s.volume_builder
    → Ends (λ pod _. IsDeclared pod) (λ _. Unit) (create_kubernetes_runtime host ctx job s)
unfolding create_kubernetes_runtime get_pod_labels get_pod_nodeselectors
create_kubernetes_runtime-IsDeclared host ctx job s v =
    let yaml = λ (file : Option Text). read_yaml-Keeps HasValidVolumes host ctx file in
    let steps : Meets HasValidVolumes (create_kubernetes_runtime host ctx job)
        (λ pod _. IsDeclared pod) (λ _. Unit) =
      in_turn _ _
        (raises_anyhow _
          (add_pod_volumes-Keeps HasValidVolumes HasValidVolumes-IsStable host ctx job))
        (λ _.
          in_turn _ _ (raises_anyhow _ (lift-Keeps HasValidVolumes (get_container_image job)))
            (λ image. in_turn _ _ (raises_anyhow _ (yaml (if_filled ctx.pod_labels))) (λ labels.
              in_turn _ _ (raises_anyhow _ (yaml (if_filled ctx.pod_nodeselectors))) (λ selectors.
                in_turn _ _ get_valid (λ t. record {
                  runs = λ u p.
                      (or_raise-IsDeclared _ key_error (
                          build-IfMade host.should_quote host.quote host.init_image host.tag
                            (pod_builder host ctx job image labels selectors t) p.mounts)).runs
                        u tt;
                }))))) in
    steps.runs s v
