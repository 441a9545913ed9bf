-- ===== src/Job/Volumes/Reach.antt =====
-- The states that a KubernetesVolumeBuilder (calrissian/job.py) can come to.
use calrissian.Prelude.{◌≡◌, Bool, Option, some, subst, sym}
use calrissian.Text.{Text}
use calrissian.Job.Volumes.{
  PodSpec, VolumeBuilder, new_builder, add_persistent_volume_entry,
  add_persistent_volume_entries_from_pod, add_emptydir_volume, add_volume_binding,
  add_emptydir_volume_binding,
}
use calrissian.Job.Volumes.Invariant.{
  IsValid, IfSome, new_builder-IsValid, add_persistent_volume_entry-IsValid,
  add_persistent_volume_entries_from_pod-IsValid, add_emptydir_volume-IsValid,
  add_volume_binding-IsValid, add_emptydir_volume_binding-IsValid,
}

-- A call of a method that does not raise.
pub data Step (b c : VolumeBuilder) : Type 0 where
  from_pod : (pod : PodSpec) → add_persistent_volume_entries_from_pod pod b ≡ some c → Step b c
  entry :
      (prefix : Text) (sub_path : Option Text) (claim : Text) (read_only : Bool)
      → c ≡ add_persistent_volume_entry prefix sub_path claim read_only b
      → Step b c
  emptydir : (name : Text) → c ≡ add_emptydir_volume name b → Step b c
  binding :
      (source target : Text) (writable : Bool)
      → add_volume_binding source target writable b ≡ some c
      → Step b c
  emptydir_binding :
      (name target : Text) → add_emptydir_volume_binding name target b ≡ some c → Step b c

pub data Reach : VolumeBuilder → Type 0 where
  start : Reach new_builder
  next : {b c : VolumeBuilder} → Reach b → Step b c → Reach c

pub Step-IsValid : {b c : VolumeBuilder} → Step b c → IsValid b → IsValid c
Step-IsValid {b} (from_pod pod e) v =
    subst (IfSome IsValid) e (add_persistent_volume_entries_from_pod-IsValid pod b v)
Step-IsValid {b} (entry prefix sub_path claim read_only e) v =
    subst IsValid (sym e) (add_persistent_volume_entry-IsValid prefix sub_path claim read_only b v)
Step-IsValid {b} (emptydir name e) v = subst IsValid (sym e) (add_emptydir_volume-IsValid name b v)
Step-IsValid {b} (binding source target writable e) v =
    subst (IfSome IsValid) e (add_volume_binding-IsValid source target writable b v)
Step-IsValid {b} (emptydir_binding name target e) v =
    subst (IfSome IsValid) e (add_emptydir_volume_binding-IsValid name target b v)

-- After any calls of its methods on a new builder, the volume of every entry, every registered
-- emptyDir and the volume of every mount are declared under `volumes`.
pub Reach-IsValid : (b : VolumeBuilder) → Reach b → IsValid b
Reach-IsValid _ start = new_builder-IsValid
Reach-IsValid _ (next {b} r step) = Step-IsValid step (Reach-IsValid b r)
