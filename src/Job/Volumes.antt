-- ===== src/Job/Volumes.antt =====
-- KubernetesPodVolumeInspector and KubernetesVolumeBuilder (calrissian/job.py).
pub mod Invariant
pub mod Reach
pub mod Paths
use calrissian.Prelude.{
  ℕ, Bool, true, false, not, Option, none, some, List, [], ◌∷◌, ◌++◌, ◌==◌, any, length,
  if◌then◌else◌,
}
use calrissian.Text.{Text, codes, eq_text, starts_with, drop}
use calrissian.Text.Dict.{TextDict, lookup, insert}

-- A volume of the pod that calrissian runs in; `read_only` of a claim may be left out.
pub record Claim : Type 0 where
  pub claim_name : Text
  pub read_only : Option Bool

pub record PodVolume : Type 0 where
  pub name : Text
  pub claim : Option Claim

pub record PodMount : Type 0 where
  pub name : Text
  pub mount_path : Text
  pub sub_path : Option Text

-- The volumes of a pod, and the volume mounts of each of its containers.
pub record PodSpec : Type 0 where
  pub volumes : List PodVolume
  pub containers : List (List PodMount)

abbrev or_false : Option Bool → Bool
or_false none = false
or_false (some b) = b

abbrev add_claim : Text → Option Claim → TextDict (Text × Bool) → TextDict (Text × Bool)
add_claim name none d = d
add_claim name (some c) d = insert name (c.claim_name, or_false c.read_only) d

unfoldable pub claims_from : TextDict (Text × Bool) → List PodVolume → TextDict (Text × Bool)
claims_from d [] = d
claims_from d (v ∷ volumes) = claims_from (add_claim v.name v.claim d) volumes

unfoldable pub get_persistent_volumes_dict : PodSpec → TextDict (Text × Bool)
unfolding claims_from
get_persistent_volumes_dict pod = claims_from [] pod.volumes

-- `containers[0]`, an IndexError if there is none.
unfoldable pub get_first_container : PodSpec → Option (List PodMount)
get_first_container pod = elim pod.containers [ [] ↦ none | mounts ∷ _ ↦ some mounts ]

pub record MountedClaim : Type 0 where
  pub mount_path : Text
  pub sub_path : Option Text
  pub claim_name : Text
  pub read_only : Bool

abbrev mounted : PodMount → Option (Text × Bool) → List MountedClaim → List MountedClaim
mounted m none rest = rest
mounted m (some (claim, read_only)) rest =
    record {
      mount_path = m.mount_path;
      sub_path = m.sub_path;
      claim_name = claim;
      read_only = read_only;
    }
    ∷ rest

unfoldable pub mounted_claims : TextDict (Text × Bool) → List PodMount → List MountedClaim
mounted_claims claims [] = []
mounted_claims claims (m ∷ mounts) = mounted m (lookup m.name claims) (mounted_claims claims mounts)

unfoldable pub get_mounted_persistent_volumes : PodSpec → Option (List MountedClaim)
unfolding get_first_container get_persistent_volumes_dict mounted_claims
get_mounted_persistent_volumes pod = elim (get_first_container pod) [
  | none ↦ none
  | some mounts ↦ some (mounted_claims (get_persistent_volumes_dict pod) mounts)
]

-- The volumes and volume mounts of the pod that is built.
pub data Volume : Type 0 where
  persistent_volume_claim : (name claim_name : Text) → (read_only : Bool) → Volume
  empty_dir : (name : Text) → Volume

abbrev pub volume_name : Volume → Text
volume_name (persistent_volume_claim name _ _) = name
volume_name (empty_dir name) = name

pub data Mount : Type 0 where
  bind : (name mount_path sub_path : Text) → (read_only : Bool) → Mount
  bind_empty_dir : (name mount_path : Text) → Mount

abbrev pub mount_name : Mount → Text
mount_name (bind name _ _ _) = name
mount_name (bind_empty_dir name _) = name

pub record Entry : Type 0 where
  pub prefix : Text
  pub sub_path : Option Text
  pub volume : Volume

pub record VolumeBuilder : Type 0 where
  pub persistent_volume_entries : TextDict Entry
  pub emptydir_volume_names : List Text
  pub volume_mounts : List Mount
  pub volumes : List Volume

unfoldable pub new_builder : VolumeBuilder
new_builder = record {
  persistent_volume_entries = [];
  emptydir_volume_names = [];
  volume_mounts = [];
  volumes = [];
}

unfoldable pub add_persistent_volume_entry :
    Text → Option Text → Text → Bool → VolumeBuilder → VolumeBuilder
add_persistent_volume_entry prefix sub_path claim_name read_only b =
    let volume = persistent_volume_claim claim_name claim_name read_only in
    record b {
      persistent_volume_entries =
          insert prefix (record { prefix = prefix; sub_path = sub_path; volume = volume })
            b.persistent_volume_entries;
      volumes = b.volumes ++ volume ∷ [];
    }

unfoldable pub add_entries : List MountedClaim → VolumeBuilder → VolumeBuilder
unfolding add_persistent_volume_entry
add_entries [] b = b
add_entries (m ∷ claims) b =
    add_entries claims
      (add_persistent_volume_entry m.mount_path m.sub_path m.claim_name m.read_only b)

unfoldable pub add_persistent_volume_entries_from_pod :
    PodSpec → VolumeBuilder → Option VolumeBuilder
unfolding add_entries get_mounted_persistent_volumes
add_persistent_volume_entries_from_pod pod b = elim (get_mounted_persistent_volumes pod) [
  | none ↦ none
  | some claims ↦ some (add_entries claims b)
]

unfoldable pub add_emptydir_volume : Text → VolumeBuilder → VolumeBuilder
add_emptydir_volume name b = record b {
  emptydir_volume_names = b.emptydir_volume_names ++ name ∷ [];
  volumes = b.volumes ++ empty_dir name ∷ [];
}

-- The first entry, in the order of the dict, whose prefix starts the source.
unfoldable pub find_entry : Text → TextDict Entry → Option Entry
find_entry source [] = none
find_entry source ((prefix, entry) ∷ entries) =
    if starts_with prefix source then some entry else find_entry source entries

unfoldable pub find_persistent_volume : Text → VolumeBuilder → Option Entry
unfolding find_entry
find_persistent_volume source b = find_entry source b.persistent_volume_entries

unfoldable pub ends_with_slash : Text → Bool
ends_with_slash [] = false
ends_with_slash (c ∷ []) = c == b'/'
ends_with_slash (c ∷ d ∷ t) = ends_with_slash (d ∷ t)

-- `os.path.join(path, '')`
unfoldable pub slashed : Text → Text
unfolding ends_with_slash
slashed [] = []
slashed (c ∷ t) = if ends_with_slash (c ∷ t) then c ∷ t else (c ∷ t) ++ b'/' ∷ []

-- Under a parent that is neither None nor empty.
abbrev pub under : Option Text → Text → Text
under none path = path
under (some []) path = path
under (some (c ∷ t)) path = (c ∷ t) ++ b'/' ∷ path

unfoldable pub calculate_subpath : Text → Text → Option Text → Text
unfolding slashed drop
calculate_subpath source prefix parent_sub_path =
    under parent_sub_path (drop (length (slashed prefix)) source)

-- `none` is the VolumeBuilderException.
unfoldable pub add_volume_binding : Text → Text → Bool → VolumeBuilder → Option VolumeBuilder
unfolding find_persistent_volume calculate_subpath
add_volume_binding source target writable b = elim (find_persistent_volume source b) [
  | none ↦ none
  | some pv ↦ some (record b {
    volume_mounts =
        b.volume_mounts
        ++ bind (volume_name pv.volume) target (calculate_subpath source pv.prefix pv.sub_path)
            (not writable)
          ∷ [];
  })
]

abbrev pub has_name : Text → List Text → Bool
has_name name = any (λ n. eq_text n name)

unfoldable pub add_emptydir_volume_binding : Text → Text → VolumeBuilder → Option VolumeBuilder
unfolding eq_text
add_emptydir_volume_binding name target b =
    if has_name name b.emptydir_volume_names
    then some (record b { volume_mounts = b.volume_mounts ++ bind_empty_dir name target ∷ [] })
    else none
