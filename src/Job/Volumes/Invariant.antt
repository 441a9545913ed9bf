-- ===== src/Job/Volumes/Invariant.antt =====
-- Every volume mount of the built pod names a volume of that pod: the invariant of
-- KubernetesVolumeBuilder (calrissian/job.py).
use mathlib.Core.List.{Mem, mem-append_left, mem-append_right, mem-cons_self, map-append}
use mathlib.Core.Option.{some-injective}
use calrissian.Prelude.{
  ◌≡◌, subst, true, Bool, Bool-cases, Option-cases, inl, inr, Option, none, some, List, [], ◌∷◌,
  ◌++◌, All, All-append, All-map, map,
}
use calrissian.Text.{Text, eq_text, starts_with}
use calrissian.Text.Laws.{eq_text→eq}
use calrissian.Text.Dict.{TextDict, insert}
use calrissian.Job.Volumes.{
  PodSpec, MountedClaim, Volume, persistent_volume_claim, empty_dir, volume_name, Mount,
  bind_empty_dir, mount_name, Entry, VolumeBuilder, new_builder, add_persistent_volume_entry,
  add_entries, get_mounted_persistent_volumes, add_persistent_volume_entries_from_pod,
  add_emptydir_volume, find_entry, find_persistent_volume, add_volume_binding, has_name,
  add_emptydir_volume_binding,
}

abbrev pub names : List Volume → List Text
names = map volume_name

-- The volumes that entries, registered names and mounts refer to are all declared.
pub record IsValid (b : VolumeBuilder) : Type 0 where
  pub entries :
      All (λ e. Mem (volume_name e.1.volume) (names b.volumes)) b.persistent_volume_entries
  pub emptydirs : All (λ name. Mem name (names b.volumes)) b.emptydir_volume_names
  pub mounts : All (λ m. Mem (mount_name m) (names b.volumes)) b.volume_mounts

pub new_builder-IsValid : IsValid new_builder
unfolding new_builder
new_builder-IsValid = record { entries = tt; emptydirs = tt; mounts = tt }

grow :
    (v : Volume) (vs : List Volume) (name : Text)
    → Mem name (names vs)
    → Mem name (names (vs ++ v ∷ []))
grow v vs name m = rw map-append (mem-append_left (volume_name v ∷ []) m)

newest : (v : Volume) (vs : List Volume) → Mem (volume_name v) (names (vs ++ v ∷ []))
newest v vs = rw map-append (mem-append_right (names vs) mem-cons_self)

insert-All :
    {V : Type 0} (P : V → Type 0) (k : Text) (v : V) (d : TextDict V)
    → P v
    → All (λ e. P e.1) d
    → All (λ e. P e.1) (insert k v d)
unfolding insert
insert-All P k v [] p h = (p, tt)
insert-All P k v ((j, w) ∷ d) p h = elim (Bool-cases (eq_text j k)) [
  | inl e ↦ rw (e, insert) (p, h.1)
  | inr e ↦ rw (e, insert) (h.0, insert-All P k v d p h.1)
]

pub add_persistent_volume_entry-IsValid :
    (prefix : Text) (sub_path : Option Text) (claim : Text) (read_only : Bool) (b : VolumeBuilder)
    → IsValid b
    → IsValid (add_persistent_volume_entry prefix sub_path claim read_only b)
unfolding add_persistent_volume_entry
add_persistent_volume_entry-IsValid prefix sub_path claim read_only b v =
    let volume = persistent_volume_claim claim claim read_only in
    record {
      entries =
          insert-All (λ e. Mem (volume_name e.volume) (names (b.volumes ++ volume ∷ []))) prefix _ _
            (newest volume b.volumes)
            (All-map _ _ (λ e. grow volume b.volumes (volume_name e.1.volume)) v.entries);
      emptydirs = All-map _ _ (λ name. grow volume b.volumes name) v.emptydirs;
      mounts = All-map _ _ (λ m. grow volume b.volumes (mount_name m)) v.mounts;
    }

add_entries-IsValid :
    (claims : List MountedClaim) (b : VolumeBuilder) → IsValid b → IsValid (add_entries claims b)
unfolding add_entries
add_entries-IsValid [] b v = v
add_entries-IsValid (m ∷ claims) b v =
    add_entries-IsValid claims _
      (add_persistent_volume_entry-IsValid m.mount_path m.sub_path m.claim_name m.read_only b v)

-- The state after a call that may raise: what was there, where it raises.
abbrev pub IfSome : (VolumeBuilder → Type 0) → Option VolumeBuilder → Type 0
IfSome P none = Unit
IfSome P (some b) = P b

pub add_persistent_volume_entries_from_pod-IsValid :
    (pod : PodSpec) (b : VolumeBuilder)
    → IsValid b
    → IfSome IsValid (add_persistent_volume_entries_from_pod pod b)
unfolding add_persistent_volume_entries_from_pod
add_persistent_volume_entries_from_pod-IsValid pod b v =
    elim (Option-cases (get_mounted_persistent_volumes pod)) [
      | inl e ↦ rw (e, IfSome) tt
      | inr (claims, e) ↦ rw (e, IfSome) (add_entries-IsValid claims b v)
    ]

pub add_emptydir_volume-IsValid :
    (name : Text) (b : VolumeBuilder) → IsValid b → IsValid (add_emptydir_volume name b)
unfolding add_emptydir_volume
add_emptydir_volume-IsValid name b v = record {
  entries = All-map _ _ (λ e. grow (empty_dir name) b.volumes (volume_name e.1.volume)) v.entries;
  emptydirs =
      All-append _ b.emptydir_volume_names (name ∷ [])
        (All-map _ _ (λ n. grow (empty_dir name) b.volumes n) v.emptydirs)
        (newest (empty_dir name) b.volumes, tt);
  mounts = All-map _ _ (λ m. grow (empty_dir name) b.volumes (mount_name m)) v.mounts;
}

find_entry-All :
    (P : Entry → Type 0) (source : Text) (d : TextDict Entry) (e : Entry)
    → All (λ x. P x.1) d
    → find_entry source d ≡ some e
    → P e
unfolding find_entry
find_entry-All P source [] e h f = cc
find_entry-All P source ((prefix, x) ∷ d) e h f = elim (Bool-cases (starts_with prefix source)) [
  | inl t ↦ subst P (some-injective x e (rw (t, find_entry) at f)) h.0
  | inr t ↦ find_entry-All P source d e h.1 (rw (t, find_entry) at f)
]

mount-IsValid :
    (m : Mount) (b : VolumeBuilder)
    → IsValid b
    → Mem (mount_name m) (names b.volumes)
    → IsValid (record b { volume_mounts = b.volume_mounts ++ m ∷ [] })
mount-IsValid m b v h = record {
  entries = v.entries;
  emptydirs = v.emptydirs;
  mounts = All-append _ b.volume_mounts (m ∷ []) v.mounts (h, tt);
}

pub add_volume_binding-IsValid :
    (source target : Text) (writable : Bool) (b : VolumeBuilder)
    → IsValid b
    → IfSome IsValid (add_volume_binding source target writable b)
unfolding add_volume_binding find_persistent_volume
add_volume_binding-IsValid source target writable b v =
    elim (Option-cases (find_entry source b.persistent_volume_entries)) [
      | inl e ↦ rw (e, IfSome) tt
      | inr (pv, e) ↦
          rw (e, IfSome)
            (mount-IsValid _ b v (
              find_entry-All (λ x. Mem (volume_name x.volume) (names b.volumes)) source
                b.persistent_volume_entries pv v.entries e))
    ]

has_name-All :
    (P : Text → Type 0) (name : Text) (xs : List Text) → All P xs → has_name name xs ≡ true → P name
has_name-All P name [] h e = cc
has_name-All P name (x ∷ xs) h e = elim (Bool-cases (eq_text x name)) [
  | inl t ↦ subst P (eq_text→eq x name t) h.0
  | inr t ↦ has_name-All P name xs h.1 (rw t at e)
]

pub add_emptydir_volume_binding-IsValid :
    (name target : Text) (b : VolumeBuilder)
    → IsValid b
    → IfSome IsValid (add_emptydir_volume_binding name target b)
unfolding add_emptydir_volume_binding
add_emptydir_volume_binding-IsValid name target b v =
    elim (Bool-cases (has_name name b.emptydir_volume_names)) [
      | inl e ↦
          rw (e, IfSome)
            (mount-IsValid (bind_empty_dir name target) b v (
              has_name-All (λ n. Mem n (names b.volumes)) name b.emptydir_volume_names v.emptydirs
                e))
      | inr e ↦ rw (e, IfSome) tt
    ]
