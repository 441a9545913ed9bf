-- ===== src/Job/Volumes/Paths.antt =====
-- Which volume a path is bound to, and at which place in it: `find_persistent_volume`,
-- `calculate_subpath` and `add_volume_binding` (calrissian/job.py).
use mathlib.Core.List.{append_assoc}
use calrissian.Prelude.{
  ℕ, ◌≡◌, ◌≢◌, ◌↔◌, refl, ap, sym, ◌∙◌, true, false, not, Bool, Bool-cases, Option-cases, inl, inr,
  Option, none, some, [], ◌∷◌, ◌++◌, All, length, length-append,
}
use calrissian.Text.{Text, starts_with, drop}
use calrissian.Text.Laws.{starts_with-append, drop-append}
use calrissian.Text.Dict.{TextDict}
use calrissian.Job.Volumes.{
  Entry, volume_name, bind, VolumeBuilder, find_entry, find_persistent_volume, ends_with_slash,
  slashed, under, calculate_subpath, add_volume_binding,
}

-- The entries that stand before the first whose prefix starts the source.
pub record IsFirst (source : Text) (d : TextDict Entry) (prefix : Text) (pv : Entry) : Type 0 where
  pub before : TextDict Entry
  pub after : TextDict Entry
  pub split : d ≡ before ++ (prefix, pv) ∷ after
  pub starts : starts_with prefix source ≡ true
  pub others : All (λ e. starts_with e.0 source ≡ false) before

find_entry-first :
    (source : Text) (before after : TextDict Entry) (prefix : Text) (pv : Entry)
    → starts_with prefix source ≡ true
    → All (λ e. starts_with e.0 source ≡ false) before
    → find_entry source (before ++ (prefix, pv) ∷ after) ≡ some pv
unfolding find_entry
find_entry-first source [] after prefix pv e h = rw e
find_entry-first source ((p, x) ∷ before) after prefix pv e h =
    rw h.0 (find_entry-first source before after prefix pv e h.1)

find_entry-none :
    (source : Text) (d : TextDict Entry)
    → (find_entry source d ≡ none) ↔ All (λ e. starts_with e.0 source ≡ false) d
unfolding find_entry
find_entry-none source [] = ((λ _. tt), λ _. refl)
find_entry-none source ((p, x) ∷ d) = elim (Bool-cases (starts_with p source)) [
  | inl e ↦ ((λ h. cc (rw (e, find_entry) at h)), λ h. cc)
  | inr e ↦ (
    (λ h. (e, (find_entry-none source d).0 (rw (e, find_entry) at h))),
    λ h. rw (e, find_entry) ((find_entry-none source d).1 h.1),
  )
]

calculate_subpath-append :
    (prefix rest : Text) (parent : Option Text)
    → calculate_subpath (slashed prefix ++ rest) prefix parent ≡ under parent rest
unfolding calculate_subpath
calculate_subpath-append prefix rest parent = rw drop-append

length-slashed :
    (prefix : Text) (c : ℕ)
    → prefix ≢ []
    → ends_with_slash prefix ≡ false
    → length (slashed prefix) ≡ length (prefix ++ c ∷ [])
unfolding slashed
length-slashed [] c filled open_ = absurd (filled refl)
length-slashed (d ∷ t) c filled open_ =
    rw (open_, slashed) (length-append (d ∷ t) (b'/' ∷ []) ∙ sym (length-append (d ∷ t) (c ∷ [])))

calculate_subpath_sibling :
    (prefix rest : Text) (c : ℕ) (parent : Option Text)
    → prefix ≢ []
    → ends_with_slash prefix ≡ false
    → calculate_subpath (prefix ++ c ∷ rest) prefix parent ≡ under parent rest
unfolding calculate_subpath
calculate_subpath_sibling prefix rest c parent filled open_ =
    rw (length-slashed prefix c filled open_) (
      ap (under parent) (
        ap (drop (length (prefix ++ c ∷ []))) (sym (append_assoc prefix (c ∷ []) rest))
        ∙ drop-append (prefix ++ c ∷ []) rest))

-- A path below the mount point of the first entry that its text starts with is bound to the volume
-- of that entry, at the same place under the entry's sub path, read only unless it is writable.
pub add_volume_binding_below :
    (b : VolumeBuilder) (prefix rest target : Text) (writable : Bool) (pv : Entry)
    → IsFirst (slashed prefix ++ rest) b.persistent_volume_entries prefix pv
    → pv.prefix ≡ prefix
    → add_volume_binding (slashed prefix ++ rest) target writable b
      ≡ some (record b {
        volume_mounts =
            b.volume_mounts
            ++ bind (volume_name pv.volume) target (under pv.sub_path rest) (not writable) ∷ [];
      })
unfolding add_volume_binding find_persistent_volume
add_volume_binding_below b prefix rest target writable pv first same =
    let found : find_entry (slashed prefix ++ rest) b.persistent_volume_entries ≡ some pv =
      rw first.split (
        find_entry-first (slashed prefix ++ rest) first.before first.after prefix pv first.starts
          first.others) in
    rw (found, add_volume_binding) (rw same (rw calculate_subpath-append))

-- A binding raises exactly if the source starts with the mount point of no entry.
pub add_volume_binding_raises :
    (b : VolumeBuilder) (source target : Text) (writable : Bool)
    → (add_volume_binding source target writable b ≡ none)
      ↔ All (λ e. starts_with e.0 source ≡ false) b.persistent_volume_entries
unfolding add_volume_binding find_persistent_volume
add_volume_binding_raises b source target writable =
    elim (Option-cases (find_entry source b.persistent_volume_entries)) [
      | inl e ↦ (
        (λ _. (find_entry-none source b.persistent_volume_entries).0 e),
        λ _. rw (e, add_volume_binding),
      )
      | inr (pv, e) ↦ (
        (λ h. cc (rw (e, add_volume_binding) at h)),
        λ h. cc (e, (find_entry-none source b.persistent_volume_entries).1 h),
      )
    ]

-- With one entry, a path that only starts with the same letters as its mount point is bound too, to
-- the claim of that entry, and the letter that follows the mount point is lost.
pub add_volume_binding_sibling :
    (b : VolumeBuilder) (prefix rest target : Text) (c : ℕ) (writable : Bool) (pv : Entry)
    → b.persistent_volume_entries ≡ (prefix, pv) ∷ []
    → pv.prefix ≡ prefix
    → prefix ≢ []
    → ends_with_slash prefix ≡ false
    → add_volume_binding (prefix ++ c ∷ rest) target writable b
      ≡ some (record b {
        volume_mounts =
            b.volume_mounts
            ++ bind (volume_name pv.volume) target (under pv.sub_path rest) (not writable) ∷ [];
      })
unfolding add_volume_binding find_persistent_volume
add_volume_binding_sibling b prefix rest target c writable pv only same filled open_ =
    let found : find_entry (prefix ++ c ∷ rest) b.persistent_volume_entries ≡ some pv = rw only (
      find_entry-first (prefix ++ c ∷ rest) [] [] prefix pv (starts_with-append prefix (c ∷ rest))
        tt) in
    rw (found, add_volume_binding)
      (rw same (rw (calculate_subpath_sibling prefix rest c pv.sub_path filled open_)))
