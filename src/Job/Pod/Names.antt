-- ===== src/Job/Pod/Names.antt =====
-- Which names of a pod are DNS-1123 labels (calrissian/job.py).
use calrissian.Prelude.{
  ℕ, ◌≡◌, ◌↔◌, ◌≢◌, refl, sym, ap, ◌∙◌, Bool, true, false, ◌&&◌, map, [], ◌∷◌, ◌++◌, All, arith,
  leb,
}
use calrissian.Text.{Text, codes, lower, lower_char}
use calrissian.Job.Pod.{is_alphanumeric, is_safe, safe_char, k8s_safe_name, PodBuilder, pod_name}

abbrev pub starts_alphanumeric : Text → Bool
starts_alphanumeric [] = false
starts_alphanumeric (c ∷ _) = is_alphanumeric c

abbrev pub ends_alphanumeric : Text → Bool
ends_alphanumeric [] = false
ends_alphanumeric (c ∷ []) = is_alphanumeric c
ends_alphanumeric (_ ∷ d ∷ t) = ends_alphanumeric (d ∷ t)

-- `[a-z0-9]([-a-z0-9]*[a-z0-9])?`
pub record IsLabel (t : Text) : Type 0 where
  pub safe : All (λ c. is_safe c ≡ true) t
  pub first : starts_alphanumeric t ≡ true
  pub last : ends_alphanumeric t ≡ true

safe_char_safe : (c : ℕ) → is_safe (safe_char c) ≡ true
safe_char_safe c = ground arith

safe_char_same : (c : ℕ) → is_alphanumeric (safe_char c) ≡ is_alphanumeric c
safe_char_same c = ground arith

all_safe : (t : Text) → All (λ c. is_safe c ≡ true) (map safe_char t)
all_safe [] = tt
all_safe (c ∷ t) = (safe_char_safe c, all_safe t)

starts-map : (t : Text) → starts_alphanumeric (map safe_char t) ≡ starts_alphanumeric t
starts-map [] = refl
starts-map (c ∷ t) = safe_char_same c

ends-map : (t : Text) → ends_alphanumeric (map safe_char t) ≡ ends_alphanumeric t
ends-map [] = refl
ends-map (c ∷ []) = safe_char_same c
ends-map (c ∷ d ∷ t) = ends-map (d ∷ t)

-- A safe name is a DNS-1123 label exactly if the lower case name starts and ends with a letter or a
-- digit: characters at its ends that are not allowed there become dashes.
pub k8s_safe_name-IsLabel :
    (name : Text)
    → IsLabel (k8s_safe_name name)
      ↔ (starts_alphanumeric (lower name) ≡ true) × (ends_alphanumeric (lower name) ≡ true)
unfolding k8s_safe_name
k8s_safe_name-IsLabel name = (
  (λ l. (sym (starts-map (lower name)) ∙ l.first, sym (ends-map (lower name)) ∙ l.last)),
  λ h. record {
    safe = all_safe (lower name);
    first = starts-map (lower name) ∙ h.0;
    last = ends-map (lower name) ∙ h.1;
  },
)

-- A text of small letters, as `random_tag` gives.
abbrev pub IsTag : Text → Type 0
IsTag tag = (tag ≢ []) × All (λ c. (leb b'a' c && leb c b'z') ≡ true) tag

lower-append : (s t : Text) → lower (s ++ t) ≡ lower s ++ lower t
unfolding lower
lower-append [] t = refl
lower-append (c ∷ s) t = ap (λ u. lower_char c ∷ u) (lower-append s t)

ends-append :
    (s : Text) (c : ℕ) (t : Text) → ends_alphanumeric (s ++ c ∷ t) ≡ ends_alphanumeric (c ∷ t)
ends-append [] c t = refl
ends-append (d ∷ []) c t = refl
ends-append (d ∷ e ∷ s) c t = ends-append (e ∷ s) c t

ends-tag :
    (c : ℕ) (tag : Text)
    → All (λ c. (leb b'a' c && leb c b'z') ≡ true) (c ∷ tag)
    → ends_alphanumeric (lower (c ∷ tag)) ≡ true
unfolding lower lower_char
ends-tag c [] h = ground (arith, h.0)
ends-tag c (d ∷ tag) h = ends-tag d tag h.1

ends_lower :
    (s : Text) (c : ℕ) (t : Text)
    → ends_alphanumeric (lower (s ++ c ∷ t)) ≡ ends_alphanumeric (lower (c ∷ t))
unfolding lower
ends_lower s c t =
    ap ends_alphanumeric (lower-append s (c ∷ t))
    ∙ ends-append (map lower_char s) (lower_char c) (map lower_char t)

starts-name :
    (name u rest : Text)
    → starts_alphanumeric (lower ((name ++ b'-' ∷ u) ++ rest)) ≡ starts_alphanumeric (lower name)
unfolding lower lower_char
starts-name [] u rest = refl
starts-name (c ∷ name) u rest = refl

-- The name of a pod is a DNS-1123 label exactly if the lower case name of its job starts with a
-- letter or a digit, where the tag is one or more small letters.
pub pod_name-IsLabel :
    (tag : Text) (b : PodBuilder)
    → IsTag tag
    → IsLabel (pod_name tag b) ↔ (starts_alphanumeric (lower b.name) ≡ true)
unfolding pod_name
pod_name-IsLabel [] b h = absurd (h.0 refl)
pod_name-IsLabel (c ∷ tag) b h =
    let before = b.name ++ codes "-pod-" in
    let full = before ++ c ∷ tag in
    let (to, from) = k8s_safe_name-IsLabel full in
    let starts = starts-name b.name (codes "pod-") (c ∷ tag) in
    let ends : ends_alphanumeric (lower full) ≡ true =
      ends_lower before c tag ∙ ends-tag c tag h.1 in
    ((λ l. sym starts ∙ (to l).0), λ e. from (starts ∙ e, ends))
