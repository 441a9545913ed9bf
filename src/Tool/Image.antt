-- ===== src/Tool/Image.antt =====
-- The container image that the job of a tool finds (calrissian/tool.py and calrissian/job.py).
use mathlib.Core.Option.{some-injective}
use calrissian.Prelude.{
  ◌≡◌, refl, subst, Bool, true, false, Option-cases, inl, inr, Option, none, some, [], ◌∷◌, ◌⊎◌,
}
use calrissian.Text.{Text, codes, eq_text}
use calrissian.Text.Dict.{TextDict, lookup}
use calrissian.Job.Pod.Build.{if_filled}
use calrissian.Job.Runner.{Job, Result, returns, raises, key_error, job_exception}
use calrissian.Job.Runner.Runtime.{if_any, docker, pull_or_raise, get_container_image}
use calrissian.Tool.{
  Tool, GetRequirement, Made, job_runner, tool_exception, injected, inject, with_requirement,
  make_job_runner,
}

-- `get_requirement` finds a requirement that is put first in the list, where it found none.
abbrev pub FindsFirst : GetRequirement → Type 0
FindsFirst get_requirement =
    (tool : Tool) (image : Text)
    → if_any (get_requirement tool docker).0 ≡ none
    → get_requirement (record tool { requirements = injected image ∷ tool.requirements }) docker
      ≡ (some (injected image), true)

-- What a job finds that takes its image from a requirement: the image that it names. It raises a
-- KeyError where it names none, and an exception of the job where the name is empty.
abbrev pub FindsIn : Option Text → Result Text → Type 0
FindsIn none found = found ≡ raises key_error
FindsIn (some []) found = found ≡ raises job_exception
FindsIn (some (c ∷ image)) found = found ≡ returns (c ∷ image)

-- What the job of a tool finds: what the requirement of the tool says, or else the default container.
abbrev pub Finds : Option (TextDict Text) → Option Text → Result Text → Type 0
Finds (some requirement) default_container found =
    FindsIn (lookup (codes "dockerPull") requirement) found
Finds none default_container found =
    (image : Text) × (if_filled default_container ≡ some image) × (found ≡ returns image)

pull-FindsIn : (image : Option Text) → FindsIn image (pull_or_raise image)
pull-FindsIn none = refl
pull-FindsIn (some []) = refl
pull-FindsIn (some (c ∷ image)) = refl

abbrev pub HasImage : GetRequirement → Bool → Option Text → Tool → Made → Type 0
HasImage get_requirement use_container default_container tool tool_exception =
    (use_container ≡ false)
    ⊎ ((if_any (get_requirement tool docker).0 ≡ none) × (if_filled default_container ≡ none))
HasImage get_requirement use_container default_container tool (job_runner changed) =
    (job : Job)
    → job.get_requirement ≡ get_requirement changed
    → Finds (if_any (get_requirement tool docker).0) default_container (get_container_image job)

image_of_default :
    (default_container : Option Text) (image : Text)
    → if_filled default_container ≡ some image
    → pull_or_raise (some image) ≡ returns image
image_of_default none image e = cc
image_of_default (some []) image e = cc
image_of_default (some (c ∷ t)) image e =
    let same : c ∷ t ≡ image = some-injective (c ∷ t) image e in
    subst (λ i. pull_or_raise (some i) ≡ returns i) same refl

lookup-injected : (image : Text) → lookup (codes "dockerPull") (injected image) ≡ some image
unfolding lookup eq_text
lookup-injected image = refl

module _ (get_requirement : GetRequirement) (default_container : Option Text) (tool : Tool) where
  with_requirement-HasImage :
      (requirement : Option (TextDict Text))
      → if_any (get_requirement tool docker).0 ≡ requirement
      → FindsFirst get_requirement
      → HasImage get_requirement true default_container tool
          (with_requirement requirement default_container tool)
  unfolding get_container_image
  with_requirement-HasImage (some requirement) e finds =
      λ job same. rw (same, e) (pull-FindsIn (lookup (codes "dockerPull") requirement))
  with_requirement-HasImage none e finds = elim (Option-cases (if_filled default_container)) [
    | inl empty ↦ rw empty (inr (e, empty))
    | inr (image, filled) ↦
        rw (filled, inject)
          (λ job same. rw e (
            image,
            filled,
            rw (same, finds tool image e, lookup-injected image)
                (image_of_default default_container image filled),
          ))
  ]

-- Where a job runner is made for a tool that has no requirement of a container image, its job
-- finds the default container. With a requirement its job finds the image that it names, and
-- raises where it names none or an empty one. No job runner is made only if containers are not
-- used, or there is neither. A requirement that is put first in the list has to be found where
-- none was.
pub make_job_runner-HasImage :
    (get_requirement : GetRequirement) (use_container : Bool) (default_container : Option Text)
    → (tool : Tool) → FindsFirst get_requirement
    → HasImage get_requirement use_container default_container tool
        (make_job_runner get_requirement use_container default_container tool)
unfolding make_job_runner
make_job_runner-HasImage get_requirement true default_container tool finds =
    with_requirement-HasImage get_requirement default_container tool _ refl finds
make_job_runner-HasImage get_requirement false default_container tool finds = inl refl
