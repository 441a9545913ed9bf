-- ===== src/Tool/Tests.antt =====
-- A tool with and without a DockerRequirement (calrissian/tool.py).
use calrissian.Prelude.{
  ◌≡◌, refl, Bool, true, false, Option, none, some, List, [], ◌∷◌, if◌then◌else◌,
}
use calrissian.Text.{Text, codes, eq_text}
use calrissian.Text.Dict.{TextDict, lookup}
use calrissian.Job.Runner.Runtime.{if_any, docker}
use calrissian.Tool.{
  Tool, GetRequirement, job_runner, tool_exception, injected, make_job_runner, default_tool,
  calrissian_make_tool,
}
use calrissian.Tool.Image.{FindsFirst, HasImage, make_job_runner-HasImage}

abbrev is_of : Text → Option Text → Bool
is_of feature none = false
is_of feature (some class) = eq_text class feature

abbrev or_this : Text → TextDict Text → Option (TextDict Text) → Option (TextDict Text)
or_this feature r (some (f ∷ found)) = some (f ∷ found)
or_this feature r (some []) = if is_of feature (lookup (codes "class") r) then some r else none
or_this feature r none = if is_of feature (lookup (codes "class") r) then some r else none

-- The last requirement of a class.
abbrev last_of : Text → List (TextDict Text) → Option (TextDict Text)
last_of feature [] = none
last_of feature (r ∷ rs) = or_this feature r (last_of feature rs)

abbrev among : Option (TextDict Text) → Option (TextDict Text) → Option (TextDict Text) × Bool
among (some (f ∷ required)) hinted = (some (f ∷ required), true)
among (some []) hinted = (hinted, false)
among none hinted = (hinted, false)

abbrev get_requirement : GetRequirement
get_requirement tool feature =
    among (last_of feature tool.requirements) (last_of feature tool.hints)

among-injected :
    (image : Text) (found hinted : Option (TextDict Text))
    → if_any (among found hinted).0 ≡ none
    → among (or_this docker (injected image) found) hinted ≡ (some (injected image), true)
unfolding lookup eq_text
among-injected image none hinted e = refl
among-injected image (some []) hinted e = refl
among-injected image (some (f ∷ required)) hinted e = cc

get_requirement-FindsFirst : FindsFirst get_requirement
get_requirement-FindsFirst tool image e =
    among-injected image (last_of docker tool.requirements) (last_of docker tool.hints) e

abbrev bare : Tool
bare = record { requirements = []; hints = ((codes "class", codes "Other") ∷ []) ∷ [] }

make_job_runner-HasImage_example :
    HasImage get_requirement true
      (some (codes "alpine"))
      bare
      (make_job_runner get_requirement true (some (codes "alpine")) bare)
make_job_runner-HasImage_example =
    make_job_runner-HasImage get_requirement true (some (codes "alpine")) bare
      get_requirement-FindsFirst

runner_for_bare :
    (make_job_runner get_requirement true (some (codes "alpine")) bare
      ≡ job_runner (record bare { requirements = injected (codes "alpine") ∷ [] }))
    × (make_job_runner get_requirement true none bare ≡ tool_exception)
unfolding make_job_runner lookup eq_text
runner_for_bare = (refl, refl)

tool_made :
    (calrissian_make_tool ((codes "class", codes "Workflow") ∷ [])
      ≡ default_tool ((codes "class", codes "Workflow") ∷ []))
    × (calrissian_make_tool [] ≡ default_tool [])
unfolding calrissian_make_tool lookup eq_text
tool_made = (refl, refl)
