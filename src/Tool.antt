-- ===== src/Tool.antt =====
-- calrissian/tool.py: which job class runs a tool, and which class a document is loaded as.
pub mod Image
mod Tests
use calrissian.Prelude.{Bool, true, false, Option, none, some, List, [], ◌∷◌, if◌then◌else◌}
use calrissian.Text.{Text, codes, eq_text}
use calrissian.Text.Dict.{TextDict, lookup}
use calrissian.Job.Pod.Build.{if_filled}
use calrissian.Job.Runner.Runtime.{if_any, docker}

-- A tool's requirements, which may change, and its hints. A requirement is its fields, `class` among
-- them.
pub record Tool : Type 0 where
  pub requirements : List (TextDict Text)
  pub hints : List (TextDict Text)

-- `get_requirement` of cwltool: what is found, and whether it is required.
abbrev pub GetRequirement : Type 0
GetRequirement = Tool → Text → Option (TextDict Text) × Bool

pub data Made : Type 0 where
  -- The tool, changed, and CalrissianCommandLineJob to run it.
  job_runner : Tool → Made
  tool_exception : Made

-- The requirement that is put first in the list.
abbrev pub injected : Text → TextDict Text
injected image = (codes "class", docker) ∷ (codes "dockerPull", image) ∷ []

abbrev pub inject : Option Text → Tool → Made
inject none tool = tool_exception
inject (some image) tool =
    job_runner (record tool { requirements = injected image ∷ tool.requirements })

abbrev pub with_requirement : Option (TextDict Text) → Option Text → Tool → Made
with_requirement (some requirement) default_container tool = job_runner tool
with_requirement none default_container tool = inject (if_filled default_container) tool

-- `default_container` is what `find_default_container` of the runtime context gives.
unfoldable pub make_job_runner : GetRequirement → Bool → Option Text → Tool → Made
make_job_runner get_requirement use_container default_container tool =
    if use_container
    then with_requirement (if_any (get_requirement tool docker).0) default_container tool
    else tool_exception

-- The class of a process: that of calrissian, or what cwltool makes of the document.
pub data Process : Type 0 where
  command_line_tool default_tool : TextDict Text → Process

abbrev pub make_for : TextDict Text → Option Text → Process
make_for spec none = default_tool spec
make_for spec (some class) =
    if eq_text class (codes "CommandLineTool") then command_line_tool spec else default_tool spec

unfoldable pub calrissian_make_tool : TextDict Text → Process
unfolding lookup eq_text
calrissian_make_tool spec = make_for spec (lookup (codes "class") spec)
