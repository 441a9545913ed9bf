-- ===== src/Job/Pod/Resources.antt =====
-- KubernetesPodBuilder.container_resources (calrissian/job.py).
use calrissian.Prelude.{Bool, ◌||◌, Option, none, some, List, [], ◌∷◌, ◌++◌, if◌then◌else◌}
use calrissian.Text.{Text, codes, eq_text}
use calrissian.Text.Dict.{TextDict, lookup, insert}
use calrissian.Job.Pod.{Requirement, PodBuilder, is_nil}

unfoldable pub resource_type : Text → Option Text
unfolding eq_text
resource_type cwl_field =
    if eq_text cwl_field (codes "cores")
    then some (codes "cpu")
    else if eq_text cwl_field (codes "ram")
    then some (codes "memory")
    else none

unfoldable pub resource_value : Option Text → Text → Option Text
unfolding eq_text
resource_value none cwl_value = none
resource_value (some kind) cwl_value =
    if eq_text kind (codes "cpu")
    then some cwl_value
    else if eq_text kind (codes "memory")
    then some (cwl_value ++ codes "Mi")
    else none

abbrev pub Bounds : Type 0
Bounds = TextDict (TextDict Text)

abbrev pub requests : Text
requests = codes "requests"

abbrev pub limits : Text
limits = codes "limits"

abbrev pub gpu : Text
gpu = codes "nvidia.com/gpu"

abbrev or_empty : Option (TextDict Text) → TextDict Text
or_empty none = []
or_empty (some d) = d

-- `bounds[bound][kind] = value`, where a bound that is not there is empty at first.
unfoldable pub put_bound : Text → Text → Text → Bounds → Bounds
unfolding lookup insert
put_bound bound kind value bounds =
    insert bound (insert kind value (or_empty (lookup bound bounds))) bounds

-- An empty value is left out, as None is.
abbrev pub add_resource : Option Text → Option Text → Bounds → Bounds
add_resource none _ bounds = bounds
add_resource (some _) none bounds = bounds
add_resource (some kind) (some value) bounds =
    if is_nil value then bounds else put_bound requests kind value bounds

unfoldable pub add_resources : TextDict Text → Bounds → Bounds
unfolding resource_type resource_value put_bound
add_resources [] bounds = bounds
add_resources ((field, value) ∷ resources) bounds =
    add_resources resources
      (add_resource (resource_type field) (resource_value (resource_type field) value) bounds)

unfoldable pub is_cuda : Requirement → Bool
unfolding eq_text
is_cuda r =
    eq_text r.class_name (codes "cwltool:CUDARequirement")
    || eq_text r.class_name (codes "http://commonwl.org/cwltool#CUDARequirement")

abbrev pub with_gpus : Text → Text → TextDict Text → Bounds → Bounds
with_gpus least greatest requested bounds =
    put_bound limits gpu greatest (insert requests (insert gpu least requested) bounds)

-- A KeyError where a count is missing.
abbrev pub with_counts : Option Text → Option Text → TextDict Text → Bounds → Option Bounds
with_counts none _ requested bounds = none
with_counts (some least) none requested bounds = none
with_counts (some least) (some greatest) requested bounds =
    some (with_gpus least greatest requested bounds)

-- A KeyError if there are no requests.
abbrev pub set_gpus : Requirement → Option (TextDict Text) → Bounds → Option Bounds
set_gpus r none bounds = none
set_gpus r (some requested) bounds =
    with_counts r.device_count_min r.device_count_max requested bounds

unfoldable pub add_cuda : List Requirement → Bounds → Option Bounds
unfolding is_cuda put_bound insert lookup
add_cuda [] bounds = some bounds
add_cuda (r ∷ requirements) bounds =
    if is_cuda r
    then elim (set_gpus r (lookup requests bounds) bounds) [
      | none ↦ none
      | some changed ↦ add_cuda requirements changed
    ]
    else add_cuda requirements bounds

unfoldable pub container_resources : PodBuilder → Option Bounds
unfolding add_resources add_cuda
container_resources b = add_cuda b.requirements (add_resources b.resources [])
