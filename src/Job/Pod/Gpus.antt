-- ===== src/Job/Pod/Gpus.antt =====
-- The GPUs that the container of a pod asks for (calrissian/job.py).
use calrissian.Prelude.{
  ◌≡◌, ◌≢◌, Bool, true, false, not, ◌&&◌, ◌||◌, ◌⊎◌, Option, none, some, List, [], ◌∷◌,
}
use calrissian.Text.{Text}
use calrissian.Text.Dict.{TextDict, lookup}
use calrissian.Job.Pod.{Requirement}
use calrissian.Job.Pod.Resources.{Bounds, requests, limits, gpu, is_cuda}

abbrev is_some : Option Text → Bool
is_some none = false
is_some (some _) = true

abbrev pub gpu_in : Option (TextDict Text) → Option Text
gpu_in none = none
gpu_in (some d) = lookup gpu d

-- The number of GPUs under `requests` or `limits`.
abbrev pub gpus_of : Text → Bounds → Option Text
gpus_of bound bounds = gpu_in (lookup bound bounds)

-- A requirement that asks for CUDA devices has both counts.
abbrev pub states_counts : Requirement → Bool
states_counts r = not (is_cuda r) || (is_some r.device_count_min && is_some r.device_count_max)

abbrev pub all_state_counts : List Requirement → Bool
all_state_counts [] = true
all_state_counts (r ∷ requirements) = states_counts r && all_state_counts requirements

abbrev pub HasGpus : Requirement → Bounds → Type 0
HasGpus r bounds =
    (gpus_of requests bounds ≡ r.device_count_min) × (gpus_of limits bounds ≡ r.device_count_max)

-- Setting the counts fails exactly where nothing is requested, or a count is missing.
abbrev Sets : Requirement → Bounds → Option Bounds → Type 0
Sets r bounds result =
    ((result ≡ none) × ((lookup requests bounds ≡ none) ⊎ (states_counts r ≡ false)))
    ⊎ ((after : Bounds) × (result ≡ some after)
        × (lookup requests bounds ≢ none)
        × (states_counts r ≡ true)
        × (lookup requests after ≢ none)
        × HasGpus r after)

-- What requirements, the last of which is `r`, leave, or fail with.
abbrev pub Outcome : List Requirement → Requirement → Bounds → Option Bounds → Type 0
Outcome requirements r bounds result =
    ((result ≡ none) × ((lookup requests bounds ≡ none) ⊎ (all_state_counts requirements ≡ false)))
    ⊎ ((after : Bounds) × (result ≡ some after)
        × (lookup requests bounds ≢ none)
        × (all_state_counts requirements ≡ true)
        × HasGpus r after)
