-- ===== src/Executor/Select.antt =====
-- ThreadPoolJobExecutor.select_resources (calrissian/executor.py).
use calrissian.Prelude.{
  ◌≡◌, refl, ◌⊎◌, inl, inr, Bool-cases, ℤ, pos, Option, none, some, arith, if◌then◌else◌,
}
use calrissian.Dict.{Dict}
use calrissian.Executor.Resources.{Resources, exceeds, min, to_dict}
use calrissian.Executor.Resources.Order.{Within, exceeds_iff}

-- The request of a tool, where cwltool leaves out the CUDA devices if none are asked for.
pub record Request : Type 0 where
  pub ram_min : ℤ
  pub ram_max : ℤ
  pub cores_min : ℤ
  pub cores_max : ℤ
  pub cuda_device_count_min : Option ℤ
  pub cuda_device_count_max : Option ℤ

abbrev or_zero : Option ℤ → ℤ
or_zero none = pos 0
or_zero (some n) = n

abbrev pub requested_min : Request → Resources
requested_min r = record {
  ram = r.ram_min;
  cores = r.cores_min;
  gpus = or_zero r.cuda_device_count_min;
}

abbrev pub requested_max : Request → Resources
requested_max r = record {
  ram = r.ram_max;
  cores = r.cores_max;
  gpus = or_zero r.cuda_device_count_max;
}

-- None is the WorkflowException.
unfoldable pub select_resources : Resources → Request → Option (Dict ℤ)
unfolding exceeds min to_dict
select_resources total r =
    if exceeds (requested_min r) total then none else some (to_dict (min (requested_max r) total))

min-Within :
    (a b c : Resources)
    → Within a b
    → Within a c
    → Within a (min b c) × Within (min b c) b × Within (min b c) c
unfolding min
min-Within a b c h k = ground arith

-- A request whose least amounts are not within the whole is refused. Otherwise, if its least amounts
-- are at most its greatest, what is selected lies between the two and within the whole.
pub select_resources-Within :
    (total : Resources) (r : Request)
    → Within (requested_min r) (requested_max r)
    → ((select_resources total r ≡ none) × ¬ Within (requested_min r) total)
      ⊎ ((selected : Resources) × (select_resources total r ≡ some (to_dict selected))
          × Within (requested_min r) selected
          × Within selected (requested_max r)
          × Within selected total)
unfolding select_resources
select_resources-Within total r h =
    let least = requested_min r in
    elim (Bool-cases (exceeds least total)) [
      | inl over ↦ rw over (inl (refl, (λ w. let e = (exceeds_iff least total).1 w in cc)))
      | inr fits ↦
          let within = (exceeds_iff least total).0 fits in
          let (low, high, all) = min-Within least (requested_max r) total h within in
          rw fits (inr (min (requested_max r) total, refl, low, high, all))
    ]
