-- ===== src/Job/Runner/Environment.antt =====
-- The environment that a job gives to its pod (calrissian/job.py).
use mathlib.Core.Option.{some-injective}
use calrissian.Prelude.{◌≡◌, refl, subst, ◌∙◌, ap, Option, none, some, List, [], if◌then◌else◌}
use calrissian.Text.{Text, codes, eq_text}
use calrissian.Text.Dict.{
  TextDict, lookup, insert, update, last_value, or_value, lookup-insert_cases, lookup-update,
}
use calrissian.Job.Pod.Build.{if_filled}
use calrissian.Job.Runner.{Job, JobState, RuntimeContext, modify, ◌>>=◌}
use calrissian.Job.Runner.Runtime.{
  Host, read_yaml, get_pod_env_vars, populate_env_vars, container_tmpdir,
}

-- The variables of the file that the run was given, if that can be read.
abbrev pub given : Host → Option Text → Option (List (Text × Text))
given host none = some []
given host (some file) = host.yaml file

-- A variable without the file.
abbrev pub preset : Job → TextDict Text → Text → Option Text
preset job before k =
    if eq_text (codes "TMPDIR") k
    then some container_tmpdir
    else if eq_text (codes "HOME") k
    then some job.builder_outdir
    else lookup k before

preset_lem :
    (job : Job) (before : TextDict Text) (k : Text)
    → lookup k
        (insert (codes "TMPDIR") container_tmpdir (insert (codes "HOME") job.builder_outdir before))
      ≡ preset job before k
preset_lem job before k =
    rw
      (
        lookup-insert_cases k (codes "TMPDIR") container_tmpdir
            (insert (codes "HOME") job.builder_outdir before),
        lookup-insert_cases k (codes "HOME") job.builder_outdir before,
      )
      refl

nothing_given :
    (k : Text) (d : TextDict Text) → lookup k d ≡ or_value (last_value k []) (lookup k d)
unfolding last_value
nothing_given k d = refl

-- The last step, on an environment that has the two variables.
update_read :
    (host : Host) (ctx : RuntimeContext) (s : JobState) (pairs : List (Text × Text))
    → (file : Option Text) → given host file ≡ some pairs
    → (k : Text)
    → lookup k
        ((read_yaml host ctx file >>= λ extra.
            modify (λ t. record t { environment = update extra t.environment }))
          s).1.environment
      ≡ or_value (last_value k pairs) (lookup k s.environment)
unfolding update
update_read host ctx s pairs none e k =
    let empty : List (Text × Text) = [] in
    subst (λ pairs. lookup k s.environment ≡ or_value (last_value k pairs) (lookup k s.environment))
      (some-injective empty pairs e) (nothing_given k s.environment)
update_read host ctx s pairs (some file) e k = rw e (lookup-update k pairs s.environment)

-- Where the file of variables can be read, a variable is what the file says last. Else HOME is the
-- builder's outdir and TMPDIR is /tmp, and any other variable is as it was.
pub lookup-populate_env_vars :
    (host : Host) (ctx : RuntimeContext) (job : Job) (s : JobState) (pairs : List (Text × Text))
    → given host (if_filled ctx.pod_env_vars) ≡ some pairs
    → (k : Text)
    → lookup k (populate_env_vars host ctx job s).1.environment
      ≡ or_value (last_value k pairs) (preset job s.environment k)
unfolding populate_env_vars get_pod_env_vars
lookup-populate_env_vars host ctx job s pairs e k =
    update_read host ctx _ pairs (if_filled ctx.pod_env_vars) e k
    ∙ ap (λ v. or_value (last_value k pairs) v) (preset_lem job s.environment k)
