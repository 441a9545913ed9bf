-- ===== src/Job/Runner/Frame.antt =====
-- What a job keeps until it finishes (calrissian/job.py).
use calrissian.Prelude.{Bool, true, Option, none, some, List, []}
use calrissian.Text.{Text, codes}
use calrissian.Text.Dict.{TextDict, lookup, update}
use calrissian.K8s.Monitor.{submit_pod}
use calrissian.K8s.Client.{wait_for_completion}
use calrissian.Job.Pod.Build.{Manifest, if_filled}
use calrissian.Job.Runner.{
  Job, JobState, RuntimeContext, VolumeCall, Result, returns, raises, key_error,
}
use calrissian.Job.Runner.Runtime.{
  Host, check_requirements, lift, get_container_image, read_yaml, get_pod_labels,
  get_pod_nodeselectors, get_pod_env_vars, set_env, set_resource, populate_env_vars, setup_gpus,
  setup_kubernetes, add_generated, add_pod_volumes, create_kubernetes_runtime, container_tmpdir,
  cuda, if_any,
}
use calrissian.Job.Runner.Run.{
  Machine, make_dirs_unless_there, make_tmpdir, base_setup, execute_kubernetes_pod,
  wait_for_kubernetes_pod, run_pod,
}
use calrissian.Job.Runner.Keeps.{
  Keeps, IsStable, pure-Keeps, raise-Keeps, or_raise-Keeps, get-Keeps, modify-Keeps, whenever-Keeps,
  either-Keeps, bind-Keeps, on_client-Keeps, bind_volume-Keeps,
  add_emptydir_volume_and_binding-Keeps, perform-Keeps, add_volumes-Keeps,
}

module _ (P : JobState → Type 0) where
  pub lift-Keeps : {A : Type 0} (r : Result A) → Keeps P (lift r)
  lift-Keeps (returns a) = record { runs = λ s p. p }
  lift-Keeps (raises e) = record { runs = λ s p. p }

  pub read_yaml-Keeps :
      (host : Host) (ctx : RuntimeContext) (file : Option Text) → Keeps P (read_yaml host ctx file)
  read_yaml-Keeps host ctx none = pure-Keeps P []
  read_yaml-Keeps host ctx (some file) = or_raise-Keeps P _ (host.yaml file)

  module _ (stable : IsStable P) (host : Host) (ctx : RuntimeContext) (job : Job) where
    check_requirements-Keeps : Keeps P (check_requirements job)
    unfolding check_requirements
    check_requirements-Keeps = either-Keeps P _ _ _ (pure-Keeps P tt) (raise-Keeps P _)

    set_env-Keeps : (k v : Text) → Keeps P (set_env host ctx k v)
    set_env-Keeps k v = modify-Keeps P _ (λ s p. stable.environment s _ p)

    set_resource-Keeps : (k v : Text) → Keeps P (set_resource host ctx k v)
    set_resource-Keeps k v = modify-Keeps P _ (λ s p. stable.resources s _ p)

    populate_env_vars-Keeps : Keeps P (populate_env_vars host ctx job)
    unfolding populate_env_vars get_pod_env_vars
    populate_env_vars-Keeps =
        bind-Keeps P _ _ (set_env-Keeps (codes "HOME") job.builder_outdir) (λ _.
          bind-Keeps P _ _ (set_env-Keeps (codes "TMPDIR") container_tmpdir) (λ _.
            bind-Keeps P _ _ (read_yaml-Keeps host ctx (if_filled ctx.pod_env_vars)) (λ extra.
              modify-Keeps P (λ s. record s { environment = update extra s.environment })
                (λ s p. stable.environment s _ p))))

    setup_gpus-Keeps :
        (fields : Option (TextDict Text)) (gpus : Option Text)
        → Keeps P (setup_gpus host ctx fields gpus)
    setup_gpus-Keeps none gpus = pure-Keeps P tt
    setup_gpus-Keeps (some fields) none = raise-Keeps P _
    setup_gpus-Keeps (some fields) (some gpus) =
        bind-Keeps P _ _ (or_raise-Keeps P key_error (lookup (codes "cudaDeviceCountMin") fields))
          (λ least.
            bind-Keeps P _ _
              (or_raise-Keeps P key_error (lookup (codes "cudaDeviceCountMax") fields))
              (λ greatest.
                bind-Keeps P _ _
                  (set_resource-Keeps (codes "cudaDeviceCount") (host.max least greatest))
                  (λ _.
                    bind-Keeps P _ _ (set_resource-Keeps (codes "cudaDeviceCountMin") least)
                      (λ _. set_resource-Keeps (codes "cudaDeviceCountMax") greatest))))

    setup_kubernetes-Keeps : Keeps P (setup_kubernetes host ctx job)
    unfolding setup_kubernetes
    setup_kubernetes-Keeps =
        setup_gpus-Keeps (if_any (job.get_requirement cuda).0) (if_filled ctx.max_gpus)

    add_generated-Keeps :
        (calls : Option (Bool → List VolumeCall)) → Keeps P (add_generated host ctx job calls)
    add_generated-Keeps none = pure-Keeps P tt
    add_generated-Keeps (some calls) = add_volumes-Keeps P stable host.files job _

    pub add_pod_volumes-Keeps : Keeps P (add_pod_volumes host ctx job)
    unfolding add_pod_volumes
    add_pod_volumes-Keeps = bind-Keeps P _ _ (bind_volume-Keeps P stable _ _ true) (λ _.
        bind-Keeps P _ _ (add_emptydir_volume_and_binding-Keeps P stable _ _) (λ _.
          bind-Keeps P _ _ (add_volumes-Keeps P stable host.files job job.pathmapper)
            (λ _. add_generated-Keeps job.generatemapper)))

    create_kubernetes_runtime-Keeps : Keeps P (create_kubernetes_runtime host ctx job)
    unfolding create_kubernetes_runtime get_pod_labels get_pod_nodeselectors
    create_kubernetes_runtime-Keeps = bind-Keeps P _ _ add_pod_volumes-Keeps (λ _.
        bind-Keeps P _ _ (lift-Keeps (get_container_image job)) (λ image.
          bind-Keeps P _ _ (read_yaml-Keeps host ctx (if_filled ctx.pod_labels)) (λ labels.
            bind-Keeps P _ _ (read_yaml-Keeps host ctx (if_filled ctx.pod_nodeselectors))
              (λ selectors. bind-Keeps P _ _ (get-Keeps P) (λ s. or_raise-Keeps P _ _)))))

  module _ (stable : IsStable P) (m : Machine) (ctx : RuntimeContext) (job : Job) where
    pub make_dirs_unless_there-Keeps :
        (path : Text) → Keeps P (make_dirs_unless_there m ctx job path)
    make_dirs_unless_there-Keeps path =
        bind-Keeps P _ _ (get-Keeps P)
          (λ s. whenever-Keeps P _ _ (perform-Keeps P stable m.host.files _))

    base_setup-Keeps : Keeps P (base_setup m ctx job)
    base_setup-Keeps = bind-Keeps P _ _ (get-Keeps P) (λ s.
        bind-Keeps P _ _ (or_raise-Keeps P _ _)
          (λ files. modify-Keeps P _ (λ s p. stable.files s files p)))

    execute_kubernetes_pod-Keeps : (pod : Manifest) → Keeps P (execute_kubernetes_pod m ctx job pod)
    unfolding execute_kubernetes_pod
    execute_kubernetes_pod-Keeps pod =
        bind-Keeps P _ _ (on_client-Keeps P stable (submit_pod m.cluster (m.render pod)))
          (λ _. pure-Keeps P tt)

    wait_for_kubernetes_pod-Keeps : Keeps P (wait_for_kubernetes_pod m ctx job)
    unfolding wait_for_kubernetes_pod
    wait_for_kubernetes_pod-Keeps = on_client-Keeps P stable (wait_for_completion m.cluster)

    make_tmpdir-Keeps : Keeps P (make_tmpdir m ctx job)
    unfolding make_tmpdir
    make_tmpdir-Keeps = make_dirs_unless_there-Keeps job.tmpdir

    pub run_pod-Keeps : Keeps P (run_pod m ctx job)
    unfolding run_pod
    run_pod-Keeps = bind-Keeps P _ _ (check_requirements-Keeps stable m.host ctx job) (λ _.
        bind-Keeps P _ _ make_tmpdir-Keeps (λ _.
          bind-Keeps P _ _ (populate_env_vars-Keeps stable m.host ctx job) (λ _.
            bind-Keeps P _ _ (setup_kubernetes-Keeps stable m.host ctx job) (λ _.
              bind-Keeps P _ _ base_setup-Keeps (λ _.
                bind-Keeps P _ _ (create_kubernetes_runtime-Keeps stable m.host ctx job) (λ pod.
                  bind-Keeps P _ _ (execute_kubernetes_pod-Keeps pod)
                    (λ _. wait_for_kubernetes_pod-Keeps)))))))
