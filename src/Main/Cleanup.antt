-- ===== src/Main/Cleanup.antt =====
-- What follows a workflow, however it ends (calrissian/main.py): the clean-up and the report.
use mathlib.Core.List.{Mem}
use calrissian.Prelude.{
  ℕ, ◌≡◌, ◌≢◌, refl, sym, ◌⊎◌, inl, inr, Bool-cases, Option, none, some, [], ◌∷◌, ◌++◌, All,
}
use calrissian.Text.{Text, codes}
use calrissian.Retry.{IsTenacity}
use calrissian.K8s.Config.{load_config_get_namespace}
use calrissian.K8s.Monitor.{cleanup}
use calrissian.K8s.Deletion.{cleanup-requests}
use calrissian.Executor.Resources.{Resources}
use calrissian.Report.{TimelineReport, Result, ok, value_error, type_error}
use calrissian.Report.Json.{Summary, timeline_to_dict}
use calrissian.Main.Arguments.{
  Value, Namespace, Parsed, exits_with_success, exits_with_failure, raised, parsed, parse_arguments,
}
use calrissian.Main.{
  Process, Ending, failed, runtime_context, Machine, delete_pods, write_summary, write_timeline,
  write_report, install_tees, unless_failed, report_to, then_report, clean_up, start_executor,
  run_with, with_parsed, main,
}

-- The report is written and the end is that of the workflow.
pub record IsWritten (filename : Text) (before after : Ending × Process) : Type 0 where
  pub timeline : TimelineReport
  pub summary : Summary
  pub reporter : before.1.reporter ≡ some timeline
  pub computed : timeline_to_dict timeline ≡ ok summary
  pub written : after.1.written ≡ before.1.written ++ (filename, summary) ∷ []
  pub ending : after.0 ≡ before.0

-- Nothing is written.
pub record IsUnwritten (ending : Ending) (before after : Ending × Process) : Type 0 where
  pub written : after.1.written ≡ before.1.written
  pub ends : after.0 ≡ ending

-- Without a file for the report the end is that of the workflow. With one the report is written, or the
-- program fails.
abbrev pub Reports : Value → (before after : Ending × Process) → Type 0
Reports none before after = IsUnwritten before.0 before after
Reports (some []) before after = IsUnwritten before.0 before after
Reports (some (c ∷ t)) before after =
    IsWritten (c ∷ t) before after ⊎ IsUnwritten failed before after

pub record CleansUp (args : Namespace) (before after : Ending × Process) : Type 0 where
  pub names : after.1.session.pod_names ≡ []
  pub requested : All (λ name. Mem name after.1.session.requested) before.1.session.pod_names
  pub reports : Reports (args (codes "usage_report")) before after

-- The clean-up raises: no pod is deleted, no report is written, and the program fails.
pub record FailsToCleanUp (before after : Ending × Process) : Type 0 where
  pub session : after.1.session ≡ before.1.session
  pub unwritten : IsUnwritten failed before after

module _ (m : Machine) where
  -- Writing changes neither the client nor, where it fails, anything else.
  write_timeline-Reports :
      (c : ℕ) (t : Text) (ending : Ending) (p q : Process) (r : Option TimelineReport)
      → p.reporter ≡ r
      → q.written ≡ p.written
      → let after = unless_failed m (ending, q) (write_timeline (c ∷ t) r q) in
        (after.1.session ≡ q.session) × Reports (some (c ∷ t)) (ending, p) after
  write_timeline-Reports c t ending p q none e w = (refl, inr (record { written = w; ends = refl }))
  write_timeline-Reports c t ending p q (some r) e w = summarised (timeline_to_dict r) refl
    where
      summarised :
          (s : Result Summary)
          → timeline_to_dict r ≡ s
          → let after = unless_failed m (ending, q) (write_summary (c ∷ t) s q) in
            (after.1.session ≡ q.session) × Reports (some (c ∷ t)) (ending, p) after
      summarised (ok summary) f = (
        refl,
        inl (record {
          timeline = r;
          summary = summary;
          reporter = e;
          computed = f;
          written = rw w refl;
          ending = refl;
        }),
      )
      summarised value_error f = (refl, inr (record { written = w; ends = refl }))
      summarised type_error f = (refl, inr (record { written = w; ends = refl }))

  write_report-Reports :
      (c : ℕ) (t : Text) (ending : Ending) (p q : Process)
      → q.reporter ≡ p.reporter
      → q.written ≡ p.written
      → let after = unless_failed m (ending, q) (write_report m (c ∷ t) q) in
        (after.1.session ≡ q.session) × Reports (some (c ∷ t)) (ending, p) after
  unfolding write_report
  write_report-Reports c t ending p q e w = elim (Bool-cases (m.opens (c ∷ t))) [
    | inl opens ↦ rw opens (write_timeline-Reports c t ending p q q.reporter (sym e) w)
    | inr fails ↦ rw fails (refl, inr (record { written = w; ends = refl }))
  ]

  report_to-Reports :
      (file : Value) (ending : Ending) (p q : Process)
      → q.reporter ≡ p.reporter
      → q.written ≡ p.written
      → let after = report_to m file (ending, q) in
        (after.1.session ≡ q.session) × Reports file (ending, p) after
  report_to-Reports none ending p q e w = (refl, record { written = w; ends = refl })
  report_to-Reports (some []) ending p q e w = (refl, record { written = w; ends = refl })
  report_to-Reports (some (c ∷ t)) ending p q e w = write_report-Reports c t ending p q e w

  module _ (laws : IsTenacity m.cluster.tenacity) where
    -- The clean-up raises exactly if the configuration of its client cannot be loaded.
    abbrev pub Finishes : Namespace → (before after : Ending × Process) → Type 0
    Finishes args before after =
        ((load_config_get_namespace m.cluster.config ≡ none) × FailsToCleanUp before after)
        ⊎ ((load_config_get_namespace m.cluster.config ≢ none) × CleansUp args before after)

    clean_up-Finishes :
        (args : Namespace) (ending : Ending) (p : Process)
        → Finishes args (ending, p) (clean_up m args (ending, p))
    unfolding clean_up delete_pods
    clean_up-Finishes args ending p =
        let q : Process = record p { session = (cleanup m.cluster p.session).1 } in
        elim (cleanup-requests m.cluster p.session laws) [
          | inl refused ↦ inl (
            refused.config,
            rw (refused.raised, then_report)
                (record {
                  session = refused.same;
                  unwritten = record { written = refl; ends = refl };
                }),
          )
          | inr (loads, cleaned) ↦
              let (same, reports) =
                report_to-Reports (args (codes "usage_report")) ending p q refl refl in
              inr (
                loads,
                rw (cleaned.returned, then_report)
                    (record {
                      names = rw same cleaned.names;
                      requested = rw same cleaned.requested;
                      reports = reports;
                    }),
              )
        ]

    -- What a run is: nothing starts, or the workflow is run and cleaned up after.
    abbrev pub Runs : Process → Ending × Process → Type 0
    Runs p after =
        (after.1.session ≡ p.session)
        ⊎ ((args : Namespace) × (total : Resources) × (ready : Process) × (parse_arguments m.home
                m.parser
              ≡ parsed args)
            × (ready.session ≡ p.session)
            × Finishes args (m.cwlmain total (runtime_context args) ready) after)

    start_executor-Runs :
        (args : Namespace) (ram cores : Option m.floats.Float) (gpus : Option ℕ) (p : Process)
        → parse_arguments m.home m.parser ≡ parsed args
        → Runs p (start_executor m args ram cores gpus p)
    start_executor-Runs args none cores gpus p e = inl refl
    start_executor-Runs args (some ram) none gpus p e = inl refl
    start_executor-Runs args (some ram) (some cores) none p e = inl refl
    start_executor-Runs args (some ram) (some cores) (some gpus) p e =
        inr (args, _, _, e, refl, clean_up-Finishes args _ _)

    run_with-Runs :
        (args : Namespace) (p : Process)
        → parse_arguments m.home m.parser ≡ parsed args
        → Runs p (run_with m args p)
    unfolding run_with install_tees
    run_with-Runs args p e = start_executor-Runs args _ _ _ _ e

    with_parsed-Runs :
        (r : Parsed) (p : Process)
        → parse_arguments m.home m.parser ≡ r
        → Runs p (with_parsed m r p)
    with_parsed-Runs exits_with_success p e = inl refl
    with_parsed-Runs exits_with_failure p e = inl refl
    with_parsed-Runs raised p e = inl refl
    with_parsed-Runs (parsed args) p e = run_with-Runs args p e

    -- Where the laws of tenacity hold, either the program ends before the workflow starts, and has
    -- called nothing of the cluster, or the workflow is run and, however it ends, its clean-up
    -- follows. Where the configuration of a client cannot be loaded, the clean-up raises: nothing
    -- is deleted or written, and the program fails. Otherwise the deletion of every pod that is
    -- still listed is requested, the list is empty, and where a report is asked for it is written,
    -- or the program fails. Else the program ends as the workflow does.
    pub main-Runs : (p : Process) → Runs p (main m p)
    unfolding main
    main-Runs p = with_parsed-Runs (parse_arguments m.home m.parser) p refl
