-- ===== src/Job/Runner/Outcome.antt =====
-- How a job ends: what it reports and what its output callback is called with (calrissian/job.py).
use calrissian.Prelude.{
  ◌≡◌, refl, subst, Bool, true, false, Option-cases, inl, inr, ◌⊎◌, Option, none, some, [], ◌∷◌,
  ◌++◌,
}
use calrissian.Text.{Text}
use calrissian.K8s.Effects.{CompletionResult}
use calrissian.Report.{TimedResourceReport, TimelineReport}
use calrissian.Report.Create.{create}
use calrissian.Report.Timeline.{reporter_add_report}
use calrissian.Job.Pod.Build.{if_filled}
use calrissian.Job.Runner.{
  Job, JobState, RuntimeContext, Outputs, Result, returns, raises, Method, whenever, base_error,
}
use calrissian.Job.Runner.Run.{
  Machine, total_size, status_of, dump_to, dump_tool_logs, report, remove_stagedir, finish, run,
  remove, output_callback,
}
use calrissian.Job.Runner.Keeps.{
  Ends, Meets, in_turn, Keeps, IsStable, pure-Keeps, or_raise-Keeps, get-Keeps, bind-Keeps,
  perform-Keeps,
}
use calrissian.Job.Runner.Frame.{run_pod-Keeps, make_dirs_unless_there-Keeps}

-- Nothing is reported and no callback is called.
pub record IsSilent (s s' : JobState) : Type 0 where
  pub callbacks : s'.callbacks ≡ s.callbacks
  pub reporter : s'.reporter ≡ s.reporter

-- One report of the completion is added to the timeline, and the callback is called once, with the
-- outputs and the status that the exit code stands for.
pub record HasFinished (m : Machine) (job : Job) (s s' : JobState) : Type 0 where
  pub result : CompletionResult
  pub outputs : Outputs
  pub row : TimedResourceReport
  pub timeline : TimelineReport
  pub created : create m.floats m.units job.name result (total_size outputs.sizes) ≡ some row
  pub added : reporter_add_report row s.reporter ≡ some timeline
  pub reporter : s'.reporter ≡ some timeline
  pub callbacks : s'.callbacks ≡ s.callbacks ++ (outputs, status_of job result.exit_code) ∷ []

-- The callback has raised, after the report was added.
pub record RaisedInCallback (m : Machine) (job : Job) (s s' : JobState) : Type 0 where
  pub finished : HasFinished m job s s'
  pub refused :
      m.output_callback s.callbacks finished.outputs (status_of job finished.result.exit_code)
      ≡ none

pub IsSilent-IsStable : (s : JobState) → IsStable (IsSilent s)
IsSilent-IsStable s = record {
  session = λ t x p. record { callbacks = p.callbacks; reporter = p.reporter };
  environment = λ t x p. record { callbacks = p.callbacks; reporter = p.reporter };
  resources = λ t x p. record { callbacks = p.callbacks; reporter = p.reporter };
  files = λ t x p. record { callbacks = p.callbacks; reporter = p.reporter };
  volumes = λ t b step p. record { callbacks = p.callbacks; reporter = p.reporter };
}

module _ (m : Machine) (ctx : RuntimeContext) (job : Job) (s : JobState) where
  -- The state once the report is added.
  record HasReported (result : CompletionResult) (outputs : Outputs) (t : JobState) : Type 0 where
    row : TimedResourceReport
    timeline : TimelineReport
    created : create m.floats m.units job.name result (total_size outputs.sizes) ≡ some row
    added : reporter_add_report row s.reporter ≡ some timeline
    reporter : t.reporter ≡ some timeline
    callbacks : t.callbacks ≡ s.callbacks

  dump_to-Keeps :
      (basepath : Option Text) (result : CompletionResult)
      → Keeps (IsSilent s) (dump_to m ctx job basepath result)
  dump_to-Keeps none result = pure-Keeps (IsSilent s) tt
  dump_to-Keeps (some basepath) result =
      let stable = IsSilent-IsStable s in
      bind-Keeps (IsSilent s) _ _
        (make_dirs_unless_there-Keeps (IsSilent s) stable m ctx job basepath)
        (λ _. perform-Keeps (IsSilent s) stable m.host.files _)

  dump_tool_logs-Keeps :
      (result : CompletionResult) → Keeps (IsSilent s) (dump_tool_logs m ctx job result)
  unfolding dump_tool_logs
  dump_tool_logs-Keeps result = dump_to-Keeps (if_filled ctx.tool_logs_basepath) result

  report-HasReported :
      (result : CompletionResult) (outputs : Outputs)
      → Meets
          (IsSilent s)
          (report m ctx job result (total_size outputs.sizes))
          (λ _. HasReported result outputs)
          (IsSilent s)
  unfolding report
  report-HasReported result outputs = record {
    runs = λ t p.
        elim (Option-cases (create m.floats m.units job.name result (total_size outputs.sizes))) [
          | inl e ↦ rw (e, Ends) p
          | inr (row, e) ↦ elim (Option-cases (reporter_add_report row t.reporter)) [
            | inl none_there ↦ rw (e, none_there, Ends) p
            | inr (timeline, there) ↦
                rw (e, there, Ends)
                  (record {
                    row = row;
                    timeline = timeline;
                    created = e;
                    added = subst (λ r. reporter_add_report row r ≡ some timeline) p.reporter there;
                    reporter = refl;
                    callbacks = p.callbacks;
                  })
          ]
        ];
  }

  -- What is known of the state after an exception: it came first, or out of the callback.
  abbrev pub HasFailed : JobState → Type 0
  HasFailed t = IsSilent s t ⊎ RaisedInCallback m job s t

  silent :
      {A : Type 0} {P : JobState → Type 0} {call : Method A} {Q : A → JobState → Type 0}
      → Meets P call Q (IsSilent s)
      → Meets P call Q HasFailed
  silent {call = call} {Q = Q} h = record { runs = λ t p. raised Q (call t) (h.runs t p) }
    where
      raised :
          {A : Type 0} (Q : A → JobState → Type 0) (r : Result A × JobState)
          → Ends Q (IsSilent s) r
          → Ends Q HasFailed r
      raised Q (returns a, t) h = h
      raised Q (raises e, t) h = inl h

  output_callback-HasFinished :
      (result : CompletionResult) (outputs : Outputs)
      → Meets
          (HasReported result outputs)
          (output_callback m ctx job outputs (status_of job result.exit_code))
          (λ _. HasFinished m job s)
          HasFailed
  output_callback-HasFinished result outputs = record {
    runs = λ t p.
        let status = status_of job result.exit_code in
        let finished : HasFinished m job s
            (record t { callbacks = t.callbacks ++ (outputs, status) ∷ [] }) =
          record {
            result = result;
            outputs = outputs;
            row = p.row;
            timeline = p.timeline;
            created = p.created;
            added = p.added;
            reporter = p.reporter;
            callbacks = rw p.callbacks refl;
          } in
        elim (Option-cases (m.output_callback t.callbacks outputs status)) [
          | inl e ↦
              rw (e, Ends)
                (inr (record {
                  finished = finished;
                  refused = subst (λ c. m.output_callback c outputs status ≡ none) p.callbacks e;
                }))
          | inr (_, e) ↦ rw (e, Ends) finished
        ];
  }

  -- Cleaning up changes files only, and does not raise.
  after_removal :
      (t : JobState) (path : Text)
      → HasFinished m job s t
      → HasFinished m job s (remove m ctx job path t).1
  after_removal t path p = record {
    result = p.result;
    outputs = p.outputs;
    row = p.row;
    timeline = p.timeline;
    created = p.created;
    added = p.added;
    reporter = p.reporter;
    callbacks = p.callbacks;
  }

  whenever_removed :
      (b : Bool) (path : Text)
      → Meets
          (HasFinished m job s)
          (whenever b (remove m ctx job path))
          (λ _. HasFinished m job s)
          HasFailed
  whenever_removed true path = record { runs = λ t p. after_removal t path p }
  whenever_removed false path = record { runs = λ t p. p }

  remove_stagedir-HasFinished :
      (stagedir : Option Text)
      → Meets
          (HasFinished m job s)
          (remove_stagedir m ctx job stagedir)
          (λ _. HasFinished m job s)
          HasFailed
  remove_stagedir-HasFinished none = record { runs = λ t p. p }
  remove_stagedir-HasFinished (some path) = record {
    runs = λ t p. (whenever_removed (m.host.files.exists t.files path) path).runs t p;
  }

  finish-HasFinished :
      (result : CompletionResult)
      → Meets (IsSilent s) (finish m ctx job result) (λ _. HasFinished m job s) HasFailed
  unfolding finish
  finish-HasFinished result = in_turn _ _ (silent (dump_tool_logs-Keeps result)) (λ _.
      in_turn _ _ (silent (get-Keeps (IsSilent s))) (λ t.
        in_turn _ _
          (silent (
            or_raise-Keeps (IsSilent s) base_error
              (m.collect_outputs t.files job.outdir result.exit_code)))
          (λ outputs. in_turn _ _ (silent (report-HasReported result outputs)) (λ _.
            in_turn _ _ (output_callback-HasFinished result outputs) (λ _.
              in_turn _ _ (remove_stagedir-HasFinished job.stagedir)
                (λ _. whenever_removed ctx.rm_tmpdir job.tmpdir))))))

  -- A run of a job that returns has added one report to the timeline and called the output
  -- callback once, with the status of the exit code. A run that raises has done neither, unless it
  -- is the callback that raised: then both have been done.
  pub run-HasFinished : Ends (λ _ s'. HasFinished m job s s') HasFailed (run m ctx job s)
  unfolding run
  run-HasFinished =
      let both : Meets (IsSilent s) (run m ctx job) (λ _. HasFinished m job s) HasFailed =
        in_turn _ _ (silent (run_pod-Keeps (IsSilent s) (IsSilent-IsStable s) m ctx job))
          finish-HasFinished in
      both.runs s (record { callbacks = refl; reporter = refl })
