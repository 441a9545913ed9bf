-- ===== src/Job/Runner/Total.antt =====
-- Why a job whose pod has completed may raise (calrissian/job.py).
use calrissian.Prelude.{◌≡◌, false, none, some}
use calrissian.Text.{Text}
use calrissian.K8s.Effects.{CompletionResult}
use calrissian.Report.Create.{create}
use calrissian.Job.Runner.{Job, JobState, RuntimeContext, FileOp, make_dirs, write_lines, Outputs}
use calrissian.Job.Runner.Run.{Machine, total_size, status_of, output_callback}

-- The operations that write the logs of the tool.
abbrev pub WritesLogs : FileOp → Type 0
WritesLogs (make_dirs _) = Unit
WritesLogs (write_lines _ _) = Unit
WritesLogs _ = ⊥

-- Why a job that started in `s`, and whose pod has completed, has raised in `s'`.
pub data Cause (m : Machine) (job : Job) (result : CompletionResult) (s s' : JobState)
    : Type 0 where
  not_written :
      (op : FileOp)
      → WritesLogs op
      → m.host.files.succeeds s'.files op ≡ false
      → Cause m job result s s'
  not_collected :
      m.collect_outputs s'.files job.outdir result.exit_code ≡ none → Cause m job result s s'
  not_parsed :
      (outputs : Outputs)
      → m.collect_outputs s'.files job.outdir result.exit_code ≡ some outputs
      → create m.floats m.units job.name result (total_size outputs.sizes) ≡ none
      → Cause m job result s s'
  no_timeline : s.reporter ≡ none → Cause m job result s s'
  refused :
      (outputs : Outputs)
      → m.collect_outputs s'.files job.outdir result.exit_code ≡ some outputs
      → m.output_callback s.callbacks outputs (status_of job result.exit_code) ≡ none
      → Cause m job result s s'

module _ (m : Machine) (ctx : RuntimeContext) (job : Job) (result : CompletionResult)
    (s : JobState) where
  abbrev Caused : JobState → Type 0
  Caused = Cause m job result s

  -- The outputs are those that are collected from the files.
  abbrev AreCollected : Outputs → JobState → Type 0
  AreCollected outputs u = m.collect_outputs u.files job.outdir result.exit_code ≡ some outputs
