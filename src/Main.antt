-- ===== src/Main.antt =====
-- calrissian/main.py and calrissian/context.py: a run of the program, from the command line to the
-- clean-up.
pub mod Arguments
pub mod Version
pub mod Cleanup
mod Tests
use calrissian.Prelude.{
  ℕ, Bool, true, false, Option, none, some, List, [], ◌∷◌, ◌++◌, pos, if◌then◌else◌,
}
use calrissian.Text.{Text, codes}
use calrissian.K8s.Effects.{Session, ok as client_ok, err}
use calrissian.K8s.Effects as Client
use calrissian.K8s.Monitor.{Setting, cleanup}
use calrissian.Executor.Resources.{Resources}
use calrissian.Report.{TimelineReport, Result, ok, value_error, type_error}
use calrissian.Report.Timeline.{initialize}
use calrissian.Report.Parser.{Floats, parse_cpu, parse_to_megabytes}
use calrissian.Report.Json.{Summary, timeline_to_dict}
use calrissian.Job.Runner.{RuntimeContext}
use calrissian.Main.Arguments.{
  Value, Parser, Namespace, Home, Parsed, exits_with_success, exits_with_failure, raised, parsed,
  is_set, parse_arguments, Level, get_log_level,
}

-- The state of the process: the client's class, the reporter, the reports that are written, whether
-- the handler of SIGTERM is installed, the level of logging, and the files that output goes to.
pub record Process : Type 0 where
  pub session : Session
  pub reporter : Option TimelineReport
  pub written : List (Text × Summary)
  pub handles_sigterm : Bool
  pub level : Option Level
  pub tees : List Text

-- A call returns the status of the process, exits with one, or raises.
pub data Ending : Type 0 where
  returned exited : ℕ → Ending
  failed : Ending

-- CalrissianRuntimeContext(vars(parsed_args)): an attribute that the class has is set.
unfoldable pub runtime_context : Namespace → RuntimeContext
runtime_context args = record {
  pod_labels = args (codes "pod_labels");
  pod_nodeselectors = args (codes "pod_nodeselectors");
  pod_env_vars = args (codes "pod_env_vars");
  pod_serviceaccount = args (codes "pod_serviceaccount");
  no_match_user = is_set (args (codes "no_match_user"));
  max_gpus = args (codes "max_gpus");
  tool_logs_basepath = args (codes "tool_logs_basepath");
  rm_tmpdir = is_set (args (codes "rm_tmpdir"));
}

-- What the program runs with: files, the command line, the cluster, floats and `int`, and the main
-- function of cwltool, which runs the workflow with an executor of the total resources.
pub record Machine : Type 1 where
  pub home : Home
  pub parser : Parser
  pub cluster : Setting
  pub floats : Floats
  pub units : floats.Float → ℕ
  pub int : Text → Option ℕ
  pub opens : Text → Bool
  pub cwlmain : Resources → RuntimeContext → Process → Ending × Process

-- `delete_pods`, which may raise.
unfoldable pub delete_pods : Setting → Process → Client.Result (Unit {0}) × Process
unfolding cleanup
delete_pods env p =
    let (result, session) = cleanup env p.session in (result, record p { session = session })

abbrev pub unless_raised : Client.Result (Unit {0}) → Ending → Ending
unless_raised (client_ok _) ending = ending
unless_raised (err _) ending = failed

-- `handle_sigterm`, which exits with the number of the signal.
unfoldable pub handle_sigterm : Setting → ℕ → Process → Ending × Process
unfolding delete_pods
handle_sigterm env signum p =
    let (result, after) = delete_pods env p in (unless_raised result (exited signum), after)

abbrev pub write_summary : Text → Result Summary → Process → Option Process
write_summary filename (ok summary) p =
    some (record p { written = p.written ++ (filename, summary) ∷ [] })
write_summary filename value_error p = none
write_summary filename type_error p = none

abbrev pub write_timeline : Text → Option TimelineReport → Process → Option Process
write_timeline filename none p = none
write_timeline filename (some r) p = write_summary filename (timeline_to_dict r) p

module _ (m : Machine) where
  -- `none` is an exception: of opening the file, or of the report.
  unfoldable pub write_report : Text → Process → Option Process
  unfolding timeline_to_dict
  write_report filename p = if m.opens filename then write_timeline filename p.reporter p else none

  abbrev pub int_or_zero : Value → Option ℕ
  int_or_zero none = some 0
  int_or_zero (some []) = some 0
  int_or_zero (some (c ∷ t)) = m.int (c ∷ t)

  abbrev pub text_of : Value → Text
  text_of none = []
  text_of (some t) = t

  abbrev pub tee : Value → List Text
  tee none = []
  tee (some []) = []
  tee (some (c ∷ t)) = (c ∷ t) ∷ []

  unfoldable pub install_tees : Namespace → Process → Process
  install_tees args p = record p {
    tees = p.tees ++ tee (args (codes "stdout")) ++ tee (args (codes "stderr"));
  }

  -- Where writing fails in the clean-up, that is how the process ends.
  abbrev pub unless_failed : Ending × Process → Option Process → Ending × Process
  unless_failed (ending, p) none = (failed, p)
  unless_failed (ending, p) (some written) = (ending, written)

  abbrev pub report_to : Value → Ending × Process → Ending × Process
  report_to none (ending, p) = (ending, p)
  report_to (some []) (ending, p) = (ending, p)
  report_to (some (c ∷ t)) (ending, p) = unless_failed (ending, p) (write_report (c ∷ t) p)

  -- An exception of `delete_pods` leaves the `finally` block before the report.
  abbrev pub then_report :
      Namespace → Ending → Client.Result (Unit {0}) × Process → Ending × Process
  then_report args ending (err _, p) = (failed, p)
  then_report args ending (client_ok _, p) = report_to (args (codes "usage_report")) (ending, p)

  -- The `finally` block.
  unfoldable pub clean_up : Namespace → Ending × Process → Ending × Process
  unfolding delete_pods write_report
  clean_up args (ending, p) = then_report args ending (delete_pods m.cluster p)

  abbrev pub start_executor :
      Namespace
      → Option m.floats.Float
      → Option m.floats.Float
      → Option ℕ
      → Process
      → Ending × Process
  start_executor args none _ _ p = (failed, p)
  start_executor args (some ram) none _ p = (failed, p)
  start_executor args (some ram) (some cores) none p = (failed, p)
  start_executor args (some ram) (some cores) (some gpus) p =
      let total : Resources = record {
        ram = pos (m.units ram);
        cores = pos (m.units cores);
        gpus = pos gpus;
      } in
      let ready : Process = record p {
        reporter = some (initialize (m.units cores) (m.units ram));
        handles_sigterm = true;
      } in
      clean_up args (m.cwlmain total (runtime_context args) ready)

  unfoldable pub run_with : Namespace → Process → Ending × Process
  unfolding get_log_level install_tees parse_to_megabytes parse_cpu initialize runtime_context
      clean_up
  run_with args p =
      start_executor args (parse_to_megabytes m.floats (text_of (args (codes "max_ram"))))
        (parse_cpu m.floats (text_of (args (codes "max_cores"))))
        (int_or_zero (args (codes "max_gpus")))
        (install_tees args (record p { level = some (get_log_level args) }))

  abbrev pub with_parsed : Parsed → Process → Ending × Process
  with_parsed exits_with_success p = (exited 0, p)
  with_parsed exits_with_failure p = (exited 1, p)
  with_parsed raised p = (failed, p)
  with_parsed (parsed args) p = run_with args p

  unfoldable pub main : Process → Ending × Process
  unfolding parse_arguments run_with
  main p = with_parsed (parse_arguments m.home m.parser) p
