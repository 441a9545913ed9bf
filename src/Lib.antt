-- ===== src/Lib.antt =====
-- Calrissian runs CWL workflows on a Kubernetes cluster: the steps of a workflow are jobs, and each
-- job that runs is a pod. This library models the package `calrissian` (calrissian/*.py).
--
-- The parts and how they interact. `ThreadPoolJobExecutor` (calrissian/executor.py) takes jobs from
-- the iterator of the workflow into a `JobResourceQueue`, takes those that fit in the resources that
-- are left, and submits them to a pool of threads. A thread runs a job, which builds volumes and a pod
-- (calrissian/job.py), submits the pod with `KubernetesClient` and waits for its completion
-- (calrissian/k8s.py, calrissian/retry.py), and adds a report to the timeline
-- (calrissian/report.py). When a future is done its callback gives the resources back.
-- `main` (calrissian/main.py) reads the arguments, makes the executor, runs the workflow, and deletes the
-- pods that are left and writes the report.
--
-- Shared: Prelude, Dict and Sort; Text, a text as its code points, with Text/Dict, Text/Decimal (`str`
-- of a number) and Text/Suffix.
--
-- Executor (calrissian/executor.py)
--   Executor/Resources: `Resources`, with the field-wise operations and comparisons; Order their laws.
--   Executor/JobQueue: `JobResourceQueue`; Greedy and Partition hold the lemmas on `dequeue` and
--   Laws what follows for the queue.
--   Executor/Effects: the state of `ThreadPoolJobExecutor` (`System`) and the results of its methods.
--   Executor/Pool: the threads of the pool and `job_done_callback`.
--   Executor/Loop: the main thread, from `raise_if_exception_queued` to `run_jobs`.
--   Executor/Select: `select_resources`.
--   Executor/Jobs: the jobs that are submitted and queued; Waits for the calls that leave them, Holds for
--   those that move them, Run for a whole run.
--   Executor/Invariant: the invariant of the resources; Workers and Events for the threads, Taken and
--   Start for starting jobs, Calls and MainThread for the whole run, End for the state when it returns.
--   Executor/Progress: runs end; Futures and Waits for the waiting calls, Rounds and Drain for
--   `drain_queue`, Run for the whole run. Prompt is a world in which every job ends at once.
-- An amount is a whole multiple of a unit as small as it takes, as every Python number is.
-- Python's rounding of sums and differences is a parameter (`round` of the state), and the
-- invariant says that nothing is rounded between minus the whole and the whole: so it is for
-- integers, and for floats that are multiples of a power of two with 53 bits to spare.
-- Executor/Rounding has runs in which doubles are rounded. A run is a function of the state. What
-- other threads do is a `World`, any function from a clock and the pool to the events that happen
-- at a preemption point: a job starts, a job finishes, waiters are told, a callback runs. As in
-- concurrent.futures a future is done before its callback has run. The lock of the executor makes
-- a method one step, so that preemption points stand between such steps and inside waits. `fuel`
-- is the number of rounds of each waiting loop that are observed, and a run that is not over by
-- then has the result `waits`. Where the threads settle what was submitted within a number of
-- points (`IsTimely`), the fuel that is enough is that number for each job, and once more. The
-- number of workers and logging are not modelled, and an exception is its kind and its text.
--
-- K8s (calrissian/k8s.py) and Retry (calrissian/retry.py)
--   Retry: `retry_exponential_if_exception_type`. The tenacity package is a parameter `Tenacity` with
--   the documented rule `IsTenacity`; Retry/Bounded is a function that obeys it, and Retry/Rule a
--   proof rule for retried actions; Retry/Count bounds the calls that they make.
--   K8s/Effects: the pods and events of the Kubernetes API that are used, and the state of
--   `KubernetesClient` with that of `PodMonitor` (`Session`).
--   K8s/Monitor: `PodMonitor`, `submit_pod` and `delete_pod_name`.
--   K8s/Client: `wait_for_completion` and what it calls, `get_current_pod`.
--   K8s/Submission, K8s/Deletion, K8s/Calls and K8s/Completion: proofs.
-- The API of the cluster is a parameter that answers the n-th call. Timestamps and decoded log lines
-- come from it. A block under the lock of `PodMonitor` is one step. K8s/Config says which namespace a
-- client uses; what its API is configured with is part of the API.
--
-- Job (calrissian/job.py)
--   Job/Volumes: `KubernetesPodVolumeInspector` and `KubernetesVolumeBuilder`. A text is a list of
--   code points; `none` is the exception of a method that raises one.
--   Job/Volumes/Invariant, Reach and Paths: proofs.
--   Job/Pod: `k8s_safe_name` and the names, commands and init containers of `KubernetesPodBuilder`;
--   Pod/Resources its `container_resources`, and Pod/Build the rest of the manifest and `build`.
--   Pod/Names and Pod/Gpus hold proofs.
-- Quoting for the shell, the random tag and the image of init containers are arguments.
--   Job/Runner: the state of `CalrissianCommandLineJob` and its calls, which may raise.
--   Runner/Bindings: the methods that `add_volumes` of cwltool calls; Runner/Runtime: requirements, the
--   environment, the labels and `create_kubernetes_runtime`; Runner/Run: `finish` and `run`.
--   Runner/Keeps: a proof rule for its calls; Runner/Frame: what all of them keep until a job finishes.
--   Runner/Mounts, Outcome, Total, Protects and Environment: proofs. Protects has the steps that a
--   job may take while its volumes are added, as a relation that the methods refine. Runner/Sample is
--   the job of the tests.
-- cwltool's part in a job is a parameter: the list of calls that `add_volumes` makes, its `_setup` and
-- `collect_outputs`, its output callback, which may raise, and what requirements it finds. The file system answers by what was done to it.
--
-- Report (calrissian/report.py)
--   Report: `TimedReport`, `TimedResourceReport` and the totals of `TimelineReport`.
--   Report/Timeline: adding reports, and `Reporter`; Span holds the proofs on the times.
--   Report/Parallel: `Event`, the processors and `_walk`; Sums, Loop and Peak hold the proofs.
--   Report/Parser: `ResourceParser` and its subclasses; RoundTrip holds the proofs, which join them with
--   what the pod builder writes.
--   Report/Area: the totals as sums over the ticks.
--   Report/Create: `TimedResourceReport.create`.
--   Report/Json: the dicts that `write_report` writes; Total holds the proof that they can be computed.
-- A time is a number of ticks and hours are in ticks too; CPUs and memory are natural numbers in a
-- fixed unit, to which a function takes floats. Floats are a parameter `Floats`, of which it is said
-- only that `float` reads decimal digits.
--
-- Tool (calrissian/tool.py)
--   Tool: `make_job_runner` and `calrissian_make_tool`; Image joins them with `_get_container_image`.
-- `get_requirement` and `find_default_container` of cwltool are parameters.
--
-- Main (calrissian/main.py, calrissian/context.py, calrissian/version.py)
--   Main/Arguments: `parse_arguments` and `get_log_level`; Precedence says which value counts. A
--   value is a text or None, and other JSON values are not modelled.
--   Main: `CalrissianRuntimeContext`, `write_report`, `handle_sigterm` and `main`; Cleanup is about its
--   `finally` block. Main/Version is the version that is printed. The main function of cwltool is a
--   parameter, any function of the state.
--
-- Not modelled: the base classes of cwltool, whose calls and results are parameters. Locks hold over
-- steps, and logging and printing are left out.
pub mod Prelude
pub mod Dict
pub mod Text
pub mod Sort
pub mod Executor
pub mod Retry
pub mod K8s
pub mod Job
pub mod Report
pub mod Tool
pub mod Main
