-- ===== src/Session/Setup.antt =====
-- `runPodtrace` of cmd/podtrace/main.go: the set-up, its errors, and what is closed at the end.
pub mod Exits
pub mod Pipeline
use podtrace.Prelude.{ℕ, Bool, true, false, Option, none, some, List, [], ◌∷◌, ◌++◌, if◌then◌else◌}
use podtrace.Strings.{Bytes, is_empty}
use podtrace.Tracer.Attach.{Kernel, Probe, Op, Tracer, new_tracer, stop}
use podtrace.Kubernetes.{
  FileSystem, Pod, PodInfo, Resolution, resolved, get_failed, no_containers, invalid_id, no_cgroup,
  panicked, resolve_pod,
}
use podtrace.Kubernetes.Config.{
  Environment, ClientLibrary, Resolver, resolver, no_kubeconfig, no_clientset, new_pod_resolver,
}
use podtrace.Session.{Input, Run, run_normal_mode, run_diagnose_mode}

-- What the program is given: the machine, the cluster and the command line.
pub record World : Type 1 where
  pub library : ClientLibrary
  pub environment : Environment
  -- the client of a clientset, for a namespace and a name
  pub get_pod : ℕ → Bytes → Bytes → Option Pod
  pub files : FileSystem
  pub kernel : Kernel
  pub iterate : List Probe → List Probe
  pub parse_duration : Bytes → Option ℕ
  pub print_duration : ℕ → Bytes
  pub pod_name : Bytes
  pub namespace : Bytes
  pub diagnose_duration : Bytes

-- The errors of `runPodtrace`, and a panic.
pub data Failure : Type 0 where
  resolver_failed : Failure
  resolve_failed : Failure
  tracer_failed : Failure
  bad_duration : Failure
  crashed : Failure

-- How far the program came: what it opened and closed, which cgroup the tracer was attached to, what
-- the mode did, and the error it returns.
pub record Outcome : Type 0 where
  pub log : List Op
  pub attached : Option Bytes
  pub run : Option Run
  pub failure : Option Failure

abbrev pub failing : List Op → Option Bytes → Failure → Outcome
failing log attached f = record { log = log; attached = attached; run = none; failure = some f }

-- The last lines: the mode, by the flag. `now` is the reading of the clock when it begins.
unfoldable pub run_mode : World → ℕ → List Input → Option Run
run_mode w now is =
    if is_empty w.diagnose_duration
    then some (run_normal_mode now is)
    else run_diagnose_mode w.parse_duration w.print_duration w.diagnose_duration now is

-- The deferred `Stop` runs when the mode has returned.
abbrev pub log_of_run : Tracer → Option Run → List Op
log_of_run t none = stop t
log_of_run t (some r) = if r.returned then stop t else []

abbrev pub failure_of_run : Option Run → Option Failure
failure_of_run none = some bad_duration
failure_of_run (some r) = none

-- From `NewTracer` on; `AttachToCgroup` and `Start` do not fail.
unfoldable pub trace_pod : World → PodInfo → ℕ → List Input → Outcome
trace_pod w info now is =
    let tracing = new_tracer w.kernel w.iterate in
    elim tracing.1 [
      | none ↦ failing tracing.0 none tracer_failed
      | some t ↦
          let run = run_mode w now is in
          record {
            log = tracing.0 ++ log_of_run t run;
            attached = some info.cgroup_path;
            run = run;
            failure = failure_of_run run;
          }
    ]

abbrev pub trace_resolved : World → Resolution → ℕ → List Input → Outcome
trace_resolved w (resolved info) now is = trace_pod w info now is
trace_resolved w get_failed now is = failing [] none resolve_failed
trace_resolved w no_containers now is = failing [] none resolve_failed
trace_resolved w invalid_id now is = failing [] none resolve_failed
trace_resolved w no_cgroup now is = failing [] none resolve_failed
trace_resolved w panicked now is = failing [] none crashed

abbrev pub with_resolver : World → Resolver → ℕ → List Input → Outcome
with_resolver w (resolver clientset) now is =
    trace_resolved w (resolve_pod (w.get_pod clientset) w.files w.pod_name w.namespace) now is
with_resolver w (no_kubeconfig path) now is = failing [] none resolver_failed
with_resolver w no_clientset now is = failing [] none resolver_failed

unfoldable pub run_podtrace : World → ℕ → List Input → Outcome
run_podtrace w now is = with_resolver w (new_pod_resolver w.library w.environment) now is
