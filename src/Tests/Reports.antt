-- ===== src/Tests/Reports.antt =====
-- Runs of the CPU usage and of the pod resolver.
use mathlib.Core.List.{Permᴰ}
use podtrace.Prelude.{
  ◌⊎◌, ◌↔◌, ◌-◌, ℕ, ◌+◌, ◌≡◌, ◌≢◌, ◌≤◌, ◌<◌, refl, Bool, true, false, none, some, List, [], ◌∷◌,
  length, take, ltb, if◌then◌else◌, not, ◌*◌, All, sum_by, count_if, arith,
}
use podtrace.Strings.{Bytes, codes, contains, has_prefix, has_suffix_byte}
use podtrace.Float.Fixed.{fixed_float, Fixed-IsOrdered, Fixed-IsExact, Fixed-IsRounded}
use podtrace.Runtime.Insertion.{insertion_runtime, insertion-IsRuntime}
use podtrace.Event.{Event}
use podtrace.Diagnose.Activity.{PidInfo, analyze_process_activity}
use podtrace.Diagnose.Activity.Correct.{IsActivity, analyze_process_activity_lem}
use podtrace.Diagnose.CpuUsage.Threads.{IsListed, IsBracketed, is_kernel_thread_iff}
use podtrace.Diagnose.CpuUsage.{kernel_prefixes, to_lower, is_kernel_thread, CpuUsage, cpu_usage}
use podtrace.Diagnose.CpuUsage.Shown.{shown, infos_of, select, is_kind}
use podtrace.Diagnose.CpuUsage.Rows.{cpu_usage_lem, cpu_usage-all}
use podtrace.Kubernetes.{Visit, FileSystem, Pod, cgroup_bases, resolved, no_cgroup, resolve_pod}
use podtrace.Kubernetes.Search.{first, visited}
use podtrace.Kubernetes.Resolve.{resolve_pod_lem}
use podtrace.Event.Kind
use podtrace.Diagnose.{filter_events}
use podtrace.Diagnose.Report.{Report, tcp_events, detect_issues, generate_report}
use podtrace.Diagnose.Report.Issues.{
  is_failures, failed_connects, slow_operations, detect_issues_lem,
}
use podtrace.Diagnose.Report.There.{events_in}
use podtrace.Diagnose.Report.Complete.{generate_report_lem}
use podtrace.Diagnose.Report.Text.{Printer, report_text}
use podtrace.Diagnose.Report.Text.Outline.{headings}
use podtrace.Diagnose.Report.Text.Complete.{outline, report_text_lem}
use podtrace.Tests.Data.{collector, lookup, accepted, blocked, proc_fs}
use podtrace.Tests.Tracing.{is_free-Lacks}

-- Two events of the pod, and one of a thread of the kernel.
abbrev named : List Event
named =
    record lookup { process_name = codes "postgres" }
    ∷ record blocked { process_name = codes "postgres" }
    ∷ record accepted { process_name = codes "kworker/0:1" }
    ∷ []

cpu_usage_lem_example :
    (u : CpuUsage ℕ) × (infos : List (PidInfo ℕ)) × ((cpu_usage insertion_runtime proc_fs named []
        10_000_000_000).0
      ≡ some u)
    × Permᴰ infos (analyze_process_activity insertion_runtime proc_fs named []).0
    × IsActivity named infos
    × (infos_of u.pod_rows ≡ take 10 (select (is_kind false) infos))
    × (infos_of u.kernel_rows ≡ take 5 (select (is_kind true) infos))
    × (u.more_kernel ≡ length (select (is_kind true) infos) - 5)
cpu_usage_lem_example =
    cpu_usage_lem insertion_runtime insertion-IsRuntime proc_fs named [] 10_000_000_000
      (omega arith)

-- There are no more processes of either kind than events.
at_most_sum :
    (test : PidInfo ℕ → Bool) (infos : List (PidInfo ℕ))
    → All (λ i. 1 ≤ i.count) infos
    → count_if test infos ≤ sum_by (λ i. i.count) infos
at_most_sum test [] h = omega arith
at_most_sum test (i ∷ infos) h = ground (arith, at_most_sum test infos h.1)

few_processes :
    (kernel : Bool)
    → count_if (is_kind kernel) (analyze_process_activity insertion_runtime proc_fs named []).0 ≤ 3
few_processes kernel =
    let right =
      analyze_process_activity_lem insertion_runtime insertion-IsRuntime proc_fs named [] in
    omega (arith, right.complete, at_most_sum (is_kind kernel) _ right.active)

cpu_usage-all_example :
    (u : CpuUsage ℕ) × ((cpu_usage insertion_runtime proc_fs named [] 10_000_000_000).0 ≡ some u)
    × (shown u.pod_rows + shown u.kernel_rows ≡ length named)
    × (u.more_kernel ≡ 0)
cpu_usage-all_example =
    cpu_usage-all insertion_runtime insertion-IsRuntime proc_fs named [] 10_000_000_000
      (omega arith) (omega (arith, few_processes false)) (omega (arith, few_processes true))

abbrev pub pod_visit : Visit
pod_visit = record {
  path = codes "/sys/fs/cgroup/kubepods.slice/pod1/cri-0123456789abcdef.scope";
  readable = true;
}

abbrev slice_visit : Visit
slice_visit = record { path = codes "/sys/fs/cgroup/kubepods.slice"; readable = true }

abbrev pub file_system : FileSystem
file_system = record { exists = λ base. true; walk = λ base. slice_visit ∷ pod_visit ∷ [] }

pub walks_named : (base : Bytes) → All (λ v. v.path ≢ []) (file_system.walk base)
walks_named base = (ground arith, (ground arith, tt))

abbrev pub pod : Pod
pod = record {
  container_ids = codes "containerd://0123456789abcdef" ∷ [];
  container_names = codes "app" ∷ [];
}

resolve_pod_lem_example :
    resolve_pod (λ namespace name. some pod) file_system (codes "db-0") (codes "default")
    ≡ (elim (first
        (contains (take 12 (codes "0123456789abcdef")))
        (visited file_system cgroup_bases)) [
          | none ↦ no_cgroup
          | some path ↦ resolved (record {
            pod_name = codes "db-0";
            namespace = codes "default";
            container_id = codes "0123456789abcdef";
            cgroup_path = path;
            container_name = codes "app";
          })
        ])
resolve_pod_lem_example =
    resolve_pod_lem (λ namespace name. some pod) file_system (codes "db-0") (codes "default") pod
      (codes "containerd") (codes "0123456789abcdef") [] (codes "app") [] refl refl refl
      (is_free-Lacks b':' (codes "containerd") refl)
      (is_free-Lacks b':' (codes "0123456789abcdef") refl) walks_named

known_types : All (λ e. e.type < 8) collector.events
known_types = (
  omega arith,
  (
    omega arith,
    (omega arith, (omega arith, (omega arith, (omega arith, (omega arith, (omega arith, tt)))))),
  ),
)

generate_report_lem_example :
    (p : Report ℕ) × (generate_report insertion_runtime proc_fs [] (λ t. codes "12:00:00") collector
      ≡ some p)
    × (p.total ≡ length collector.events)
    × (events_in p.dns + events_in p.tcp + events_in p.connect + events_in p.fs + events_in p.cpu
        ≡ p.total)
generate_report_lem_example =
    generate_report_lem insertion_runtime Fixed-IsOrdered Fixed-IsExact insertion-IsRuntime proc_fs
      [] (λ t. codes "12:00:00") collector (omega arith) (omega arith) (omega arith) known_types

-- One of two connects failed, and one of two TCP operations was slow.
detect_issues_lem_example :
    (count_if is_failures (detect_issues {F = ℕ} collector.events) ≡ (
      if ltb
        (length (filter_events Kind.connect collector.events))
        (10 * failed_connects collector.events)
      then 1
      else 0))
    × (count_if (λ i. not (is_failures i)) (detect_issues {F = ℕ} collector.events) ≡ (
        if ltb (length (tcp_events collector.events)) (20 * slow_operations collector.events)
        then 1
        else 0))
unfolding filter_events
detect_issues_lem_example =
    detect_issues_lem ℕ Fixed-IsExact Fixed-IsRounded collector.events (omega arith) (omega arith)

abbrev printer : Printer
printer = record { print_duration = λ d. codes "10s"; clock = λ t. codes "12:00:00" }

report_text_lem_example :
    (text : List Bytes) × (report_text insertion_runtime proc_fs [] printer collector ≡ some text)
    × (headings text ≡ outline ℕ printer collector)
    × (length text ≤ 123 + failed_connects collector.events)
report_text_lem_example =
    report_text_lem insertion_runtime Fixed-IsOrdered Fixed-IsExact insertion-IsRuntime proc_fs []
      printer collector (omega arith) (omega arith) known_types

is_kernel_thread_iff_example : (is_kernel_thread (codes "[oom_reaper]") ≡ true) ↔ (
    IsListed kernel_prefixes (to_lower (codes "[oom_reaper]")) ⊎ IsBracketed (codes "[oom_reaper]"))
is_kernel_thread_iff_example = is_kernel_thread_iff (codes "[oom_reaper]")

-- A name in brackets is that of a kernel thread, and so is one with a prefix of the list.
bracketed : is_kernel_thread (codes "[oom_reaper]") ≡ true
unfolding is_kernel_thread has_prefix has_suffix_byte
bracketed = refl

half_bracketed : is_kernel_thread (codes "[oom_reaper") ≡ false
unfolding is_kernel_thread has_prefix has_suffix_byte
half_bracketed = refl

prefixed : is_kernel_thread (codes "KWorker/0:1") ≡ true
unfolding is_kernel_thread has_prefix has_suffix_byte
prefixed = refl
