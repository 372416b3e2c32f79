-- ===== src/Tests/Program.antt =====
-- A run of the whole program, from the records to the report.
use mathlib.Core.Option.{some-ne-none}
use podtrace.Prelude.{◌≡◌, refl, ◌∙◌, sym, some, List, [], ◌∷◌, ◌++◌, take, All, arith}
use podtrace.Strings.{
  codes, bytes_eq, has_prefix, contains, trim_space, trim_left, trim_right, trim_prefix,
  trim_suffix_byte, split_byte, index_byte, last_index_byte,
}
use podtrace.Runtime.Insertion.{same_list}
use podtrace.Event.{Event}
use podtrace.Wire.{
  read_uint, to_int32, read_record, binary_read, parse_event, write_uint, of_int32, write_text,
  write_event,
}
use podtrace.Cgroup.{
  normalize_cgroup_path, scan_lines, extract_cgroup_path_from_proc, paths_match, is_pid_in_cgroup,
}
use podtrace.ProcName.{base_name, from_cmdline, read_name_quick, cached, get_process_name_quick}
use podtrace.Diagnose.{Diagnostician}
use podtrace.Tracer.{Proc, Read, closed, failed, sample, start_loop, name_and_filter}
use podtrace.Tracer.Stream.{all_nameless, wanted}
use podtrace.Tracer.Attach.{Probe, probes, load_podtrace}
use podtrace.Tracer.Attach.Outcome.{IsAttachable, new_tracer_iff}
use podtrace.Kubernetes.{PodInfo, cgroup_bases}
use podtrace.Kubernetes.Search.{first, visited}
use podtrace.Kubernetes.Resolve.{resolve_pod_lem}
use podtrace.Kubernetes.Config.{new_pod_resolver}
use podtrace.Session.{event, tick, timeout, Run}
use podtrace.Session.Modes.{reports}
use podtrace.Session.Channel.{Traffic, no_traffic, Step, Reach}
use podtrace.Session.Order.{Merge}
use podtrace.Session.Setup.{run_podtrace}
use podtrace.Session.Setup.Pipeline.{IsTracing, run_podtrace-wanted}
use podtrace.Tests.Data.{lookup, quick_lookup, proc_fs}
use podtrace.Tests.Tracing.{kernel, is_free-Lacks}
use podtrace.Tests.Reports.{file_system, pod, pod_visit, walks_named}
use podtrace.Tests.Setup.{world}

abbrev info : PodInfo
info = record {
  pod_name = codes "db-0";
  namespace = codes "default";
  container_id = codes "0123456789abcdef";
  cgroup_path = pod_visit.path;
  container_name = codes "app";
}

all_attach : (ps : List Probe) → All (IsAttachable kernel) ps
all_attach [] = tt
all_attach (p ∷ ps) = (λ t. some-ne-none 3, all_attach ps)

pod_path :
    first (contains (take 12 (codes "0123456789abcdef"))) (visited file_system cgroup_bases)
    ≡ some pod_visit.path
unfolding contains has_prefix
pod_path = refl

world_traces : IsTracing world info
unfolding new_pod_resolver load_podtrace
world_traces = record {
  clientset = 7;
  connected = refl;
  found =
      resolve_pod_lem (λ namespace name. some pod) file_system (codes "db-0") (codes "default") pod
        (codes "containerd") (codes "0123456789abcdef") [] (codes "app") [] refl refl refl
        (is_free-Lacks b':' (codes "containerd") refl)
        (is_free-Lacks b':' (codes "0123456789abcdef") refl) walks_named
      ∙ rw pod_path;
  traced =
      (new_tracer_iff kernel (λ xs. xs) (same_list Probe)).1
        (1, 2, refl, refl, (all_attach probes, some-ne-none 4));
}

-- Every process is in a cgroup below that of the pod.
abbrev proc : Proc
proc = record {
  names = proc_fs;
  cgroup = λ pid. some (codes "0::/kubepods.slice/pod1/cri-0123456789abcdef.scope/app");
}

abbrev records : List Read
records =
    failed
    ∷ sample proc (write_event lookup)
    ∷ sample proc (codes "cut off")
    ∷ sample proc (write_event quick_lookup)
    ∷ closed
    ∷ []

abbrev named_lookup : Event
named_lookup = record lookup { process_name = codes "postgres" }

records_sent : (start_loop info.cgroup_path [] records).events ≡ named_lookup ∷ quick_lookup ∷ []
unfolding start_loop name_and_filter parse_event binary_read read_record read_uint to_int32
    write_event write_uint write_text of_int32 is_pid_in_cgroup extract_cgroup_path_from_proc
    scan_lines paths_match normalize_cgroup_path get_process_name_quick read_name_quick cached
    from_cmdline base_name has_prefix trim_space trim_left trim_right trim_prefix trim_suffix_byte
    split_byte index_byte last_index_byte bytes_eq
records_sent = refl

-- The exporter takes the first event, the mode the second.
abbrev both_sent : Traffic
both_sent = record {
  sent = named_lookup ∷ quick_lookup ∷ [];
  queue = [];
  exported = named_lookup ∷ [];
  diagnosed = quick_lookup ∷ [];
}

both_sent-Reach : Reach both_sent
both_sent-Reach =
    Reach.next
      (Reach.next
        (Reach.next (Reach.next Reach.start (Step.send no_traffic named_lookup (omega arith))) (
          Step.send (record no_traffic { sent = named_lookup ∷ []; queue = named_lookup ∷ [] })
            quick_lookup (omega arith)))
        (Step.export
          (record no_traffic {
            sent = named_lookup ∷ quick_lookup ∷ [];
            queue = named_lookup ∷ quick_lookup ∷ [];
          })
          named_lookup (quick_lookup ∷ []) refl))
      (Step.diagnose (record both_sent { queue = quick_lookup ∷ []; diagnosed = [] }) quick_lookup
        [] refl)

run_podtrace-wanted_example :
    (r : Run) × (d : Diagnostician) × ((run_podtrace world 0
        ((tick 5 ∷ event quick_lookup ∷ []) ++ timeout 60 ∷ [])).run
      ≡ some r)
    × (reports r.outputs ≡ d ∷ [])
    × Merge
        (all_nameless both_sent.exported)
        (all_nameless d.events)
        (wanted info.cgroup_path records)
run_podtrace-wanted_example =
    run_podtrace-wanted world info 60_000_000_000 records [] both_sent 0
      (tick 5 ∷ event quick_lookup ∷ []) (timeout 60) [] world_traces (λ e. absurd (ground arith))
      refl both_sent-Reach (sym records_sent) refl (tt, (tt, tt)) tt refl
