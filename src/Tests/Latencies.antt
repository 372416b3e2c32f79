-- ===== src/Tests/Latencies.antt =====
-- Runs of the analyses of latencies.
use podtrace.Prelude.{ℕ, ◌≡◌, some, List, [], ◌∷◌, count_if, arith}
use podtrace.Float.Fixed.{fixed_float, Fixed-IsOrdered, Fixed-IsExact}
use podtrace.Runtime.Insertion.{insertion_runtime, insertion-IsRuntime}
use podtrace.Counts.{bytes_keys}
use podtrace.Counts.Laws.{total}
use podtrace.Event.{Event, is_error, is_tcp_error}
use podtrace.Diagnose.Latency.Summary.{IsLatency}
use podtrace.Diagnose.Analyze.{
  DnsStats, TcpStats, ConnectStats, FsStats, is_lookup_target, is_named_target, analyze_dns,
  analyze_tcp, analyze_connections, analyze_fs,
}
use podtrace.Diagnose.Analyze.Loops.{latencies_of, slower}
use podtrace.Diagnose.Analyze.Top.{IsTop}
use podtrace.Diagnose.Analyze.Correct.{
  IsBreakdown, analyze_dns_lem, analyze_tcp_lem, analyze_connections_lem, analyze_fs_lem,
}
use podtrace.Diagnose.Activity.{analyze_process_activity}
use podtrace.Diagnose.Activity.Correct.{IsActivity, analyze_process_activity_lem}
use podtrace.Tests.Data.{
  lookup, quick_lookup, refused, accepted, slow_send, again, slow_write, collector, proc_fs,
}

abbrev lookups : List Event
lookups = lookup ∷ quick_lookup ∷ []

abbrev connects : List Event
connects = refused ∷ accepted ∷ refused ∷ []

abbrev transfers : List Event
transfers = slow_send ∷ again ∷ []

analyze_dns_lem_example :
    (s : DnsStats ℕ) × (analyze_dns insertion_runtime lookups ≡ some s)
    × IsLatency insertion_runtime (latencies_of lookups) s.latency
    × (s.errors ≡ count_if (λ e. is_error e.error) lookups)
    × IsTop (λ e. is_lookup_target e.target) (λ e. e.target) lookups s.top_targets
analyze_dns_lem_example =
    analyze_dns_lem insertion_runtime Fixed-IsOrdered Fixed-IsExact insertion-IsRuntime lookups
      (omega arith) (omega arith)

analyze_tcp_lem_example :
    (s : TcpStats ℕ) × (analyze_tcp insertion_runtime transfers ≡ some s)
    × IsLatency insertion_runtime (latencies_of transfers) s.latency
    × (s.spikes ≡ count_if (slower 100) transfers)
    × (s.errors ≡ count_if (λ e. is_tcp_error e.error) transfers)
analyze_tcp_lem_example =
    analyze_tcp_lem insertion_runtime Fixed-IsOrdered Fixed-IsExact insertion-IsRuntime transfers
      (omega arith) (omega arith)

analyze_connections_lem_example :
    (s : ConnectStats ℕ) × (analyze_connections insertion_runtime connects ≡ some s)
    × IsLatency insertion_runtime (latencies_of connects) s.latency
    × (s.errors ≡ count_if (λ e. is_error e.error) connects)
    × IsTop (λ e. is_named_target e.target) (λ e. e.target) connects s.top_targets
    × IsBreakdown connects s.breakdown
    × (total s.breakdown ≡ s.errors)
analyze_connections_lem_example =
    analyze_connections_lem insertion_runtime Fixed-IsOrdered Fixed-IsExact insertion-IsRuntime
      connects (omega arith) (omega arith)

analyze_fs_lem_example :
    (s : FsStats ℕ) × (analyze_fs insertion_runtime (slow_write ∷ []) ≡ some s)
    × IsLatency insertion_runtime (latencies_of (slow_write ∷ [])) s.latency
    × (s.slow_ops ≡ count_if (slower 10) (slow_write ∷ []))
analyze_fs_lem_example =
    analyze_fs_lem insertion_runtime Fixed-IsOrdered Fixed-IsExact insertion-IsRuntime
      (slow_write ∷ []) (omega arith) (omega arith)

analyze_process_activity_lem_example :
    IsActivity collector.events
      (analyze_process_activity insertion_runtime proc_fs collector.events []).0
analyze_process_activity_lem_example =
    analyze_process_activity_lem insertion_runtime insertion-IsRuntime proc_fs collector.events []
