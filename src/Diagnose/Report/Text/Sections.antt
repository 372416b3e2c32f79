-- ===== src/Diagnose/Report/Text/Sections.antt =====
-- The parts of the text of `GenerateReport` on one kind of events each, and the issues.
use podtrace.Prelude.{ℕ, List, [], ◌∷◌, ◌++◌, map, length}
use podtrace.Prelude.Int.{ℤ}
use podtrace.Strings.{Bytes, codes}
use podtrace.Float.{Float}
use podtrace.Runtime.{Runtime}
use podtrace.Counts.{Entry}
use podtrace.Event.{Event}
use podtrace.Event.Kind
use podtrace.Diagnose.{filter_events}
use podtrace.Diagnose.Latency.{Latency}
use podtrace.Diagnose.Analyze.{DnsStats, TcpStats, ConnectStats, FsStats}
use podtrace.Diagnose.Window.Bursts.{rate_of}
use podtrace.Diagnose.Report.{Section, Issue, connection_failures, rtt_spikes}
use podtrace.Diagnose.Report.Text.Lines.{
  sprintf, when_any, blank, print_nat, ms_line, percentile_line, rate_line, error_line, top_list,
}

module _ (F : Type 0) ⦃f : Float F⦄ where
  open f use {print_int}

  abbrev pub breakdown_line : Entry ℤ → Bytes
  breakdown_line e = sprintf (
      codes "    - Error "
      ∷ print_int e.key
      ∷ codes ": "
      ∷ print_nat F e.count
      ∷ codes " occurrences\n"
      ∷ [])

module _ {F : Type 0} ⦃f : Float F⦄ where
  open f use {print}

  unfoldable pub dns_text : Section F (DnsStats F) → List Bytes
  dns_text s =
      codes "DNS Statistics:\n"
      ∷ rate_line (codes "  Total lookups: ") s.count s.per_sec
      ∷ ms_line (codes "  Average latency: ") s.stats.latency.avg
      ∷ ms_line (codes "  Max latency: ") s.stats.latency.max
      ∷ percentile_line s.stats.latency
      ∷ error_line F (codes "  Errors: ") s.stats.errors s.count
      ∷ (top_list F (codes "  Top targets:\n") (codes " lookups)\n") s.stats.top_targets
          ++ blank ∷ [])

  -- The events and the period are those of the report; the two counts are of each direction.
  unfoldable pub tcp_text : List Event → ℕ → Section F (TcpStats F) → List Bytes
  tcp_text es duration s =
      let sends = length (filter_events Kind.tcp_send es) in
      let receives = length (filter_events Kind.tcp_recv es) in
      codes "TCP Statistics:\n"
      ∷ rate_line {F = F} (codes "  Send operations: ") sends (rate_of sends duration)
      ∷ rate_line {F = F} (codes "  Receive operations: ") receives (rate_of receives duration)
      ∷ ms_line (codes "  Average RTT: ") s.stats.latency.avg
      ∷ ms_line (codes "  Max RTT: ") s.stats.latency.max
      ∷ percentile_line s.stats.latency
      ∷ sprintf (codes "  RTT spikes (>100ms): " ∷ print_nat F s.stats.spikes ∷ blank ∷ [])
      ∷ error_line F (codes "  Errors: ") s.stats.errors s.count
      ∷ blank
      ∷ []

  -- The entries of the breakdown come in the order of a `range`.
  unfoldable pub connect_text : Runtime F → Section F (ConnectStats F) → List Bytes
  connect_text r s =
      codes "Connection Statistics:\n"
      ∷ rate_line (codes "  Total connections: ") s.count s.per_sec
      ∷ ms_line (codes "  Average latency: ") s.stats.latency.avg
      ∷ ms_line (codes "  Max latency: ") s.stats.latency.max
      ∷ percentile_line s.stats.latency
      ∷ error_line F (codes "  Failed connections: ") s.stats.errors s.count
      ∷ (when_any s.stats.breakdown (
            codes "  Error breakdown:\n"
            ∷ map (breakdown_line F) (r.iterate (Entry ℤ) s.stats.breakdown))
          ++ (top_list F (codes "  Top connection targets:\n") (codes " connections)\n")
                s.stats.top_targets
              ++ blank ∷ []))

  unfoldable pub fs_text : List Event → ℕ → List (Entry Bytes) → Section F (FsStats F) → List Bytes
  fs_text es duration top_files s =
      let writes = length (filter_events Kind.write es) in
      let reads = length (filter_events Kind.read es) in
      let fsyncs = length (filter_events Kind.fsync es) in
      codes "File System Statistics:\n"
      ∷ rate_line {F = F} (codes "  Write operations: ") writes (rate_of writes duration)
      ∷ rate_line {F = F} (codes "  Read operations: ") reads (rate_of reads duration)
      ∷ rate_line {F = F} (codes "  Fsync operations: ") fsyncs (rate_of fsyncs duration)
      ∷ ms_line (codes "  Average latency: ") s.stats.latency.avg
      ∷ ms_line (codes "  Max latency: ") s.stats.latency.max
      ∷ percentile_line s.stats.latency
      ∷ sprintf (codes "  Slow operations (>10ms): " ∷ print_nat F s.stats.slow_ops ∷ blank ∷ [])
      ∷ (top_list F (codes "  Top accessed files:\n") (codes " operations)\n") top_files
          ++ blank ∷ [])

  unfoldable pub cpu_text : Section F (Latency F) → List Bytes
  cpu_text s =
      codes "CPU Statistics:\n"
      ∷ rate_line (codes "  Thread switches: ") s.count s.per_sec
      ∷ ms_line (codes "  Average block time: ") s.stats.avg
      ∷ ms_line (codes "  Max block time: ") s.stats.max
      ∷ percentile_line s.stats
      ∷ blank
      ∷ []

  -- An issue with its rate, and the two counts that it stems from.
  abbrev pub issue_line : Bytes → F → ℕ → ℕ → Bytes
  issue_line words rate bad total = sprintf (
      words
      ∷ print 1 rate
      ∷ codes "% ("
      ∷ print_nat F bad
      ∷ codes "/"
      ∷ print_nat F total
      ∷ codes ")"
      ∷ [])

  abbrev pub issue_text : Issue F → Bytes
  issue_text (connection_failures rate errors n) =
      issue_line (codes "High connection failure rate: ") rate errors n
  issue_text (rtt_spikes rate spikes n) =
      issue_line (codes "High TCP RTT spike rate: ") rate spikes n

  unfoldable pub issues_text : List (Issue F) → List Bytes
  issues_text issues = when_any issues (
      codes "Potential Issues Detected:\n"
      ∷ (map (λ i. sprintf (codes "  " ∷ issue_text i ∷ blank ∷ [])) issues ++ blank ∷ []))
