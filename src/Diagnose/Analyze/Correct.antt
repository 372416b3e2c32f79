-- ===== src/Diagnose/Analyze/Correct.antt =====
-- What the analyses report of their events: for at least one event and at most `max_count` no index
-- fails, the latency figures are right, and so is every counter.
use podtrace.Prelude.{◌≤◌, ◌<◌, ◌≡◌, refl, ◌&&◌, some, List, [], length, count_if, arith}
use podtrace.Prelude.Int.{ℤ}
use podtrace.Strings.{Bytes}
use podtrace.Float.{Float, IsOrdered, IsExact}
use podtrace.Runtime.{Runtime, IsRuntime}
use podtrace.Counts.{bytes_keys, int_keys, int_eq, Counts, count_of}
use podtrace.Event.{Event, is_error, is_tcp_error}
use podtrace.Diagnose.Latency.{Timing, Latency, no_timing, summarize}
use podtrace.Diagnose.Latency.Rank.{max_count}
use podtrace.Diagnose.Latency.Summary.{observe_all, IsLatency, summarize_lem}
use podtrace.Diagnose.Analyze.{
  DnsLoop, DnsStats, TcpLoop, TcpStats, ConnectLoop, ConnectStats, FsLoop, FsStats,
  is_lookup_target, is_named_target, dns_loop, tcp_loop, connect_loop, fs_loop, cpu_loop,
  analyze_dns, analyze_tcp, analyze_connections, analyze_fs, analyze_cpu, top_entries,
}
use podtrace.Diagnose.Analyze.Loops.{
  latencies_of, length-latencies_of, slower, dns_loop_lem, connect_loop_lem, cpu_loop_lem,
  tcp_loop_lem, fs_loop_lem,
}
use podtrace.Diagnose.Analyze.Top.{IsTop, top_entries-IsTop}
use podtrace.Counts.Laws.{
  IsMap, IsRaised, total, tally, tally-IsMap, tally-IsRaised, total-tally, count_of-tally,
}

-- A map of the failures by error number: each number stands once, with the count of its events.
abbrev pub IsBreakdown : List Event → Counts ℤ → Type 0
IsBreakdown events m =
    IsMap m
    × IsRaised m
    × ((z : ℤ) → count_of z m ≡ count_if (λ e. is_error e.error && int_eq e.error z) events)

tally-IsBreakdown :
    (events : List Event)
    → IsBreakdown events (tally (λ e. is_error e.error) (λ e. e.error) events [])
unfolding count_of
tally-IsBreakdown events = (
  tally-IsMap (λ e. is_error e.error) (λ e. e.error) events [] tt,
  tally-IsRaised (λ e. is_error e.error) (λ e. e.error) events [] tt,
  λ z. omega (arith, count_of-tally (λ e. is_error e.error) (λ e. e.error) z events []),
)

module _ {F : Type 0} ⦃f : Float F⦄ (r : Runtime F) (order : IsOrdered F) (exact : IsExact F)
    (laws : IsRuntime F r) where
  -- The timing of any of the loops, summed up.
  summarize_events :
      (events : List Event) (t : Timing F)
      → t ≡ observe_all (latencies_of events) no_timing
      → 0 < length events
      → length events ≤ max_count
      → (l : Latency F) × (summarize r t (length events) ≡ some l)
        × IsLatency r (latencies_of events) l
  summarize_events events t e some_event few =
      let len = length-latencies_of events in
      let (l, q, right) =
        summarize_lem r order exact laws (latencies_of events) (omega arith) (omega arith) in
      (l, rw (e, ← len) q, right)

  -- For 1 to 10^10 lookups nothing panics; the latency figures describe the latencies, the errors
  -- are the lookups with an error number other than 0, and the top targets rank the lookups with a
  -- known name. The laws of Float and Runtime are assumed.
  pub analyze_dns_lem :
      (events : List Event)
      → 0 < length events
      → length events ≤ max_count
      → (s : DnsStats F) × (analyze_dns r events ≡ some s)
        × IsLatency r (latencies_of events) s.latency
        × (s.errors ≡ count_if (λ e. is_error e.error) events)
        × IsTop (λ e. is_lookup_target e.target) (λ e. e.target) events s.top_targets
  unfolding analyze_dns
  analyze_dns_lem events some_event few =
      let start : DnsLoop F = record { timing = no_timing; errors = 0; targets = [] } in
      let (t, n, m) = dns_loop_lem events start in
      let (l, q, right) = summarize_events events (dns_loop events start).timing t some_event few in
      (
        record {
          latency = l;
          errors = (dns_loop events start).errors;
          top_targets = top_entries r Bytes (dns_loop events start).targets;
        },
        rw q refl,
        right,
        omega arith,
        rw m (top_entries-IsTop r laws (λ e. is_lookup_target e.target) (λ e. e.target) events),
      )

  -- For 1 to 10^10 TCP operations nothing panics; the figures describe the latencies, the spikes
  -- are those above 100 ms, and the errors leave out EAGAIN. The laws of Float and Runtime are
  -- assumed.
  pub analyze_tcp_lem :
      (events : List Event)
      → 0 < length events
      → length events ≤ max_count
      → (s : TcpStats F) × (analyze_tcp r events ≡ some s)
        × IsLatency r (latencies_of events) s.latency
        × (s.spikes ≡ count_if (slower 100) events)
        × (s.errors ≡ count_if (λ e. is_tcp_error e.error) events)
  unfolding analyze_tcp
  analyze_tcp_lem events some_event few =
      let start : TcpLoop F = record { timing = no_timing; spikes = 0; errors = 0 } in
      let (t, n, m) = tcp_loop_lem exact events start in
      let (l, q, right) = summarize_events events (tcp_loop events start).timing t some_event few in
      (
        record {
          latency = l;
          spikes = (tcp_loop events start).spikes;
          errors = (tcp_loop events start).errors;
        },
        rw q refl,
        right,
        omega arith,
        omega arith,
      )

  -- For 1 to 10^10 connections nothing panics; the latency figures describe the latencies, the
  -- failures are counted, the top targets rank the named targets, and the breakdown counts each
  -- error number and adds up to all failures. The laws of Float and Runtime are assumed.
  pub analyze_connections_lem :
      (events : List Event)
      → 0 < length events
      → length events ≤ max_count
      → (s : ConnectStats F) × (analyze_connections r events ≡ some s)
        × IsLatency r (latencies_of events) s.latency
        × (s.errors ≡ count_if (λ e. is_error e.error) events)
        × IsTop (λ e. is_named_target e.target) (λ e. e.target) events s.top_targets
        × IsBreakdown events s.breakdown
        × (total s.breakdown ≡ s.errors)
  unfolding analyze_connections
  analyze_connections_lem events some_event few =
      let start : ConnectLoop F = record {
        timing = no_timing;
        errors = 0;
        targets = [];
        breakdown = [];
      } in
      let done : ConnectLoop F = connect_loop events start in
      let (t, n, m, b) = connect_loop_lem events start in
      let (l, q, right) = summarize_events events done.timing t some_event few in
      (
        record {
          latency = l;
          errors = done.errors;
          top_targets = top_entries r Bytes done.targets;
          breakdown = done.breakdown;
        },
        rw q refl,
        right,
        omega arith,
        rw m (top_entries-IsTop r laws (λ e. is_named_target e.target) (λ e. e.target) events),
        rw b (tally-IsBreakdown events),
        rw b (omega (arith, n, total-tally (λ e. is_error e.error) (λ e. e.error) events [])),
      )

  -- For 1 to 10^10 file operations nothing panics; the figures describe the latencies and the slow
  -- operations are those above 10 ms. The laws of Float and Runtime are assumed.
  pub analyze_fs_lem :
      (events : List Event)
      → 0 < length events
      → length events ≤ max_count
      → (s : FsStats F) × (analyze_fs r events ≡ some s)
        × IsLatency r (latencies_of events) s.latency
        × (s.slow_ops ≡ count_if (slower 10) events)
  unfolding analyze_fs
  analyze_fs_lem events some_event few =
      let start : FsLoop F = record { timing = no_timing; slow_ops = 0 } in
      let (t, n) = fs_loop_lem exact events start in
      let (l, q, right) = summarize_events events (fs_loop events start).timing t some_event few in
      (
        record { latency = l; slow_ops = (fs_loop events start).slow_ops },
        rw q refl,
        right,
        omega arith,
      )

  -- For 1 to 10^10 thread switches nothing panics, and the figures describe the block times. The
  -- laws of Float and Runtime are assumed.
  pub analyze_cpu_lem :
      (events : List Event)
      → 0 < length events
      → length events ≤ max_count
      → (l : Latency F) × (analyze_cpu r events ≡ some l) × IsLatency r (latencies_of events) l
  unfolding analyze_cpu
  analyze_cpu_lem events some_event few =
      summarize_events events (cpu_loop events no_timing) (cpu_loop_lem events no_timing) some_event
        few
