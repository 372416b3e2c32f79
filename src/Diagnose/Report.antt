-- ===== src/Diagnose/Report.antt =====
-- `GenerateReport`, `generateApplicationTracing` and `detectIssues` of internal/diagnose/diagnose.go:
-- which parts a report has, and their figures.
pub mod There
pub mod Traced
pub mod Whole
pub mod Complete
pub mod Issues
pub mod Text
use podtrace.Prelude.{
  ℕ, ◌+◌, ◌-◌, Option, none, some, List, [], ◌∷◌, ◌++◌, ◌==◌, if◌then◌else◌, length, take, count_if,
}
use podtrace.Strings.{Bytes}
use podtrace.Float.{Float}
use podtrace.Runtime.{Runtime}
use podtrace.Counts.{Entry}
use podtrace.Event.{Event, is_error}
use podtrace.Event.Kind
use podtrace.ProcName.{ProcFs, Cache}
use podtrace.Diagnose.{Diagnostician, filter_events}
use podtrace.Diagnose.Latency.{Latency, ◌>>=◌}
use podtrace.Diagnose.Analyze.{
  DnsStats, TcpStats, ConnectStats, FsStats, is_above, top_entries, analyze_dns, analyze_tcp,
  analyze_connections, analyze_fs, analyze_cpu,
}
use podtrace.Diagnose.Activity.{PidInfo, analyze_process_activity}
use podtrace.Diagnose.CpuUsage.{CpuUsage, cpu_usage}
use podtrace.Diagnose.Window.Timeline.{Bucket, analyze_timeline}
use podtrace.Diagnose.Window.Bursts.{Burst, rate_of, detect_bursts}
use podtrace.Diagnose.Window.Pattern.{
  ConnectionPattern, IoPattern, target_loop, analyze_connection_pattern, analyze_io_pattern,
}

-- A part on some events: how many they are, how many in a second, and what the analysis says.
pub record Section (F S : Type 0) : Type 0 where
  pub count : ℕ
  pub per_sec : F
  pub stats : S

pub data Issue (F : Type 0) : Type 0 where
  connection_failures : F → ℕ → ℕ → Issue F
  rtt_spikes : F → ℕ → ℕ → Issue F

-- The parts of `generateApplicationTracing`.
pub record Tracing (F : Type 0) : Type 0 where
  pub processes : List (PidInfo F)
  pub timeline : List (Bucket F)
  pub bursts : List (Burst F)
  pub connections : Option (ConnectionPattern F)
  pub io : Option (IoPattern F)

-- `usage` is missing where the fixed text on the CPU stands.
pub record Report (F : Type 0) : Type 0 where
  pub total : ℕ
  pub per_sec : F
  pub dns : Option (Section F (DnsStats F))
  pub tcp : Option (Section F (TcpStats F))
  pub connect : Option (Section F (ConnectStats F))
  pub fs : Option (Section F (FsStats F))
  pub top_files : List (Entry Bytes)
  pub cpu : Option (Section F (Latency F))
  pub usage : Option (CpuUsage F)
  pub tracing : Tracing F
  pub issues : List (Issue F)

abbrev pub tcp_events : List Event → List Event
tcp_events es = filter_events Kind.tcp_send es ++ filter_events Kind.tcp_recv es

abbrev pub fs_events : List Event → List Event
fs_events es =
    (filter_events Kind.write es ++ filter_events Kind.read es) ++ filter_events Kind.fsync es

module _ {F : Type 0} ⦃f : Float F⦄ where
  open f use {of_nat, mul, div, lt}

  -- A part that stands in the report if it has an event; the outer `none` is a panic.
  unfoldable pub section_of :
      {S : Type 0} → (List Event → Option S) → ℕ → List Event → Option (Option (Section F S))
  section_of analyze duration es =
      if length es == 0
      then some none
      else (analyze es >>= λ stats. some (
          some
            (record { count = length es; per_sec = rate_of (length es) duration; stats = stats })))

  -- `float64(n) / float64(total) * 100`
  abbrev pub share : ℕ → ℕ → F
  share n total = mul (div (of_nat n) (of_nat total)) (of_nat 100)

  unfoldable pub connection_issues : List Event → List (Issue F)
  connection_issues es =
      let errors = count_if (λ e. is_error e.error) es in
      let rate : F = share errors (length es) in
      if length es == 0
      then []
      else if lt (of_nat 10) rate
      then connection_failures rate errors (length es) ∷ []
      else []

  unfoldable pub spike_issues : List Event → List (Issue F)
  spike_issues es =
      let spikes = count_if (is_above F 100) es in
      let rate : F = share spikes (length es) in
      if length es == 0
      then []
      else if lt (of_nat 5) rate
      then rtt_spikes rate spikes (length es) ∷ []
      else []

  unfoldable pub detect_issues : List Event → List (Issue F)
  detect_issues es =
      connection_issues (filter_events Kind.connect es) ++ spike_issues (tcp_events es)

  -- The network's part of the tracing.
  abbrev pub io_part : Diagnostician → List Event → ℕ → Option (IoPattern F)
  io_part d es duration = if length es == 0 then none else some (analyze_io_pattern d es duration)

  abbrev pub connection_part :
      Diagnostician → List Event → ℕ → Option (Option (ConnectionPattern F))
  connection_part d es duration =
      if length es == 0
      then some none
      else (analyze_connection_pattern d es duration >>= λ p. some (some p))

  unfoldable pub application_tracing :
      List (PidInfo F) → (ℕ → Bytes) → Diagnostician → ℕ → Option (Tracing F)
  application_tracing processes clock d duration = do
    timeline ← analyze_timeline clock d duration
    connections ← connection_part d (filter_events Kind.connect d.events) duration
    some (record {
      processes = processes;
      timeline = timeline;
      bursts = detect_bursts d duration;
      connections = connections;
      io = io_part d (tcp_events d.events) duration;
    })

  module _ (r : Runtime F) where
    -- For a collector with events; without one the report is a fixed text. `none` is a panic.
    unfoldable pub generate_report :
        ProcFs → Cache → (ℕ → Bytes) → Diagnostician → Option (Report F)
    generate_report proc c clock d =
        let duration = d.end_time - d.start_time in
        let files = fs_events d.events in
        let (usage, c') = cpu_usage r proc d.events c duration in
        let processes = (analyze_process_activity r proc d.events c').0 in
        do
          dns ← section_of (analyze_dns r) duration (filter_events Kind.dns d.events)
          tcp ← section_of (analyze_tcp r) duration (tcp_events d.events)
          connect ←
              section_of (analyze_connections r) duration (filter_events Kind.connect d.events)
          fs ← section_of (analyze_fs r) duration files
          cpu ← section_of (analyze_cpu r) duration (filter_events Kind.sched_switch d.events)
          tracing ← application_tracing processes clock d duration
          some (record {
            total = length d.events;
            per_sec = rate_of (length d.events) duration;
            dns = dns;
            tcp = tcp;
            connect = connect;
            fs = fs;
            top_files = top_entries r Bytes (target_loop files []);
            cpu = cpu;
            usage = usage;
            tracing = tracing;
            issues = detect_issues d.events;
          })
