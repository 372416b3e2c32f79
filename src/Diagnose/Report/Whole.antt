-- ===== src/Diagnose/Report/Whole.antt =====
-- What is in a report on some events.
use podtrace.Prelude.{
  ℕ, ◌+◌, ◌-◌, ◌≤◌, ◌<◌, ◌≡◌, refl, Option, some, List, [], ◌++◌, length, length-append, count_if,
  All, arith,
}
use podtrace.Strings.{Bytes}
use podtrace.Float.{Float, IsOrdered, IsExact}
use podtrace.Runtime.{Runtime, IsRuntime}
use podtrace.Event.{Event, is_error}
use podtrace.Counts.Laws.{length-total}
use podtrace.Event.Kind
use podtrace.ProcName.{ProcFs, Cache}
use podtrace.Diagnose.{Diagnostician, filter_events}
use podtrace.Diagnose.Filter.{filter_events_partition}
use podtrace.Diagnose.Latency.{Latency}
use podtrace.Diagnose.Latency.Rank.{max_count}
use podtrace.Diagnose.Analyze.{
  DnsStats, TcpStats, ConnectStats, FsStats, top_entries, analyze_dns, analyze_tcp,
  analyze_connections, analyze_fs, analyze_cpu,
}
use podtrace.Diagnose.Analyze.Correct.{
  analyze_dns_lem, analyze_tcp_lem, analyze_connections_lem, analyze_fs_lem, analyze_cpu_lem,
}
use podtrace.Diagnose.Activity.{analyze_process_activity}
use podtrace.Diagnose.Activity.Correct.{analyze_process_activity_lem}
use podtrace.Diagnose.CpuUsage.{CpuUsage, cpu_usage}
use podtrace.Diagnose.CpuUsage.Rows.{cpu_usage-bounds}
use podtrace.Diagnose.Window.Bursts.{rate_of}
use podtrace.Diagnose.Window.Pattern.{target_loop}
use podtrace.Diagnose.Report.{
  Section, Report, section_of, tcp_events, fs_events, generate_report, detect_issues,
}
use podtrace.Diagnose.Report.There.{IsOn, Has, Any, section_of-some}
use podtrace.Diagnose.Report.Traced.{IsTraced, busy_of_sum, application_tracing-some}

-- No more error numbers are listed than connections failed.
abbrev pub Lists : {F : Type 0} → List Event → ConnectStats F → Type 0
Lists es s = length s.breakdown ≤ count_if (λ e. is_error e.error) es

-- What is known of a report on the events of a collector.
pub record IsReport {F : Type 0} ⦃f : Float F⦄ (d : Diagnostician) (p : Report F) : Type 0 where
  pub total : p.total ≡ length d.events
  pub dns : IsOn p.dns (filter_events Kind.dns d.events)
  pub tcp : IsOn p.tcp (tcp_events d.events)
  pub connect : IsOn p.connect (filter_events Kind.connect d.events)
  pub listed : Has (Lists (filter_events Kind.connect d.events)) p.connect
  pub fs : IsOn p.fs (fs_events d.events)
  pub cpu : IsOn p.cpu (filter_events Kind.sched_switch d.events)
  pub usage : CpuUsage F
  pub used : p.usage ≡ some usage
  pub few_rows : length usage.pod_rows + length usage.kernel_rows ≤ 15
  pub traced : IsTraced d (d.end_time - d.start_time) p.tracing
  pub issues : p.issues ≡ detect_issues d.events

module _ {F : Type 0} ⦃f : Float F⦄ (r : Runtime F) (order : IsOrdered F) (exact : IsExact F)
    (laws : IsRuntime F r) where
  dns_section :
      (duration : ℕ) (es : List Event)
      → length es ≤ max_count
      → (o : Option (Section F (DnsStats F))) × (section_of (analyze_dns r) duration es ≡ some o)
        × IsOn o es
        × Has Any o
  dns_section duration es few =
      section_of-some Any (analyze_dns r) duration es
        (λ h. let a = analyze_dns_lem r order exact laws es h few in (a.0, a.1, tt))

  tcp_section :
      (duration : ℕ) (es : List Event)
      → length es ≤ max_count
      → (o : Option (Section F (TcpStats F))) × (section_of (analyze_tcp r) duration es ≡ some o)
        × IsOn o es
        × Has Any o
  tcp_section duration es few =
      section_of-some Any (analyze_tcp r) duration es
        (λ h. let a = analyze_tcp_lem r order exact laws es h few in (a.0, a.1, tt))

  connections_section :
      (duration : ℕ) (es : List Event)
      → length es ≤ max_count
      → (o : Option (Section F (ConnectStats F))) × (section_of (analyze_connections r) duration es
          ≡ some o)
        × IsOn o es
        × Has (Lists es) o
  connections_section duration es few =
      section_of-some (Lists es) (analyze_connections r) duration es (λ h.
        let a = analyze_connections_lem r order exact laws es h few in
        (a.0, a.1, omega (arith, a.3, a.6, length-total a.0.breakdown a.5.1)))

  fs_section :
      (duration : ℕ) (es : List Event)
      → length es ≤ max_count
      → (o : Option (Section F (FsStats F))) × (section_of (analyze_fs r) duration es ≡ some o)
        × IsOn o es
        × Has Any o
  fs_section duration es few =
      section_of-some Any (analyze_fs r) duration es
        (λ h. let a = analyze_fs_lem r order exact laws es h few in (a.0, a.1, tt))

  cpu_section :
      (duration : ℕ) (es : List Event)
      → length es ≤ max_count
      → (o : Option (Section F (Latency F))) × (section_of (analyze_cpu r) duration es ≡ some o)
        × IsOn o es
        × Has Any o
  cpu_section duration es few =
      section_of-some Any (analyze_cpu r) duration es
        (λ h. let a = analyze_cpu_lem r order exact laws es h few in (a.0, a.1, tt))

  -- There is a report, and all of this is known of it.
  pub generate_report-IsReport :
      (proc : ProcFs) (c : Cache) (clock : ℕ → Bytes) (d : Diagnostician)
      → 5 ≤ d.end_time - d.start_time
      → 0 < length d.events
      → length d.events ≤ max_count
      → All (λ e. e.type < 8) d.events
      → (p : Report F) × (generate_report r proc c clock d ≡ some p) × IsReport d p
  unfolding generate_report
  generate_report-IsReport proc c clock d long busy few known =
      let es = d.events in
      let duration = d.end_time - d.start_time in
      let share = filter_events_partition es known in
      let tcp_length =
        length-append (filter_events Kind.tcp_send es) (filter_events Kind.tcp_recv es) in
      let writes = filter_events Kind.write es in
      let reads = filter_events Kind.read es in
      let rw_length = length-append writes reads in
      let fs_length = length-append (writes ++ reads) (filter_events Kind.fsync es) in
      let dns = dns_section duration (filter_events Kind.dns es) (omega (arith, few, share)) in
      let tcp = tcp_section duration (tcp_events es) (omega (arith, few, share, tcp_length)) in
      let connect =
        connections_section duration (filter_events Kind.connect es) (omega (arith, few, share)) in
      let fs =
        fs_section duration (fs_events es) (omega (arith, few, share, rw_length, fs_length)) in
      let cpu =
        cpu_section duration (filter_events Kind.sched_switch es) (omega (arith, few, share)) in
      let usage = cpu_usage r proc es c duration in
      let processes = (analyze_process_activity r proc es usage.1).0 in
      let active = analyze_process_activity_lem r laws proc es usage.1 in
      let used = cpu_usage-bounds r laws proc es c duration busy in
      let tracing =
        application_tracing-some order processes clock d duration long busy
          (busy_of_sum processes (omega (arith, active.complete))) in
      (
        record {
          total = length es;
          per_sec = rate_of (length es) duration;
          dns = dns.0;
          tcp = tcp.0;
          connect = connect.0;
          fs = fs.0;
          top_files = top_entries r Bytes (target_loop (fs_events es) []);
          cpu = cpu.0;
          usage = usage.0;
          tracing = tracing.0;
          issues = detect_issues es;
        },
        rw (dns.1, tcp.1, connect.1, fs.1, cpu.1, tracing.1),
        record {
          total = refl;
          dns = dns.2;
          tcp = tcp.2;
          connect = connect.2;
          listed = connect.3;
          fs = fs.2;
          cpu = cpu.2;
          usage = used.0;
          used = used.1;
          few_rows = omega (arith, used.4, used.5);
          traced = tracing.2;
          issues = refl;
        },
      )
