-- ===== src/Diagnose/Report/Complete.antt =====
-- That there is a report, and that its parts share out the events.
use podtrace.Prelude.{ℕ, ◌+◌, ◌-◌, ◌≤◌, ◌<◌, ◌≡◌, some, length, length-append, ◌++◌, All, arith}
use podtrace.Strings.{Bytes}
use podtrace.Float.{Float, IsOrdered, IsExact}
use podtrace.Runtime.{Runtime, IsRuntime}
use podtrace.Event.Kind
use podtrace.ProcName.{ProcFs, Cache}
use podtrace.Diagnose.{Diagnostician, filter_events}
use podtrace.Diagnose.Filter.{filter_events_partition}
use podtrace.Diagnose.Latency.Rank.{max_count}
use podtrace.Diagnose.Report.{Report, generate_report}
use podtrace.Diagnose.Report.There.{events_in}
use podtrace.Diagnose.Report.Whole.{generate_report-IsReport}

module _ {F : Type 0} ⦃f : Float F⦄ (r : Runtime F) (order : IsOrdered F) (exact : IsExact F)
    (laws : IsRuntime F r) where
  -- For 1 to 10^10 events, each of one of the eight types, in a period of five nanoseconds or more
  -- nothing panics: there is a report on all of them, and its parts share them out. The laws of
  -- Float and Runtime are assumed.
  pub generate_report_lem :
      (proc : ProcFs) (c : Cache) (clock : ℕ → Bytes) (d : Diagnostician)
      → 5 ≤ d.end_time - d.start_time
      → 0 < length d.events
      → length d.events ≤ max_count
      → All (λ e. e.type < 8) d.events
      → (p : Report F) × (generate_report r proc c clock d ≡ some p)
        × (p.total ≡ length d.events)
        × (events_in p.dns
              + events_in p.tcp
              + events_in p.connect
              + events_in p.fs
              + events_in p.cpu
            ≡ p.total)
  generate_report_lem proc c clock d long busy few known =
      let (p, e, right) =
        generate_report-IsReport r order exact laws proc c clock d long busy few known in
      let es = d.events in
      let writes = filter_events Kind.write es in
      let reads = filter_events Kind.read es in
      (
        p,
        e,
        right.total,
        omega (
          arith,
          filter_events_partition es known,
          length-append (filter_events Kind.tcp_send es) (filter_events Kind.tcp_recv es),
          length-append writes reads,
          length-append (writes ++ reads) (filter_events Kind.fsync es),
          right.total,
          right.dns.0,
          right.tcp.0,
          right.connect.0,
          right.fs.0,
          right.cpu.0,
        ),
      )
