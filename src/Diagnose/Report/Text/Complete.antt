-- ===== src/Diagnose/Report/Text/Complete.antt =====
-- The sections of a printed report, and its length.
use podtrace.Prelude.{
  ℕ, ◌+◌, ◌-◌, ◌≤◌, ◌<◌, ◌≡◌, refl, ◌∙◌, ap, not, ◌==◌, Option, none, some, List, [], ◌∷◌, ◌++◌,
  length, length-append, All, if◌then◌else◌, count_if, arith, Bool-cases, inl, inr,
}
use podtrace.Prelude.Int.{ℤ}
use podtrace.Strings.{Bytes, codes}
use podtrace.Float.{Float, IsOrdered, IsExact}
use podtrace.Runtime.{Runtime, IsRuntime}
use podtrace.Runtime.Perm.{length-perm}
use podtrace.Counts.{Entry}
use podtrace.Event.{Event, is_error}
use podtrace.Event.Kind
use podtrace.ProcName.{ProcFs, Cache}
use podtrace.Diagnose.{Diagnostician, filter_events}
use podtrace.Diagnose.Latency.Rank.{max_count}
use podtrace.Diagnose.Analyze.{ConnectStats}
use podtrace.Diagnose.Window.Bursts.{detect_bursts}
use podtrace.Diagnose.Report.{
  Section, Report, tcp_events, fs_events, connection_issues, spike_issues, detect_issues,
}
use podtrace.Diagnose.Report.There.{IsThere, Has}
use podtrace.Diagnose.Report.Traced.{IsTraced}
use podtrace.Diagnose.Report.Whole.{Lists, IsReport, generate_report-IsReport}
use podtrace.Diagnose.Report.Issues.{failed_connects}
use podtrace.Diagnose.Report.Text.{Printer, no_events, summary_text, report_lines, report_text}
use podtrace.Diagnose.Report.Text.Lines.{sprintf, when}
use podtrace.Diagnose.Report.Text.Sections.{dns_text, tcp_text, connect_text, fs_text, cpu_text}
use podtrace.Diagnose.Report.Text.Usage.{usage_text}
use podtrace.Diagnose.Report.Text.Outline.{
  Outline, headings, empty, title, line, joined, at_most, any_title, some_title, some_part,
}
use podtrace.Diagnose.Report.Text.Parts.{
  dns_part, tcp_part, connect_part, fs_part, cpu_part, usage_part, issues_part,
}
use podtrace.Diagnose.Report.Text.TracingParts.{tracing_titles, tracing_part}

-- A title that stands if there are such events.
abbrev pub if_any : List Event → Bytes → List Bytes
if_any es t = if not (length es == 0) then t ∷ [] else []

abbrev pub report_title : Printer → Diagnostician → Bytes
report_title w d = sprintf (
    codes "=== Diagnostic Report (collected over "
    ∷ w.print_duration (d.end_time - d.start_time)
    ∷ codes ") ===\n\n"
    ∷ [])

-- The titles that a report on some events should have.
abbrev pub event_outline : (F : Type 0) ⦃f : Float F⦄ → Printer → Diagnostician → List Bytes
event_outline F w d =
    let es = d.events in
    report_title w d
    ∷ codes "Summary:\n"
    ∷ (if_any (filter_events Kind.dns es) (codes "DNS Statistics:\n")
        ++ (if_any (tcp_events es) (codes "TCP Statistics:\n")
            ++ (if_any (filter_events Kind.connect es) (codes "Connection Statistics:\n")
                ++ (if_any (fs_events es) (codes "File System Statistics:\n")
                    ++ (if_any (filter_events Kind.sched_switch es) (codes "CPU Statistics:\n")
                        ++ (codes "CPU Usage by Process:\n"
                            ∷ codes "Process Activity:\n"
                            ∷ codes "Activity Timeline:\n"
                            ∷ ((any_title (detect_bursts {F = F} d (d.end_time - d.start_time))
                                    (codes "Activity Bursts:\n" ∷ [])
                                  ++ (if_any (filter_events Kind.connect es)
                                        (codes "Connection Patterns:\n")
                                      ++ if_any (tcp_events es) (codes "Network I/O Pattern:\n")))
                                ++ any_title (detect_issues {F = F} es)
                                    (codes "Potential Issues Detected:\n" ∷ []))))))))

-- The titles that a report should have.
abbrev pub outline : (F : Type 0) ⦃f : Float F⦄ → Printer → Diagnostician → List Bytes
outline F w d = if length d.events == 0 then no_events ∷ [] else event_outline F w d

-- The title of a part that is there.
there_title :
    {A : Type 0} (o : Option A) (es : List Event) (t : Bytes)
    → IsThere o es
    → some_title o (t ∷ []) ≡ if_any es t
there_title none es t h = ap (λ b. if b then t ∷ [] else []) h
there_title (some a) es t h = ap (λ b. if b then t ∷ [] else []) h

busy_title :
    {A : Type 0} (items : List A) (ts : List Bytes) → 0 < length items → any_title items ts ≡ ts
busy_title [] ts h = absurd (omega arith)
busy_title (x ∷ items) ts h = refl

few_issues : (F : Type 0) ⦃f : Float F⦄ (es : List Event) → length (detect_issues {F = F} es) ≤ 2
unfolding detect_issues connection_issues spike_issues
few_issues F es =
    let connects = connection_issues {F = F} (filter_events Kind.connect es) in
    let spikes = spike_issues {F = F} (tcp_events es) in
    let one : length connects ≤ 1 = ground arith in
    let other : length spikes ≤ 1 = ground arith in
    omega (arith, one, other, length-append connects spikes)

module _ {F : Type 0} ⦃f : Float F⦄ where
  traced_titles :
      (d : Diagnostician) (duration : ℕ) (p : Report F)
      → IsTraced d duration p.tracing
      → tracing_titles p.tracing
        ≡ codes "Process Activity:\n"
          ∷ codes "Activity Timeline:\n"
          ∷ (any_title (detect_bursts {F = F} d duration) (codes "Activity Bursts:\n" ∷ [])
              ++ (if_any (filter_events Kind.connect d.events) (codes "Connection Patterns:\n")
                  ++ if_any (tcp_events d.events) (codes "Network I/O Pattern:\n")))
  traced_titles d duration p traced = rw (
    busy_title p.tracing.processes (codes "Process Activity:\n" ∷ []) traced.busy,
    busy_title p.tracing.timeline (codes "Activity Timeline:\n" ∷ []) (omega (arith, traced.five)),
    traced.found,
    there_title p.tracing.connections (filter_events Kind.connect d.events)
        (codes "Connection Patterns:\n") traced.connected,
    there_title p.tracing.io (tcp_events d.events) (codes "Network I/O Pattern:\n")
        traced.transferred,
  )

  summary_part :
      (w : Printer) (d : Diagnostician) (p : Report F)
      → Outline (report_title w d ∷ codes "Summary:\n" ∷ []) 5 (summary_text w d p)
  unfolding summary_text
  summary_part w d p = title _ refl (title _ refl (line _ refl (line _ refl (line _ refl empty))))

  listed_part :
      (r : Runtime F) (laws : IsRuntime F r) (es : List Event)
      (o : Option (Section F (ConnectStats F)))
      → Has (Lists es) o
      → Outline
          (some_title o (codes "Connection Statistics:\n" ∷ []))
          (14 + count_if (λ e. is_error e.error) es)
          (when o (connect_text r))
  listed_part r laws es none h = record { names = refl; bound = omega arith }
  listed_part r laws es (some s) h =
      at_most _ _ (omega (arith, h, length-perm (laws.iterate_perm (Entry ℤ) s.stats.breakdown)))
        (connect_part r s)

  used_part :
      (d : Diagnostician) (duration : ℕ) (p : Report F)
      → IsReport d p
      → Outline (codes "CPU Usage by Process:\n" ∷ []) 23 (usage_text duration p.usage)
  used_part d duration p right =
      rw right.used (at_most _ 23 (omega (arith, right.few_rows)) (usage_part duration right.usage))

  report_part :
      (r : Runtime F) (laws : IsRuntime F r) (w : Printer) (d : Diagnostician) (p : Report F)
      → IsReport d p
      → Outline (event_outline F w d) (123 + failed_connects d.events) (report_lines r w d p)
  unfolding report_lines
  report_part r laws w d p right =
      let es = d.events in
      let duration = d.end_time - d.start_time in
      let whole = joined (summary_part w d p) (
        joined (some_part p.dns dns_text dns_part) (
          joined (some_part p.tcp (tcp_text es duration) (tcp_part es duration)) (
            joined (listed_part r laws (filter_events Kind.connect es) p.connect right.listed) (
              joined
                (some_part p.fs (fs_text es duration p.top_files) (fs_part es duration p.top_files))
                (joined (some_part p.cpu cpu_text cpu_part) (
                  joined (used_part d duration p right)
                    (joined (tracing_part w.clock p.tracing) (issues_part p.issues)))))))) in
      let issues_are : length p.issues ≡ length (detect_issues {F = F} es) =
        ap length right.issues in
      record {
        names =
            whole.names
            ∙ rw (
              there_title p.dns (filter_events Kind.dns es) (codes "DNS Statistics:\n") right.dns.1,
              there_title p.tcp (tcp_events es) (codes "TCP Statistics:\n") right.tcp.1,
              there_title p.connect (filter_events Kind.connect es)
                  (codes "Connection Statistics:\n") right.connect.1,
              there_title p.fs (fs_events es) (codes "File System Statistics:\n") right.fs.1,
              there_title p.cpu (filter_events Kind.sched_switch es) (codes "CPU Statistics:\n")
                  right.cpu.1,
              traced_titles d duration p right.traced,
              right.issues,
            );
        bound = omega (arith, whole.bound, right.traced.five, issues_are, few_issues F es);
      }

-- For up to 10^10 events, each of one of the eight types, in a period of five nanoseconds or more,
-- a text is printed; its headings are, in the fixed order, the title, the summary, the parts whose
-- kind of events, bursts or issues there are, the CPU usage, the processes and the timeline, or
-- just the line that there are no events; and it has at most 123 strings and one more for each
-- failed connection. The laws of Float and Runtime are assumed.
pub report_text_lem :
    {F : Type 0} ⦃f : Float F⦄ (r : Runtime F)
    → IsOrdered F
    → IsExact F
    → IsRuntime F r
    → (proc : ProcFs) (c : Cache) (w : Printer) (d : Diagnostician) → 5 ≤ d.end_time - d.start_time
    → length d.events ≤ max_count
    → All (λ e. e.type < 8) d.events
    → (text : List Bytes) × (report_text r proc c w d ≡ some text)
      × (headings text ≡ outline F w d)
      × (length text ≤ 123 + failed_connects d.events)
unfolding report_text
report_text_lem {F} r order exact laws proc c w d long few known =
    elim (Bool-cases (length d.events == 0)) [
      | inl none_there ↦ rw (none_there, report_text) (no_events ∷ [], refl, refl, omega arith)
      | inr some_there ↦
          let (p, e, right) =
            generate_report-IsReport r order exact laws proc c w.clock d long (ground arith) few
              known in
          let o = report_part r laws w d p right in
          rw (some_there, report_text) (report_lines r w d p, rw e refl, o.names, o.bound)
    ]
