-- ===== src/Diagnose/Report/Text.antt =====
-- The text of a report: `GenerateReport` with its figures written out.
mod Lines
mod Sections
mod Usage
mod Activity
pub mod Outline
mod Parts
mod TracingParts
pub mod Complete
use podtrace.Prelude.{ℕ, ◌-◌, Option, none, some, List, [], ◌∷◌, ◌++◌, ◌==◌, length, if◌then◌else◌}
use podtrace.Strings.{Bytes, codes}
use podtrace.Float.{Float}
use podtrace.Runtime.{Runtime}
use podtrace.ProcName.{ProcFs, Cache}
use podtrace.Diagnose.{Diagnostician}
use podtrace.Diagnose.Latency.{◌>>=◌}
use podtrace.Diagnose.Report.{Report, generate_report}
use podtrace.Diagnose.Report.Text.Lines.{sprintf, when, blank, print_nat}
use podtrace.Diagnose.Report.Text.Sections.{
  dns_text, tcp_text, connect_text, fs_text, cpu_text, issues_text,
}
use podtrace.Diagnose.Report.Text.Usage.{usage_text}
use podtrace.Diagnose.Report.Text.Activity.{tracing_text}

-- How a duration is printed (`%v`), and a time (`Format("15:04:05")`).
pub record Printer : Type 0 where
  pub print_duration : ℕ → Bytes
  pub clock : ℕ → Bytes

abbrev pub no_events : Bytes
no_events = codes "No events collected during the diagnostic period.\n"

module _ {F : Type 0} ⦃f : Float F⦄ where
  unfoldable pub summary_text : Printer → Diagnostician → Report F → List Bytes
  summary_text w d p =
      sprintf (
        codes "=== Diagnostic Report (collected over "
        ∷ w.print_duration (d.end_time - d.start_time)
        ∷ codes ") ===\n\n"
        ∷ [])
      ∷ codes "Summary:\n"
      ∷ sprintf (codes "  Total events: " ∷ print_nat F p.total ∷ blank ∷ [])
      ∷ sprintf (codes "  Events per second: " ∷ f.print 1 p.per_sec ∷ blank ∷ [])
      ∷ sprintf (
          codes "  Collection period: "
          ∷ w.clock d.start_time
          ∷ codes " to "
          ∷ w.clock d.end_time
          ∷ codes "\n\n"
          ∷ [])
      ∷ []

  unfoldable pub report_lines : Runtime F → Printer → Diagnostician → Report F → List Bytes
  report_lines r w d p =
      let es = d.events in
      let duration = d.end_time - d.start_time in
      summary_text w d p
      ++ (when p.dns dns_text
          ++ (when p.tcp (tcp_text es duration)
              ++ (when p.connect (connect_text r)
                  ++ (when p.fs (fs_text es duration p.top_files)
                      ++ (when p.cpu cpu_text
                          ++ (usage_text duration p.usage
                              ++ (tracing_text w.clock p.tracing ++ issues_text p.issues)))))))

  module _ (r : Runtime F) where
    -- `none` is a panic.
    unfoldable pub report_text : ProcFs → Cache → Printer → Diagnostician → Option (List Bytes)
    report_text proc c w d =
        if length d.events == 0
        then some (no_events ∷ [])
        else (generate_report r proc c w.clock d >>= λ p. some (report_lines r w d p))
