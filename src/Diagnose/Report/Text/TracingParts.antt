-- ===== src/Diagnose/Report/Text/TracingParts.antt =====
-- The outline of the text of the application tracing.
use podtrace.Prelude.{ℕ, zero, suc, ◌+◌, refl, List, [], ◌∷◌, ◌++◌, length, arith}
use podtrace.Strings.{Bytes, codes}
use podtrace.Float.{Float}
use podtrace.Diagnose.Activity.{PidInfo}
use podtrace.Diagnose.Window.Timeline.{Bucket}
use podtrace.Diagnose.Window.Bursts.{Burst}
use podtrace.Diagnose.Window.Pattern.{ConnectionPattern, IoPattern}
use podtrace.Diagnose.Report.{Tracing}
use podtrace.Diagnose.Report.Text.Activity.{
  processes_text, process_line, timeline_text, bucket_line, bursts_text, burst_line,
  connections_text, io_text, target_lines, tracing_text,
}
use podtrace.Diagnose.Report.Text.Outline.{
  Outline, empty, title, line, joined, rows, rows_taken, at_most, any_title, any_part, if_lines,
  some_title, some_part,
}
use podtrace.Diagnose.Report.Text.Parts.{ending}

module _ (F : Type 0) ⦃f : Float F⦄ where
  target_part : (n : ℕ) → Outline [] 1 (target_lines F n)
  target_part zero = at_most 0 1 (omega arith) empty
  target_part (suc n) = line _ refl empty

module _ {F : Type 0} ⦃f : Float F⦄ where
  pub processes_part :
      (infos : List (PidInfo F))
      → Outline (any_title infos (codes "Process Activity:\n" ∷ [])) 9 (processes_text infos)
  unfolding processes_text
  processes_part infos = any_part infos (
      title _ refl
        (line _ refl (line _ refl (joined (rows_taken process_line 5 infos (λ i. refl)) ending))))

  pub timeline_part :
      (timeline : List (Bucket F))
      → Outline
          (any_title timeline (codes "Activity Timeline:\n" ∷ []))
          (3 + length timeline)
          (timeline_text timeline)
  unfolding timeline_text
  timeline_part timeline = any_part timeline (
      at_most _ _ (omega arith)
        (title _ refl (line _ refl (joined (rows bucket_line timeline (λ b. refl)) ending))))

  pub bursts_part :
      (clock : ℕ → Bytes) (bursts : List (Burst F))
      → Outline (any_title bursts (codes "Activity Bursts:\n" ∷ [])) 6 (bursts_text clock bursts)
  unfolding bursts_text
  bursts_part clock bursts = any_part bursts (
      title _ refl
        (line _ refl (joined (rows_taken (burst_line clock) 3 bursts (λ b. refl)) ending)))

  pub connections_part :
      (p : ConnectionPattern F)
      → Outline (codes "Connection Patterns:\n" ∷ []) 6 (connections_text p)
  unfolding connections_text
  connections_part p = title _ refl (
      line _ refl (
        line _ refl (
          joined (if_lines (f.lt (f.of_nat 0) p.burst_rate) (line _ refl empty))
            (joined (target_part F p.unique_targets) ending))))

  pub io_part : (p : IoPattern F) → Outline (codes "Network I/O Pattern:\n" ∷ []) 5 (io_text p)
  unfolding io_text
  io_part p = title _ refl (
      line _ refl (
        line _ refl
          (joined (if_lines (f.lt (f.of_nat 0) p.peak_throughput) (line _ refl empty)) ending)))

  -- The titles of the application tracing.
  abbrev pub tracing_titles : Tracing F → List Bytes
  tracing_titles t =
      any_title t.processes (codes "Process Activity:\n" ∷ [])
      ++ (any_title t.timeline (codes "Activity Timeline:\n" ∷ [])
          ++ (any_title t.bursts (codes "Activity Bursts:\n" ∷ [])
              ++ (some_title t.connections (codes "Connection Patterns:\n" ∷ [])
                  ++ some_title t.io (codes "Network I/O Pattern:\n" ∷ []))))

  pub tracing_part :
      (clock : ℕ → Bytes) (t : Tracing F)
      → Outline (tracing_titles t) (29 + length t.timeline) (tracing_text clock t)
  unfolding tracing_text
  tracing_part clock t = at_most _ _ (omega arith) (
      joined (processes_part t.processes) (
        joined (timeline_part t.timeline) (
          joined (bursts_part clock t.bursts) (
            joined (some_part t.connections connections_text connections_part)
              (some_part t.io io_text io_part)))))
