-- ===== src/Diagnose/Report/Text/Activity.antt =====
-- The text of `generateApplicationTracing`.
use podtrace.Prelude.{ℕ, zero, suc, List, [], ◌∷◌, ◌++◌, map, length, take, if◌then◌else◌}
use podtrace.Strings.{Bytes, codes, is_empty}
use podtrace.Float.{Float}
use podtrace.Diagnose.Activity.{PidInfo}
use podtrace.Diagnose.Window.Timeline.{Bucket}
use podtrace.Diagnose.Window.Bursts.{Burst}
use podtrace.Diagnose.Window.Pattern.{ConnectionPattern, IoPattern}
use podtrace.Diagnose.Report.{Tracing}
use podtrace.Diagnose.Report.Text.Lines.{sprintf, when, when_any, blank, print_nat}

module _ (F : Type 0) ⦃f : Float F⦄ where
  abbrev pub target_lines : ℕ → List Bytes
  target_lines zero = []
  target_lines (suc n) =
      sprintf (codes "  Unique targets: " ∷ print_nat F (suc n) ∷ blank ∷ []) ∷ []

module _ {F : Type 0} ⦃f : Float F⦄ where
  open f use {of_nat, lt, print}

  abbrev pub process_line : PidInfo F → Bytes
  process_line i = sprintf (
      codes "    - PID "
      ∷ print_nat F i.pid
      ∷ codes " ("
      ∷ (if is_empty i.name then codes "unknown" else i.name)
      ∷ codes "): "
      ∷ print_nat F i.count
      ∷ codes " events ("
      ∷ print 1 i.percentage
      ∷ codes "%)\n"
      ∷ [])

  unfoldable pub processes_text : List (PidInfo F) → List Bytes
  processes_text infos = when_any infos (
      codes "Process Activity:\n"
      ∷ sprintf (codes "  Active processes: " ∷ print_nat F (length infos) ∷ blank ∷ [])
      ∷ codes "  Top active processes:\n"
      ∷ (map process_line (take 5 infos) ++ blank ∷ []))

  abbrev pub bucket_line : Bucket F → Bytes
  bucket_line b = sprintf (
      codes "    - "
      ∷ b.period
      ∷ codes ": "
      ∷ print_nat F b.count
      ∷ codes " events ("
      ∷ print 1 b.percentage
      ∷ codes "%)\n"
      ∷ [])

  unfoldable pub timeline_text : List (Bucket F) → List Bytes
  timeline_text timeline = when_any timeline (
      codes "Activity Timeline:\n"
      ∷ codes "  Activity distribution:\n"
      ∷ (map bucket_line timeline ++ blank ∷ []))

  abbrev pub burst_line : (ℕ → Bytes) → Burst F → Bytes
  burst_line clock b = sprintf (
      codes "    - "
      ∷ clock b.time
      ∷ codes ": "
      ∷ print 1 b.rate
      ∷ codes " events/sec ("
      ∷ print 1 b.multiplier
      ∷ codes "x normal rate)\n"
      ∷ [])

  unfoldable pub bursts_text : (ℕ → Bytes) → List (Burst F) → List Bytes
  bursts_text clock bursts = when_any bursts (
      codes "Activity Bursts:\n"
      ∷ sprintf
          (codes "  Detected " ∷ print_nat F (length bursts) ∷ codes " burst period(s):\n" ∷ [])
      ∷ (map (burst_line clock) (take 3 bursts) ++ blank ∷ []))

  -- words, a figure with one digit, words; no line where the figure is not positive
  abbrev pub figure_line : Bytes → F → Bytes → Bytes
  figure_line words x after = sprintf (words ∷ print 1 x ∷ after ∷ [])

  abbrev pub peak_lines : Bytes → F → Bytes → List Bytes
  peak_lines words x after = if lt (of_nat 0) x then figure_line words x after ∷ [] else []

  unfoldable pub connections_text : ConnectionPattern F → List Bytes
  connections_text p =
      codes "Connection Patterns:\n"
      ∷ sprintf (codes "  Pattern: " ∷ p.pattern ∷ blank ∷ [])
      ∷ figure_line (codes "  Average rate: ") p.avg_rate (codes " connections/sec\n")
      ∷ (peak_lines (codes "  Peak rate: ") p.burst_rate (codes " connections/sec\n")
          ++ (target_lines F p.unique_targets ++ blank ∷ []))

  unfoldable pub io_text : IoPattern F → List Bytes
  io_text p =
      codes "Network I/O Pattern:\n"
      ∷ sprintf (codes "  Send/Receive ratio: " ∷ print 2 p.send_recv_ratio ∷ codes ":1\n" ∷ [])
      ∷ figure_line (codes "  Average throughput: ") p.avg_throughput (codes " ops/sec\n")
      ∷ (peak_lines (codes "  Peak throughput: ") p.peak_throughput (codes " ops/sec\n")
          ++ blank ∷ [])

  unfoldable pub tracing_text : (ℕ → Bytes) → Tracing F → List Bytes
  tracing_text clock t =
      processes_text t.processes
      ++ (timeline_text t.timeline
          ++ (bursts_text clock t.bursts
              ++ (when t.connections connections_text ++ when t.io io_text)))
