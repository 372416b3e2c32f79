-- ===== src/Diagnose/Report/Text/Usage.antt =====
-- The text of `generateCPUUsageReport` and of `generateCPUUsageFromProc`, of
-- internal/diagnose/cpu_profiling.go.
use podtrace.Prelude.{ℕ, zero, suc, Option, none, some, List, [], ◌∷◌, ◌++◌, map}
use podtrace.Strings.{Bytes, codes}
use podtrace.Float.{Float, seconds}
use podtrace.Diagnose.CpuUsage.{CpuRow, CpuUsage}
use podtrace.Diagnose.Report.Text.Lines.{sprintf, when_any, blank, print_nat, print_padded}

abbrev pub no_usage_text : List Bytes
no_usage_text =
    codes "CPU Usage by Process:\n"
    ∷ codes "  No CPU events collected during diagnostic period.\n"
    ∷ codes "  This may indicate:\n"
    ∷ codes "    - Pod is idle or sleeping\n"
    ∷ codes "    - eBPF probes not attached correctly\n"
    ∷ codes "    - No processes matching cgroup filter\n"
    ∷ codes "  Try:\n"
    ∷ codes "    - Longer duration: --diagnose 30s\n"
    ∷ codes "    - Check pod is active: kubectl logs <pod-name>\n"
    ∷ codes "    - Verify eBPF attachment (check stderr output)\n\n"
    ∷ []

module _ (F : Type 0) ⦃f : Float F⦄ where
  abbrev pub more_line : ℕ → List Bytes
  more_line zero = []
  more_line (suc n) =
      sprintf (codes "    ... and " ∷ print_nat F (suc n) ∷ codes " more system processes\n" ∷ [])
      ∷ []

module _ {F : Type 0} ⦃f : Float F⦄ where
  open f use {of_nat, mul, div, print}

  abbrev pub row_line : ℕ → CpuRow F → Bytes
  row_line duration row = sprintf (
      codes "    PID "
      ∷ print_nat F row.info.pid
      ∷ codes " ("
      ∷ row.info.name
      ∷ codes "):      "
      ∷ print_padded F row.info.percentage
      ∷ codes "% CPU ("
      ∷ print 2 row.cpu_time_sec
      ∷ codes "s / "
      ∷ print 2 (seconds duration)
      ∷ codes "s)\n"
      ∷ [])

  -- words, a share in percent, and the part of the period that it stands for
  abbrev pub share_line : Bytes → F → ℕ → Bytes → Bytes
  share_line words percent duration after = sprintf (
      words
      ∷ print 1 percent
      ∷ codes "% ("
      ∷ print 2 (div (mul percent (seconds duration)) (of_nat 100))
      ∷ codes "s / "
      ∷ print 2 (seconds duration)
      ∷ after
      ∷ [])

  unfoldable pub usage_text : ℕ → Option (CpuUsage F) → List Bytes
  usage_text duration none = no_usage_text
  usage_text duration (some u) =
      codes "CPU Usage by Process:\n"
      ∷ (when_any u.pod_rows
            (codes "  Pod Processes:\n" ∷ (map (row_line duration) u.pod_rows ++ blank ∷ []))
          ++ (when_any u.kernel_rows (
                codes "  System/Kernel Processes:\n"
                ∷ (map (row_line duration) u.kernel_rows
                    ++ (more_line F u.more_kernel ++ blank ∷ [])))
              ++ share_line (codes "\n  Total CPU usage: ") u.total_percent duration (codes "s)\n")
                ∷ share_line (codes "  Idle time: ") u.idle_percent duration (codes "s)\n\n")
                ∷ []))
