-- ===== src/Diagnose/Report/Text/Parts.antt =====
-- The outlines of the parts of the text on one kind of events each.
use podtrace.Prelude.{ℕ, zero, suc, ◌+◌, refl, some, List, [], ◌∷◌, map, length, arith}
use podtrace.Prelude.Int.{ℤ}
use podtrace.Strings.{Bytes, codes}
use podtrace.Float.{Float}
use podtrace.Runtime.{Runtime}
use podtrace.Counts.{Entry}
use podtrace.Event.{Event}
use podtrace.Diagnose.Latency.{Latency}
use podtrace.Diagnose.Analyze.{DnsStats, TcpStats, ConnectStats, FsStats}
use podtrace.Diagnose.CpuUsage.{CpuUsage}
use podtrace.Diagnose.Report.{Section, Issue}
use podtrace.Diagnose.Report.Text.Lines.{when_any, blank, entry_line, top_list}
use podtrace.Diagnose.Report.Text.Sections.{
  dns_text, tcp_text, connect_text, fs_text, cpu_text, issues_text, breakdown_line,
}
use podtrace.Diagnose.Report.Text.Usage.{usage_text, row_line, more_line}
use podtrace.Diagnose.Report.Text.Outline.{
  Outline, empty, title, line, joined, rows, rows_taken, at_most, any_lines, any_title, any_part,
}

-- The blank line at the end of a part.
pub ending : Outline [] 1 (blank ∷ [])
ending = line blank refl empty

module _ (F : Type 0) ⦃f : Float F⦄ where
  top_part :
      (words after : Bytes) (entries : List (Entry Bytes))
      → Outline [] 1 (words ∷ [])
      → Outline [] 6 (top_list F words after entries)
  unfolding top_list
  top_part words after entries h =
      any_lines entries (joined h (rows_taken (entry_line F after) 5 entries (λ e. refl)))

  more_part : (n : ℕ) → Outline [] 1 (more_line F n)
  more_part zero = at_most 0 1 (omega arith) empty
  more_part (suc n) = line _ refl empty

module _ {F : Type 0} ⦃f : Float F⦄ where
  pub dns_part :
      (s : Section F (DnsStats F)) → Outline (codes "DNS Statistics:\n" ∷ []) 13 (dns_text s)
  unfolding dns_text
  dns_part s = title _ refl (
      line _ refl (
        line _ refl (
          line _ refl (
            line _ refl (
              line _ refl
                (joined (top_part F _ _ s.stats.top_targets (line _ refl empty)) ending))))))

  pub tcp_part :
      (es : List Event) (duration : ℕ) (s : Section F (TcpStats F))
      → Outline (codes "TCP Statistics:\n" ∷ []) 9 (tcp_text es duration s)
  unfolding tcp_text
  tcp_part es duration s = title _ refl (
      line _ refl
        (line _ refl (line _ refl (line _ refl (line _ refl (line _ refl (line _ refl ending)))))))

  breakdown_part :
      (r : Runtime F) (breakdown : List (Entry ℤ))
      → Outline [] (suc (length (r.iterate (Entry ℤ) breakdown))) (
          when_any breakdown
            (codes "  Error breakdown:\n" ∷ map (breakdown_line F) (r.iterate (Entry ℤ) breakdown)))
  breakdown_part r breakdown =
      any_lines breakdown
        (line _ refl (rows (breakdown_line F) (r.iterate (Entry ℤ) breakdown) (λ e. refl)))

  pub connect_part :
      (r : Runtime F) (s : Section F (ConnectStats F))
      → Outline
          (codes "Connection Statistics:\n" ∷ [])
          (14 + length (r.iterate (Entry ℤ) s.stats.breakdown))
          (connect_text r s)
  unfolding connect_text
  connect_part r s = at_most _ _ (omega arith) (
      title _ refl (
        line _ refl (
          line _ refl (
            line _ refl (
              line _ refl (
                line _ refl (
                  joined (breakdown_part r s.stats.breakdown)
                    (joined (top_part F _ _ s.stats.top_targets (line _ refl empty)) ending))))))))

  pub fs_part :
      (es : List Event) (duration : ℕ) (files : List (Entry Bytes)) (s : Section F (FsStats F))
      → Outline (codes "File System Statistics:\n" ∷ []) 15 (fs_text es duration files s)
  unfolding fs_text
  fs_part es duration files s = title _ refl (
      line _ refl (
        line _ refl (
          line _ refl (
            line _ refl (
              line _ refl (
                line _ refl
                  (line _ refl (joined (top_part F _ _ files (line _ refl empty)) ending))))))))

  pub cpu_part :
      (s : Section F (Latency F)) → Outline (codes "CPU Statistics:\n" ∷ []) 6 (cpu_text s)
  unfolding cpu_text
  cpu_part s = title _ refl (line _ refl (line _ refl (line _ refl (line _ refl ending))))

  pub issues_part :
      (issues : List (Issue F))
      → Outline
          (any_title issues (codes "Potential Issues Detected:\n" ∷ []))
          (2 + length issues)
          (issues_text issues)
  unfolding issues_text
  issues_part issues =
      any_part issues
        (at_most _ _ (omega arith) (title _ refl (joined (rows _ issues (λ i. refl)) ending)))

  pub usage_part :
      (duration : ℕ) (u : CpuUsage F)
      → Outline
          (codes "CPU Usage by Process:\n" ∷ [])
          (8 + (length u.pod_rows + length u.kernel_rows))
          (usage_text duration (some u))
  unfolding usage_text
  usage_part duration u = at_most _ _ (omega arith) (
      title _ refl (
        joined
          (any_lines u.pod_rows
            (line _ refl (joined (rows (row_line duration) u.pod_rows (λ row. refl)) ending)))
          (joined
            (any_lines u.kernel_rows (
              line _ refl (
                joined (rows (row_line duration) u.kernel_rows (λ row. refl))
                  (joined (more_part F u.more_kernel) ending))))
            (line _ refl (line _ refl empty)))))
