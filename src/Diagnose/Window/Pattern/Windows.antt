-- ===== src/Diagnose/Window/Pattern/Windows.antt =====
-- The windows of the connection pattern: the loop ends, and counts no event twice.
use podtrace.Prelude.{
  ℕ, zero, suc, ◌+◌, ◌-◌, ◌*◌, ◌≤◌, ◌<◌, ◌≡◌, refl, some, List, [], ◌∷◌, ltb, length, sum_by, arith,
  Bool-cases, inl, inr,
}
use podtrace.Event.{Event}
use podtrace.Diagnose.Window.Time.{count_inside}
use podtrace.Diagnose.Window.Bursts.Laws.{windows_total}
use podtrace.Diagnose.Window.Pattern.{window_duration, window_counts}

pub window_duration_pos : (duration : ℕ) → 0 < window_duration duration
unfolding window_duration
window_duration_pos duration = ground arith

-- With fuel above the time that is left, the loop returns; its counts are those of windows that
-- follow one another, and the last one reaches the end.
pub window_counts_total :
    (fuel : ℕ) (es : List Event) (window end start : ℕ)
    → 0 < window
    → end - start < fuel
    → (counts : List ℕ) × (window_counts fuel es window end start ≡ some counts)
      × (sum_by (λ n. n) counts ≡ windows_total es window (length counts) start)
      × (end ≤ start + length counts * window)
unfolding window_counts
window_counts_total zero es window end start pos_window enough = absurd (omega arith)
window_counts_total (suc fuel) es window end start pos_window enough =
    elim (Bool-cases (ltb start end)) [
      | inl q ↦
          let earlier : start < end = ground arith in
          let (counts, e, total, reach) =
            window_counts_total fuel es window end (start + window) pos_window (omega arith) in
          (
            count_inside start (start + window) es ∷ counts,
            rw (q, e) refl,
            omega arith,
            omega arith,
          )
      | inr q ↦ ([], rw q refl, refl, ground arith)
    ]
