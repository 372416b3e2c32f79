-- ===== src/Diagnose/Window/Pattern/Correct.antt =====
-- What the connection pattern says of the connections.
use podtrace.Prelude.{
  ℕ, suc, ◌+◌, ◌*◌, ◌≤◌, ◌<◌, ◌≡◌, refl, false, ◌&&◌, ◌==◌, some, List, [], ◌∷◌, length, All,
  sum_by, count_if, arith,
}
use podtrace.Strings.{Bytes, bytes_eq}
use podtrace.Float.{Float, IsOrdered}
use podtrace.Counts.{bytes_keys, Counts, count_of}
use podtrace.Counts.Laws.{IsMap, IsRaised, tally, tally-IsMap, tally-IsRaised, count_of-tally}
use podtrace.Event.{Event}
use podtrace.Diagnose.{Diagnostician}
use podtrace.Diagnose.Analyze.{is_named_target}
use podtrace.Diagnose.Window.Bursts.{rate_of}
use podtrace.Diagnose.Window.Bursts.Laws.{windows_total-le}
use podtrace.Diagnose.Window.Pattern.{
  ConnectionPattern, window_duration, window_counts, target_loop, analyze_connection_pattern,
  pattern_name, peak_loop,
}
use podtrace.Diagnose.Window.Pattern.Windows.{window_duration_pos, window_counts_total}
use podtrace.Diagnose.Window.Pattern.Peak.{peak_loop_bound}

target_loop-tally :
    (es : List Event) (m : Counts Bytes)
    → target_loop es m ≡ tally (λ e. is_named_target e.target) (λ e. e.target) es m
unfolding target_loop tally
target_loop-tally [] m = refl
target_loop-tally (e ∷ es) m = target_loop-tally es _

-- The number of different named targets: the length of a list in which each of them stands once.
abbrev pub IsTargetCount : List Event → ℕ → Type 0
IsTargetCount es n =
    (m : Counts Bytes) × IsMap m
    × IsRaised m
    × ((t : Bytes)
        → count_of t m ≡ count_if (λ e. is_named_target e.target && bytes_eq e.target t) es)
    × (n ≡ length m)

target_loop-IsTargetCount : (es : List Event) → IsTargetCount es (length (target_loop es []))
unfolding count_of
target_loop-IsTargetCount es = rw (target_loop-tally es []) (
  tally (λ e. is_named_target e.target) (λ e. e.target) es [],
  tally-IsMap (λ e. is_named_target e.target) (λ e. e.target) es [] tt,
  tally-IsRaised (λ e. is_named_target e.target) (λ e. e.target) es [] tt,
  λ t. omega (arith, count_of-tally (λ e. is_named_target e.target) (λ e. e.target) t es []),
  refl,
)

module _ (F : Type 0) ⦃f : Float F⦄ (order : IsOrdered F) where
  open f use {lt}

  -- For one connection or more the pattern is produced: the windows reach the end of the period and
  -- count no connection twice, no window's rate is above the peak, and the different named targets
  -- are counted. The laws of Float are assumed.
  pub analyze_connection_pattern_lem :
      (d : Diagnostician) (es : List Event) (duration : ℕ)
      → 0 < length es
      → (p : ConnectionPattern F) × (counts : List ℕ) × (analyze_connection_pattern d es duration
          ≡ some p)
        × (window_counts (suc d.end_time) es (window_duration duration) d.end_time d.start_time
            ≡ some counts)
        × (d.end_time ≤ d.start_time + length counts * window_duration duration)
        × (sum_by (λ n. n) counts ≤ length es)
        × All (λ n. lt p.burst_rate (rate_of n (window_duration duration)) ≡ false) counts
        × IsTargetCount es p.unique_targets
  unfolding analyze_connection_pattern
  analyze_connection_pattern_lem d es duration some_event =
      let window = window_duration duration in
      let (counts, e, total, reach) =
        window_counts_total (suc d.end_time) es window d.end_time d.start_time
          (window_duration_pos duration) (omega arith) in
      let not_empty : (length es == 0) ≡ false = ground arith in
      let nought : F = f.of_nat 0 in
      (
        record {
          pattern = pattern_name F counts;
          avg_rate = rate_of (length es) duration;
          burst_rate = peak_loop window counts nought;
          unique_targets = length (target_loop es []);
        },
        counts,
        rw (not_empty, e) refl,
        e,
        reach,
        omega (arith, total, windows_total-le es window (length counts) d.start_time),
        peak_loop_bound F order window counts nought,
        target_loop-IsTargetCount es,
      )
