-- ===== src/Tests/Periods.antt =====
-- Runs of the analyses of a period.
use podtrace.Prelude.{
  ℕ, zero, suc, ◌↔◌, refl, replicate, ◌+◌, ◌*◌, ◌/◌, ◌≡◌, ◌≤◌, false, some, List, [], ◌∷◌, length,
  sum_by, All, arith,
}
use podtrace.Strings.{Bytes, codes}
use podtrace.Float.Fixed.{fixed_float, Fixed-IsOrdered, Fixed-IsExact}
use podtrace.Event.{Event}
use podtrace.Diagnose.{Diagnostician}
use podtrace.Diagnose.Window.Time.{event_time, one_second, IsBefore, IsBefore-of_small}
use podtrace.Diagnose.Window.Timeline.{Bucket, analyze_timeline}
use podtrace.Diagnose.Window.Timeline.Laws.{
  counts_of, sum, analyze_timeline_lem, analyze_timeline_before,
}
use podtrace.Diagnose.Window.Bursts.{Burst, rate_of, burst_loop, detect_bursts}
use podtrace.Diagnose.Window.Bursts.Seconds.{
  IsBurst, IsRising, IsLong, IsLoud, Begins, detect_bursts_iff,
}
use podtrace.Diagnose.Window.Pattern.{
  ConnectionPattern, window_duration, window_counts, analyze_connection_pattern,
}
use podtrace.Diagnose.Window.Pattern.Peak.{detect_bursts_before}
use podtrace.Diagnose.Window.Pattern.Correct.{IsTargetCount, analyze_connection_pattern_lem}
use podtrace.Tests.Data.{
  lookup, refused, accepted, slow_send, again, slow_write, quick_lookup, blocked, collector,
  late_collector, busy_collector,
}

abbrev ten_seconds : ℕ
ten_seconds = 10_000_000_000

-- A clock that names no time.
abbrev no_clock : ℕ → Bytes
no_clock t = codes "--:--:--"

abbrev connects : List Event
connects = refused ∷ accepted ∷ []

abbrev transfers : List Event
transfers = slow_send ∷ again ∷ []

late-IsBefore :
    (e : Event) → e.timestamp ≤ 1_700_000_000_000_000_000 → IsBefore late_collector.start_time e
late-IsBefore e h = IsBefore-of_small late_collector.start_time e h

late_events : All (IsBefore late_collector.start_time) late_collector.events
late_events = (
  late-IsBefore lookup (omega arith),
  (
    late-IsBefore refused (omega arith),
    (
      late-IsBefore accepted (omega arith),
      (
        late-IsBefore slow_send (omega arith),
        (
          late-IsBefore again (omega arith),
          (
            late-IsBefore slow_write (omega arith),
            (late-IsBefore quick_lookup (omega arith), (late-IsBefore blocked (omega arith), tt)),
          ),
        ),
      ),
    ),
  ),
)

analyze_timeline_lem_example :
    (t : List (Bucket ℕ)) × (analyze_timeline no_clock collector ten_seconds ≡ some t)
    × (length (counts_of t) ≡ 5)
    × (sum (counts_of t) ≡ length collector.events)
analyze_timeline_lem_example =
    analyze_timeline_lem ℕ no_clock collector ten_seconds (omega arith) (omega arith)

analyze_timeline_before_example :
    (t : List (Bucket ℕ)) × (analyze_timeline no_clock late_collector ten_seconds ≡ some t)
    × (counts_of t ≡ length late_collector.events ∷ 0 ∷ 0 ∷ 0 ∷ 0 ∷ [])
analyze_timeline_before_example =
    analyze_timeline_before ℕ no_clock late_collector ten_seconds (omega arith) (omega arith)
      late_events

-- The first second is a burst.
detect_bursts_iff_example :
    let avg : ℕ = rate_of (length busy_collector.events) ten_seconds in
    All
      (IsBurst ℕ busy_collector.events avg busy_collector.start_time (ten_seconds / one_second))
      (detect_bursts busy_collector ten_seconds)
    × IsRising ℕ busy_collector.start_time (detect_bursts busy_collector ten_seconds)
    × (Begins ℕ 4_000_000_000 (detect_bursts busy_collector ten_seconds) ↔ (
        IsLong busy_collector ten_seconds
        × IsLoud ℕ busy_collector.events avg busy_collector.start_time
            (ten_seconds / one_second)
            4_000_000_000))
detect_bursts_iff_example = detect_bursts_iff ℕ busy_collector ten_seconds 4_000_000_000

first_second :
    (b : Burst ℕ) × (detect_bursts busy_collector ten_seconds ≡ b ∷ []) × (b.time ≡ 4_000_000_000)
unfolding detect_bursts burst_loop event_time
first_second = (_, refl, refl)

analyze_connection_pattern_lem_example :
    (p : ConnectionPattern ℕ) × (counts : List ℕ) × (analyze_connection_pattern collector connects
        ten_seconds
      ≡ some p)
    × (window_counts
          (suc collector.end_time)
          connects
          (window_duration ten_seconds)
          collector.end_time
          collector.start_time
        ≡ some counts)
    × (collector.end_time ≤ collector.start_time + length counts * window_duration ten_seconds)
    × (sum_by (λ n. n) counts ≤ length connects)
    × All
        (λ n. fixed_float.lt p.burst_rate (rate_of n (window_duration ten_seconds)) ≡ false)
        counts
    × IsTargetCount connects p.unique_targets
analyze_connection_pattern_lem_example =
    analyze_connection_pattern_lem ℕ Fixed-IsOrdered collector connects ten_seconds (omega arith)

-- The twelve events on a machine whose clock reads a date of 2023.
abbrev late_busy : Diagnostician
late_busy = record busy_collector { start_time = late_collector.start_time }

busy_events :
    (n : ℕ)
    → All
        (IsBefore late_busy.start_time)
        (replicate n (record quick_lookup { timestamp = 4_500_000_000 }))
busy_events zero = tt
busy_events (suc n) =
    (late-IsBefore (record quick_lookup { timestamp = 4_500_000_000 }) (omega arith), busy_events n)

detect_bursts_before_example : detect_bursts {F = ℕ} late_busy ten_seconds ≡ []
detect_bursts_before_example =
    detect_bursts_before ℕ Fixed-IsOrdered Fixed-IsExact late_busy ten_seconds (busy_events 12)
