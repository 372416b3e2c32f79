-- ===== src/Diagnose/Window/Pattern.antt =====
-- `analyzeConnectionPattern` and `analyzeIOPattern`.
pub mod Windows
pub mod Peak
pub mod Correct
use podtrace.Prelude.{
  ℕ, zero, suc, ◌+◌, ◌*◌, ◌/◌, Bool, Option, none, some, List, [], ◌∷◌, ltb, ◌==◌, if◌then◌else◌,
  length,
}
use podtrace.Strings.{Bytes, codes}
use podtrace.Float.{Float, seconds}
use podtrace.Counts.{Eq, bytes_keys, Counts, increment}
use podtrace.Event.{Event}
use podtrace.Event.Kind
use podtrace.Diagnose.{Diagnostician, filter_events}
use podtrace.Diagnose.Analyze.{is_named_target}
use podtrace.Diagnose.Latency.{◌>>=◌}
use podtrace.Diagnose.Window.Time.{count_inside, one_second}
use podtrace.Diagnose.Window.Bursts.{rate_of}

pub record ConnectionPattern (F : Type 0) : Type 0 where
  pub pattern : Bytes
  pub avg_rate : F
  pub burst_rate : F
  pub unique_targets : ℕ

pub record IoPattern (F : Type 0) : Type 0 where
  pub send_recv_ratio : F
  pub avg_throughput : F
  pub peak_throughput : F

-- A tenth of the period, and a tenth of a second at least.
unfoldable pub window_duration : ℕ → ℕ
window_duration duration =
    let tenth = duration / 10 in if ltb tenth 100_000_000 then 100_000_000 else tenth

-- `for windowStart.Before(d.endTime)`, on fuel; `none` if that runs out.
unfoldable pub window_counts : ℕ → List Event → ℕ → ℕ → ℕ → Option (List ℕ)
window_counts zero es window end start = none
window_counts (suc fuel) es window end start =
    let rest = window_counts fuel es window end (start + window) in
    if ltb start end
    then (rest >>= λ counts. some (count_inside start (start + window) es ∷ counts))
    else some []

-- `targetMap[e.Target] = true` for the named targets; the length of the map is what is used.
unfoldable pub target_loop : List Event → Counts Bytes → Counts Bytes
target_loop [] m = m
target_loop (e ∷ es) m =
    target_loop es (if is_named_target e.target then increment e.target m else m)

module _ {F : Type 0} ⦃f : Float F⦄ where
  open f use {of_nat, add, mul}

  -- The sums of the counts and of their squares.
  unfoldable pub sum_loop : List ℕ → F → F → F × F
  sum_loop [] sum sum_sq = (sum, sum_sq)
  sum_loop (n ∷ ns) sum sum_sq =
      let count : F = of_nat n in sum_loop ns (add sum count) (add sum_sq (mul count count))

module _ (F : Type 0) ⦃f : Float F⦄ where
  open f use {of_nat, sub, mul, div, lt}

  -- "bursty", "steady" or "sporadic", by the variance of the counts
  unfoldable pub pattern_name : List ℕ → Bytes
  pattern_name counts =
      let (sum, sum_sq) = sum_loop counts (of_nat 0) (of_nat 0) in
      let n : F = of_nat (length counts) in
      let mean : F = div sum n in
      let variance : F = sub (div sum_sq n) (mul mean mean) in
      if lt (mul mean (div (of_nat 1) (of_nat 2))) variance
      then codes "bursty"
      else if lt variance (mul mean (div (of_nat 1) (of_nat 10)))
      then codes "steady"
      else codes "sporadic"

module _ {F : Type 0} ⦃f : Float F⦄ where
  open f use {of_nat, div, lt}

  -- The largest rate of the windows, from a rate so far.
  unfoldable pub peak_loop : ℕ → List ℕ → F → F
  peak_loop window [] peak = peak
  peak_loop window (n ∷ ns) peak =
      let rate : F = rate_of n window in peak_loop window ns (if lt peak rate then rate else peak)

  -- `none` is an exhausted fuel, which `Windows` excludes.
  unfoldable pub analyze_connection_pattern :
      Diagnostician → List Event → ℕ → Option (ConnectionPattern F)
  analyze_connection_pattern d connect_events duration =
      let window = window_duration duration in
      let nought : F = of_nat 0 in
      if length connect_events == 0
      then some
          (record { pattern = []; avg_rate = nought; burst_rate = nought; unique_targets = 0 })
      else do
        counts ← window_counts (suc d.end_time) connect_events window d.end_time d.start_time
        some (record {
          pattern = pattern_name F counts;
          avg_rate = rate_of (length connect_events) duration;
          burst_rate = peak_loop window counts nought;
          unique_targets = length (target_loop connect_events []);
        })

  -- The loop over a number of windows of a second.
  unfoldable pub throughput_loop : List Event → ℕ → ℕ → F → F
  throughput_loop es zero start peak = peak
  throughput_loop es (suc left) start peak =
      let rate : F = rate_of (count_inside start (start + one_second) es) one_second in
      throughput_loop es left (start + one_second) (if lt peak rate then rate else peak)

  unfoldable pub analyze_io_pattern : Diagnostician → List Event → ℕ → IoPattern F
  analyze_io_pattern d tcp_events duration =
      let send_count = length (filter_events Kind.tcp_send d.events) in
      let recv_count = length (filter_events Kind.tcp_recv d.events) in
      let windows = duration / one_second in
      record {
        send_recv_ratio =
            if ltb 0 recv_count then div (of_nat send_count) (of_nat recv_count) else of_nat 1;
        avg_throughput = rate_of (length tcp_events) duration;
        peak_throughput =
            throughput_loop tcp_events (if ltb windows 1 then 1 else windows) d.start_time
              (of_nat 0);
      }
