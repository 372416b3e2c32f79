-- ===== src/Diagnose/Window/Bursts.antt =====
-- `detectBursts`: windows of a second whose rate is more than twice the average.
pub mod Laws
pub mod Seconds
use podtrace.Prelude.{ℕ, zero, suc, ◌+◌, ◌*◌, ◌/◌, Bool, List, [], ◌∷◌, ltb, if◌then◌else◌, length}
use podtrace.Float.{Float, seconds}
use podtrace.Event.{Event}
use podtrace.Diagnose.{Diagnostician}
use podtrace.Diagnose.Window.Time.{count_inside, one_second}

pub record Burst (F : Type 0) : Type 0 where
  pub time : ℕ
  pub rate : F
  pub multiplier : F

module _ {F : Type 0} ⦃f : Float F⦄ where
  open f use {of_nat, mul, div, lt}

  -- `float64(count) / windowDuration.Seconds()`
  abbrev pub rate_of : ℕ → ℕ → F
  rate_of count window = let s : F = seconds window in div (of_nat count) s

  -- The loop over the windows; so many are left, and the next begins at the second number.
  unfoldable pub burst_loop : List Event → F → ℕ → ℕ → List (Burst F)
  burst_loop events avg_rate zero window_start = []
  burst_loop events avg_rate (suc left) window_start =
      let window_end = window_start + one_second in
      let rate : F = rate_of (count_inside window_start window_end events) one_second in
      let rest = burst_loop events avg_rate left window_end in
      if lt (mul avg_rate (of_nat 2)) rate
      then record { time = window_start; rate = rate; multiplier = div rate avg_rate } ∷ rest
      else rest

  unfoldable pub detect_bursts : Diagnostician → ℕ → List (Burst F)
  detect_bursts d duration =
      let num_windows = duration / one_second in
      if ltb (length d.events) 10
      then []
      else if ltb num_windows 2
      then []
      else burst_loop d.events (rate_of (length d.events) duration) num_windows d.start_time
