-- ===== src/Diagnose/Window/Pattern/Peak.antt =====
-- The peaks of the two patterns, and what becomes of events before the start of the period.
use podtrace.Prelude.{
  ℕ, zero, suc, ◌+◌, ◌/◌, ◌≡◌, refl, ◌∙◌, ap, true, false, List, [], ◌∷◌, length, All,
  if◌then◌else◌, arith, Bool-cases, inl, inr,
}
use podtrace.Float.{Float, IsOrdered, IsExact, seconds}
use podtrace.Event.{Event}
use podtrace.Diagnose.{Diagnostician}
use podtrace.Diagnose.Window.Time.{count_inside, count_inside_before, IsBefore, one_second}
use podtrace.Diagnose.Window.Bursts.{rate_of, burst_loop, detect_bursts}
use podtrace.Diagnose.Window.Pattern.{peak_loop, throughput_loop, analyze_io_pattern}

module _ (F : Type 0) ⦃f : Float F⦄ (order : IsOrdered F) where
  open f use {of_nat, mul, div, lt}

  -- From a peak on, the loop does not fall below it.
  peak_loop-ge :
      (window : ℕ) (ns : List ℕ) (peak x : F)
      → lt peak x ≡ false
      → lt (peak_loop window ns peak) x ≡ false
  unfolding peak_loop
  peak_loop-ge window [] peak x h = h
  peak_loop-ge window (n ∷ ns) peak x h = elim (Bool-cases (lt peak (rate_of n window))) [
    | inl q ↦ rw q (
        peak_loop-ge window ns (rate_of n window) x
          (ground (arith, order.lt_trans peak (rate_of n window) x)))
    | inr q ↦ rw q (peak_loop-ge window ns peak x h)
  ]

  raise-ge : (peak x : F) → lt (if lt peak x then x else peak) x ≡ false
  raise-ge peak x = elim (Bool-cases (lt peak x)) [
    | inl q ↦ rw q (order.lt_irrefl x)
    | inr q ↦ rw q q
  ]

  -- No window's rate is above the peak.
  pub peak_loop_bound :
      (window : ℕ) (ns : List ℕ) (peak : F)
      → All (λ n. lt (peak_loop window ns peak) (rate_of n window) ≡ false) ns
  unfolding peak_loop
  peak_loop_bound window [] peak = tt
  peak_loop_bound window (n ∷ ns) peak =
      let next : F = if lt peak (rate_of n window) then rate_of n window else peak in
      (
        peak_loop-ge window ns next (rate_of n window) (raise-ge peak (rate_of n window)),
        peak_loop_bound window ns next,
      )

  module _ (exact : IsExact F) where
    seconds_one : seconds one_second ≡ of_nat 1
    seconds_one = ap (f.add (of_nat 1)) (exact.zero_div 999_999_999) ∙ exact.add_zero 1

    rate_of_none : rate_of 0 one_second ≡ of_nat 0
    rate_of_none = ap (div (of_nat 0)) seconds_one ∙ exact.div_one 0

    later-IsBefore :
        (now more : ℕ) (es : List Event) → All (IsBefore now) es → All (IsBefore (now + more)) es
    later-IsBefore now more [] h = tt
    later-IsBefore now more (e ∷ es) h = (omega (arith, h.0), later-IsBefore now more es h.1)

    -- An empty second is no peak and no burst.
    empty_second :
        (events : List Event) (start : ℕ)
        → All (IsBefore start) events
        → rate_of (count_inside start (start + one_second) events) one_second ≡ of_nat 0
    empty_second events start before =
        ap (λ n. rate_of n one_second)
          (count_inside_before start (start + one_second) events before)
        ∙ rate_of_none

    burst_loop_before :
        (events : List Event) (avg_rate : F) (left start : ℕ)
        → order.is_plus avg_rate ≡ true
        → All (IsBefore start) events
        → burst_loop events avg_rate left start ≡ []
    unfolding burst_loop
    burst_loop_before events avg_rate zero start plus before = refl
    burst_loop_before events avg_rate (suc left) start plus before =
        let not_above =
          order.plus_nonneg (mul avg_rate (of_nat 2))
            (order.mul_plus avg_rate (of_nat 2) plus (order.of_nat_plus 2)) in
        rw (empty_second events start before, not_above)
          (burst_loop_before events avg_rate left (start + one_second) plus
            (later-IsBefore start one_second events before))

    rate_of-plus : (count window : ℕ) → order.is_plus (rate_of count window) ≡ true
    rate_of-plus count window =
        order.div_plus (of_nat count) (seconds window) (order.of_nat_plus count) (
          order.add_plus _ _ (order.of_nat_plus _)
            (order.div_plus _ _ (order.of_nat_plus _) (order.of_nat_plus _)))

    -- If no event lies behind the start of the period, no burst is found. The laws of Float are
    -- assumed.
    pub detect_bursts_before :
        (d : Diagnostician) (duration : ℕ)
        → All (IsBefore d.start_time) d.events
        → detect_bursts {F = F} d duration ≡ []
    unfolding detect_bursts
    detect_bursts_before d duration before = ground (
      arith,
      burst_loop_before d.events (rate_of (length d.events) duration) (duration / one_second)
          d.start_time (rate_of-plus (length d.events) duration) before,
    )

    throughput_loop_before :
        (es : List Event) (left start : ℕ)
        → All (IsBefore start) es
        → throughput_loop es left start (of_nat 0) ≡ of_nat 0
    unfolding throughput_loop
    throughput_loop_before es zero start before = refl
    throughput_loop_before es (suc left) start before =
        rw (empty_second es start before, order.lt_irrefl (of_nat 0))
          (throughput_loop_before es left (start + one_second)
            (later-IsBefore start one_second es before))

    -- If no operation lies behind the start of the period, the peak of the throughput is 0. The
    -- laws of Float are assumed.
    pub analyze_io_pattern_before :
        (d : Diagnostician) (tcp_events : List Event) (duration : ℕ)
        → All (IsBefore d.start_time) tcp_events
        → (analyze_io_pattern {F = F} d tcp_events duration).peak_throughput ≡ of_nat 0
    unfolding analyze_io_pattern
    analyze_io_pattern_before d tcp_events duration before =
        throughput_loop_before tcp_events _ d.start_time before
