-- ===== src/Diagnose/Window/Bursts/Seconds.antt =====
-- The bursts of `detectBursts` of internal/diagnose/diagnose.go, and the seconds that they stand for.
use podtrace.Prelude.{
  ltb, ℕ, zero, suc, ◌+◌, ◌*◌, ◌/◌, ◌≤◌, ◌<◌, ◌≡◌, ◌↔◌, ◌⊎◌, refl, sym, ap, ◌∙◌, subst, true, List,
  [], ◌∷◌, length, All, arith, Bool-cases, inl, inr,
}
use podtrace.Float.{Float}
use podtrace.Event.{Event}
use podtrace.Diagnose.{Diagnostician}
use podtrace.Diagnose.Window.Time.{count_inside, one_second}
use podtrace.Diagnose.Window.Bursts.{Burst, rate_of, burst_loop, detect_bursts}

-- Enough events and enough time to look for bursts.
abbrev pub IsLong : Diagnostician → ℕ → Type 0
IsLong d duration = (10 ≤ length d.events) × (2 * one_second ≤ duration)

module _ (F : Type 0) ⦃f : Float F⦄ where
  open f use {of_nat, mul, div, lt}

  -- A burst of the events: it begins a whole number of seconds behind the start, below the bound,
  -- its rate is that of the events inside its second, and is above twice the average.
  abbrev pub IsBurst : List Event → F → ℕ → ℕ → Burst F → Type 0
  IsBurst events avg_rate start windows b =
      (k : ℕ) × (k < windows)
      × (b.time ≡ start + k * one_second)
      × (b.rate ≡ rate_of (count_inside b.time (b.time + one_second) events) one_second)
      × (b.multiplier ≡ div b.rate avg_rate)
      × (lt (mul avg_rate (of_nat 2)) b.rate ≡ true)

  later_bursts :
      (events : List Event) (avg_rate : F) (start windows : ℕ) (bs : List (Burst F))
      → All (IsBurst events avg_rate (start + one_second) windows) bs
      → All (IsBurst events avg_rate start (suc windows)) bs
  later_bursts events avg_rate start windows [] h = tt
  later_bursts events avg_rate start windows (b ∷ bs) ((k, below, at, rate, times, above), hs) = (
    (suc k, omega arith, omega arith, rate, times, above),
    later_bursts events avg_rate start windows bs hs,
  )

  burst_loop-IsBurst :
      (events : List Event) (avg_rate : F) (left start : ℕ)
      → All (IsBurst events avg_rate start left) (burst_loop events avg_rate left start)
  unfolding burst_loop
  burst_loop-IsBurst events avg_rate zero start = tt
  burst_loop-IsBurst events avg_rate (suc left) start =
      let rate : F = rate_of (count_inside start (start + one_second) events) one_second in
      let later =
        later_bursts events avg_rate start left
          (burst_loop events avg_rate left (start + one_second))
          (burst_loop-IsBurst events avg_rate left (start + one_second)) in
      elim (Bool-cases (lt (mul avg_rate (of_nat 2)) rate)) [
        | inl q ↦ rw q ((0, omega arith, omega arith, refl, refl, q), later)
        | inr q ↦ rw q later
      ]

  -- The seconds that a burst stands for: those of the period whose rate is above twice the average.
  abbrev pub IsLoud : List Event → F → ℕ → ℕ → ℕ → Type 0
  IsLoud events avg_rate start windows t =
      (k : ℕ) × (k < windows)
      × (t ≡ start + k * one_second)
      × (lt (mul avg_rate (of_nat 2)) (rate_of (count_inside t (t + one_second) events) one_second)
          ≡ true)

  -- A burst stands for a second.
  abbrev pub Begins : ℕ → List (Burst F) → Type 0
  Begins t [] = ⊥
  Begins t (b ∷ bs) = (b.time ≡ t) ⊎ Begins t bs

  Begins-IsLoud :
      (events : List Event) (avg_rate : F) (start windows t : ℕ) (bs : List (Burst F))
      → All (IsBurst events avg_rate start windows) bs
      → Begins t bs
      → IsLoud events avg_rate start windows t
  Begins-IsLoud events avg_rate start windows t [] h x = absurd x
  Begins-IsLoud events avg_rate start windows t (b ∷ bs) (h, hs) (inr later) =
      Begins-IsLoud events avg_rate start windows t bs hs later
  Begins-IsLoud events avg_rate start windows t (b ∷ bs) ((k, below, at, rate, times, above), hs)
        (inl e) =
      (
        k,
        below,
        sym e ∙ at,
        subst
            (λ u.
              lt (mul avg_rate (of_nat 2))
                (rate_of (count_inside u (u + one_second) events) one_second)
              ≡ true)
            e (ap (lt (mul avg_rate (of_nat 2))) (sym rate) ∙ above),
      )

  loud-Begins :
      (events : List Event) (avg_rate : F) (left start k t : ℕ)
      → k < left
      → t ≡ start + k * one_second
      → lt (mul avg_rate (of_nat 2)) (rate_of (count_inside t (t + one_second) events) one_second)
        ≡ true
      → Begins t (burst_loop events avg_rate left start)
  unfolding burst_loop
  loud-Begins events avg_rate zero start k t below at loud = absurd (omega arith)
  loud-Begins events avg_rate (suc left) start zero t below at loud =
      let first : start ≡ t = omega arith in
      rw
        (subst
          (λ u.
            lt (mul avg_rate (of_nat 2))
              (rate_of (count_inside u (u + one_second) events) one_second)
            ≡ true)
          (sym first) loud)
        (inl first)
  loud-Begins events avg_rate (suc left) start (suc k) t below at loud =
      let later =
        loud-Begins events avg_rate left (start + one_second) k t (omega arith) (omega arith)
          loud in
      let rate : F = rate_of (count_inside start (start + one_second) events) one_second in
      elim (Bool-cases (lt (mul avg_rate (of_nat 2)) rate)) [
        | inl q ↦ rw q (inr later)
        | inr q ↦ rw q later
      ]

  -- The bursts begin at a time or later, and each a second or more behind the one before.
  abbrev pub IsRising : ℕ → List (Burst F) → Type 0
  IsRising start [] = Unit
  IsRising start (b ∷ bs) = (start ≤ b.time) × IsRising (b.time + one_second) bs

  IsRising-earlier :
      (start later : ℕ) (bs : List (Burst F))
      → start ≤ later
      → IsRising later bs
      → IsRising start bs
  IsRising-earlier start later [] le h = tt
  IsRising-earlier start later (b ∷ bs) le (h, hs) = (omega arith, hs)

  burst_loop-IsRising :
      (events : List Event) (avg_rate : F) (left start : ℕ)
      → IsRising start (burst_loop events avg_rate left start)
  unfolding burst_loop
  burst_loop-IsRising events avg_rate zero start = tt
  burst_loop-IsRising events avg_rate (suc left) start =
      let rate : F = rate_of (count_inside start (start + one_second) events) one_second in
      let later = burst_loop-IsRising events avg_rate left (start + one_second) in
      elim (Bool-cases (lt (mul avg_rate (of_nat 2)) rate)) [
        | inl q ↦ rw q (omega arith, later)
        | inr q ↦ rw q (
            IsRising-earlier start (start + one_second)
              (burst_loop events avg_rate left (start + one_second)) (omega arith) later)
      ]

  detect_bursts-cases :
      (d : Diagnostician) (duration : ℕ)
      → (IsLong d duration
          × (detect_bursts {F = F} d duration
              ≡ burst_loop d.events
                  (rate_of (length d.events) duration)
                  (duration / one_second)
                  d.start_time))
        ⊎ ((¬ IsLong d duration) × (detect_bursts {F = F} d duration ≡ []))
  unfolding detect_bursts
  detect_bursts-cases d duration = elim (Bool-cases (ltb (length d.events) 10)) [
    | inl few ↦ inr (λ h. ground (arith, h.0), rw few)
    | inr enough ↦ elim (Bool-cases (ltb (duration / one_second) 2)) [
      | inl short ↦ inr (λ h. ground (arith, h.1), rw (enough, short))
      | inr long ↦ inl ((ground arith, ground arith), rw (enough, long))
    ]
  ]

  -- A burst begins at a time exactly if there are at least ten events and at least two seconds, and
  -- the time is that of a full second of the period, counted from its start, in which the rate of
  -- the events is above twice the average rate; the bursts are in the order of their seconds, one
  -- for each, with the rate of the second and its multiple of the average.
  pub detect_bursts_iff :
      (d : Diagnostician) (duration t : ℕ)
      → let avg : F = rate_of (length d.events) duration in
        All (IsBurst d.events avg d.start_time (duration / one_second)) (detect_bursts d duration)
        × IsRising d.start_time (detect_bursts d duration)
        × (Begins t (detect_bursts d duration)
            ↔ (IsLong d duration × IsLoud d.events avg d.start_time (duration / one_second) t))
  detect_bursts_iff d duration t =
      let avg : F = rate_of (length d.events) duration in
      let windows = duration / one_second in
      let loop : List (Burst F) = burst_loop d.events avg windows d.start_time in
      let bursts = burst_loop-IsBurst d.events avg windows d.start_time in
      elim (detect_bursts-cases d duration) [
        | inl (long, e) ↦ rw e (
          bursts,
          burst_loop-IsRising d.events avg windows d.start_time,
          (
            λ h. (long, Begins-IsLoud d.events avg d.start_time windows t loop bursts h),
            λ (_, (k, below, at, loud)).
                loud-Begins d.events avg windows d.start_time k t below at loud,
          ),
        )
        | inr (short, e) ↦ rw e (tt, tt, (λ h. absurd h, λ h. absurd (short h.0)))
      ]
