-- ===== src/Diagnose/Report/Issues.antt =====
-- When an issue is reported, in whole numbers.
use podtrace.Prelude.{
  ℕ, ◌*◌, ◌≤◌, ◌<◌, ◌≡◌, refl, sym, subst, ◌∙◌, Bool, true, false, not, List, [], ◌∷◌, ltb,
  if◌then◌else◌, length, count_if, count_if-append, arith, Bool-cases, inl, inr,
}
use podtrace.Float.{Float, IsExact, IsRounded}
use podtrace.Event.{Event, is_error}
use podtrace.Event.Kind
use podtrace.Diagnose.{filter_events}
use podtrace.Diagnose.Analyze.{is_above}
use podtrace.Diagnose.Analyze.Loops.{slower}
use podtrace.Diagnose.Report.{
  Issue, connection_failures, rtt_spikes, tcp_events, share, connection_issues, spike_issues,
  detect_issues,
}
use podtrace.Diagnose.Report.There.{some_event}

abbrev pub is_failures : {F : Type 0} → Issue F → Bool
is_failures (connection_failures rate errors n) = true
is_failures (rtt_spikes rate spikes n) = false

-- How many of the connections failed, and how many of the TCP operations took more than 100 ms.
abbrev pub failed_connects : List Event → ℕ
failed_connects es = count_if (λ e. is_error e.error) (filter_events Kind.connect es)

abbrev pub slow_operations : List Event → ℕ
slow_operations es = count_if (slower 100) (tcp_events es)

count_if-le-length : {A : Type 0} (test : A → Bool) (xs : List A) → count_if test xs ≤ length xs
count_if-le-length test [] = omega arith
count_if-le-length test (x ∷ xs) = ground (arith, count_if-le-length test xs)

abbrev once_if : Bool → ℕ
once_if b = if b then 1 else 0

module _ (F : Type 0) ⦃f : Float F⦄ (exact : IsExact F) (rounded : IsRounded F) where
  count_above : (es : List Event) → count_if (is_above F 100) es ≡ count_if (slower 100) es
  count_above [] = refl
  count_above (e ∷ es) =
      ground (arith, exact.lt_millis 100 e.latency_ns (omega arith), count_above es)

  -- A share against a bound: the bound is the share of 1 in `w`, and the smallest share of up to
  -- ten million above it is larger.
  share_above :
      (bound w a n : ℕ)
      → 0 < w
      → w ≤ 20
      → 0 < n
      → n ≤ 10_000_000
      → a ≤ n
      → share {F = F} 1 w ≡ f.of_nat bound
      → f.lt (f.of_nat bound) (share 10_000_001 (10_000_000 * w)) ≡ true
      → f.lt (f.of_nat bound) (share a n) ≡ ltb n (w * a)
  share_above bound w a n hw small hn few part exactly above = elim (Bool-cases (ltb n (w * a))) [
    | inl over ↦
        let least =
          rounded.div_le 10_000_001 (10_000_000 * w) a n (omega arith) hn (ground arith)
            (omega arith) (omega arith) (omega arith) (omega arith) in
        rounded.lt_le _ _ _ above (rounded.mul_le _ _ 100 (omega arith) (omega arith) least)
        ∙ sym over
    | inr under ↦
        let most =
          rounded.div_le a n 1 w hn hw (ground arith) (omega arith) (omega arith) (omega arith)
            (omega arith) in
        subst (λ x. f.lt x (share a n) ≡ false) exactly
          (rounded.le_lt _ _ (rounded.mul_le _ _ 100 (omega arith) (omega arith) most))
        ∙ sym under
  ]

  connection_issues-failures :
      (es : List Event)
      → length es ≤ 10_000_000
      → (count_if is_failures (connection_issues {F = F} es)
          ≡ once_if (ltb (length es) (10 * count_if (λ e. is_error e.error) es)))
        × (count_if (λ i. not (is_failures i)) (connection_issues {F = F} es) ≡ 0)
  unfolding connection_issues
  connection_issues-failures [] few = (refl, refl)
  connection_issues-failures (e ∷ es) few =
      let errors = count_if (λ x. is_error x.error) (e ∷ es) in
      let above =
        share_above 10 10 errors (length (e ∷ es)) (omega arith) (omega arith) (omega arith) few
          (count_if-le-length (λ x. is_error x.error) (e ∷ es)) rounded.one_tenth
          rounded.over_one_tenth in
      elim (Bool-cases (ltb (length (e ∷ es)) (10 * errors))) [
        | inl t ↦ rw (some_event e es, above, t) (refl, refl)
        | inr t ↦ rw (some_event e es, above, t) (refl, refl)
      ]

  spike_issues-spikes :
      (es : List Event)
      → length es ≤ 10_000_000
      → (count_if (λ i. not (is_failures i)) (spike_issues {F = F} es)
          ≡ once_if (ltb (length es) (20 * count_if (slower 100) es)))
        × (count_if is_failures (spike_issues {F = F} es) ≡ 0)
  unfolding spike_issues
  spike_issues-spikes [] few = (refl, refl)
  spike_issues-spikes (e ∷ es) few =
      let spikes = count_if (slower 100) (e ∷ es) in
      let above =
        share_above 5 20 spikes (length (e ∷ es)) (omega arith) (omega arith) (omega arith) few
          (count_if-le-length (slower 100) (e ∷ es)) rounded.one_twentieth
          rounded.over_one_twentieth in
      elim (Bool-cases (ltb (length (e ∷ es)) (20 * spikes))) [
        | inl t ↦ rw (some_event e es, count_above (e ∷ es), above, t) (refl, refl)
        | inr t ↦ rw (some_event e es, count_above (e ∷ es), above, t) (refl, refl)
      ]

  -- For up to 10^7 connections and TCP operations each, a failure rate is reported exactly once if
  -- more than a tenth of the connections failed, spikes are reported exactly once if more than a
  -- twentieth of the TCP operations took more than 100 ms, and neither is reported otherwise. The
  -- laws of Float are assumed.
  pub detect_issues_lem :
      (es : List Event)
      → length (filter_events Kind.connect es) ≤ 10_000_000
      → length (tcp_events es) ≤ 10_000_000
      → (count_if is_failures (detect_issues {F = F} es) ≡ (
          if ltb (length (filter_events Kind.connect es)) (10 * failed_connects es) then 1 else 0))
        × (count_if (λ i. not (is_failures i)) (detect_issues {F = F} es)
            ≡ (if ltb (length (tcp_events es)) (20 * slow_operations es) then 1 else 0))
  unfolding detect_issues
  detect_issues_lem es few fewer =
      let connects = connection_issues-failures (filter_events Kind.connect es) few in
      let spikes = spike_issues-spikes (tcp_events es) fewer in
      let first = connection_issues {F = F} (filter_events Kind.connect es) in
      let second = spike_issues {F = F} (tcp_events es) in
      (
        omega (arith, connects.0, spikes.1, count_if-append is_failures first second),
        omega
            (arith, connects.1, spikes.0, count_if-append (λ i. not (is_failures i)) first second),
      )
