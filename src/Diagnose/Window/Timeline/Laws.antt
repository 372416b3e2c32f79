-- ===== src/Diagnose/Window/Timeline/Laws.antt =====
-- Where the timeline puts the events.
use native.Mathlib.Nat.{zero-div}
use podtrace.Prelude.{
  ℕ, zero, suc, ◌+◌, ◌/◌, ◌≤◌, ◌<◌, ◌≡◌, refl, ◌∙◌, ap, none, some, List, [], ◌∷◌, length,
  replicate, All, sum_by, arith,
}
use podtrace.Prelude.Int.{ℤ, pos, negsuc, pos_part, ◌-ℤ◌}
use podtrace.Strings.{Bytes}
use podtrace.Float.{Float}
use podtrace.Event.{Event}
use podtrace.Diagnose.{Diagnostician}
use podtrace.Diagnose.Window.Time.{event_time, sub_time, IsBefore}
use podtrace.Diagnose.Window.Timeline.{
  Bucket, num_buckets, negate, quotient, clamp_index, raise_at, bucket_loop, periods,
  analyze_timeline,
}

clamp_index_lt : (q : ℤ) → clamp_index q < num_buckets
unfolding clamp_index
clamp_index_lt (pos n) = ground arith
clamp_index_lt (negsuc n) = omega arith

length-raise_at : (i : ℕ) (ns : List ℕ) → length (raise_at i ns) ≡ length ns
unfolding raise_at
length-raise_at zero [] = refl
length-raise_at zero (n ∷ ns) = refl
length-raise_at (suc i) [] = refl
length-raise_at (suc i) (n ∷ ns) = ap suc (length-raise_at i ns)

abbrev pub sum : List ℕ → ℕ
sum = sum_by (λ n. n)

sum-raise_at : (i : ℕ) (ns : List ℕ) → i < length ns → sum (raise_at i ns) ≡ sum ns + 1
unfolding raise_at
sum-raise_at zero [] h = absurd (omega arith)
sum-raise_at zero (n ∷ ns) h = omega arith
sum-raise_at (suc i) [] h = absurd (omega arith)
sum-raise_at (suc i) (n ∷ ns) h = omega (arith, sum-raise_at i ns (omega arith))

-- Every event raises one of the five buckets.
bucket_loop_lem :
    (start d : ℕ) (es : List Event) (ns : List ℕ)
    → length ns ≡ num_buckets
    → (length (bucket_loop start d es ns) ≡ num_buckets)
      × (sum (bucket_loop start d es ns) ≡ length es + sum ns)
unfolding bucket_loop
bucket_loop_lem start d [] ns h = (h, omega arith)
bucket_loop_lem start d (e ∷ es) ns h =
    let q = quotient (sub_time (event_time e) (pos start)) d in
    let (a, b) =
      bucket_loop_lem start d es (raise_at (clamp_index q) ns)
        (length-raise_at (clamp_index q) ns ∙ h) in
    (a, omega (arith, b, sum-raise_at (clamp_index q) ns, clamp_index_lt q))

sub_time_before : (t : ℤ) (start : ℕ) → pos_part t ≤ start → pos_part (sub_time t (pos start)) ≡ 0
unfolding sub_time ◌-ℤ◌
sub_time_before (pos n) start h = ground arith
sub_time_before (negsuc n) start h = ground arith

index_of_negative : (z : ℤ) (d : ℕ) → pos_part z ≡ 0 → clamp_index (quotient z d) ≡ 0
unfolding clamp_index quotient negate
index_of_negative (pos n) d h = rw (h, zero-div d)
index_of_negative (negsuc n) d h = clamp_negative (suc n / d)
  where
    clamp_negative : (k : ℕ) → clamp_index (negate k) ≡ 0
    clamp_negative zero = refl
    clamp_negative (suc k) = refl

-- An event before the start goes into the first bucket.
before_index :
    (start d : ℕ) (e : Event)
    → IsBefore start e
    → clamp_index (quotient (sub_time (event_time e) (pos start)) d) ≡ 0
before_index start d e h = index_of_negative _ d (sub_time_before (event_time e) start h)

bucket_loop_before :
    (start d : ℕ) (es : List Event) (n : ℕ) (ns : List ℕ)
    → All (IsBefore start) es
    → bucket_loop start d es (n ∷ ns) ≡ (length es + n) ∷ ns
unfolding bucket_loop raise_at
bucket_loop_before start d [] n ns h = ap (λ (m : ℕ). m ∷ ns) (omega arith)
bucket_loop_before start d (e ∷ es) n ns h =
    rw (before_index start d e h.0)
      (bucket_loop_before start d es (n + 1) ns h.1 ∙ ap (λ (m : ℕ). m ∷ ns) (omega arith))

-- The counts of a timeline.
abbrev pub counts_of : {F : Type 0} → List (Bucket F) → List ℕ
counts_of [] = []
counts_of (b ∷ bs) = b.count ∷ counts_of bs

module _ (F : Type 0) ⦃f : Float F⦄ (clock : ℕ → Bytes) where
  counts_of-periods :
      (start d total i : ℕ) (counts : List ℕ)
      → counts_of {F = F} (periods clock start d total i counts) ≡ counts
  unfolding periods
  counts_of-periods start d total i [] = refl
  counts_of-periods start d total i (n ∷ ns) =
      ap (◌∷◌ n) (counts_of-periods start d total (i + 1) ns)

  -- For a period of five nanoseconds or more the timeline has five buckets that share out all
  -- events, those before the start and behind the end included.
  pub analyze_timeline_lem :
      (d : Diagnostician) (duration : ℕ)
      → 5 ≤ duration
      → 0 < length d.events
      → (t : List (Bucket F)) × (analyze_timeline clock d duration ≡ some t)
        × (length (counts_of t) ≡ 5)
        × (sum (counts_of t) ≡ length d.events)
  unfolding analyze_timeline
  analyze_timeline_lem d duration h some_event =
      let counts = bucket_loop d.start_time (duration / 5) d.events (replicate 5 0) in
      let (five, all) = bucket_loop_lem d.start_time (duration / 5) d.events (replicate 5 0) refl in
      let same = counts_of-periods d.start_time (duration / 5) (length d.events) 0 counts in
      (
        periods clock d.start_time (duration / 5) (length d.events) 0 counts,
        ground arith,
        rw same five,
        rw same (omega arith),
      )

  -- With an event, a period of less than five nanoseconds divides by zero.
  pub analyze_timeline_panics :
      (d : Diagnostician) (duration : ℕ)
      → duration < 5
      → 0 < length d.events
      → analyze_timeline {F = F} clock d duration ≡ none
  unfolding analyze_timeline
  analyze_timeline_panics d duration h some_event = ground arith

  -- If no event lies behind the start of the period, the timeline shows all of them in the first
  -- bucket.
  pub analyze_timeline_before :
      (d : Diagnostician) (duration : ℕ)
      → 5 ≤ duration
      → 0 < length d.events
      → All (IsBefore d.start_time) d.events
      → (t : List (Bucket F)) × (analyze_timeline clock d duration ≡ some t)
        × (counts_of t ≡ length d.events ∷ 0 ∷ 0 ∷ 0 ∷ 0 ∷ [])
  unfolding analyze_timeline
  analyze_timeline_before d duration h some_event before =
      let counts = bucket_loop d.start_time (duration / 5) d.events (replicate 5 0) in
      (
        periods clock d.start_time (duration / 5) (length d.events) 0 counts,
        ground arith,
        counts_of-periods d.start_time (duration / 5) (length d.events) 0 counts
            ∙ bucket_loop_before d.start_time (duration / 5) d.events 0 (0 ∷ 0 ∷ 0 ∷ 0 ∷ []) before
            ∙ ap (λ (m : ℕ). m ∷ 0 ∷ 0 ∷ 0 ∷ 0 ∷ []) (omega arith),
      )
