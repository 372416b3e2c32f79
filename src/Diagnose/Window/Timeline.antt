-- ===== src/Diagnose/Window/Timeline.antt =====
-- `analyzeTimeline`: five buckets of equal length.
pub mod Laws
use podtrace.Prelude.{
  ℕ, zero, suc, ◌+◌, ◌-◌, ◌*◌, ◌/◌, ◌≤◌, ◌<◌, ◌≡◌, refl, Bool, true, false, Option, none, some,
  List, [], ◌∷◌, ◌++◌, ◌==◌, leb, if◌then◌else◌, length, replicate, All, sum_by, arith,
}
use podtrace.Prelude.Int.{ℤ, pos, negsuc, pos_part, neg_part, ltb_ℤ, ◌-ℤ◌, -ℤ_parts}
use podtrace.Strings.{Bytes, codes}
use podtrace.Float.{Float}
use podtrace.Event.{Event}
use podtrace.Diagnose.{Diagnostician}
use podtrace.Diagnose.Window.Time.{event_time, sub_time, IsBefore}

pub record Bucket (F : Type 0) : Type 0 where
  pub period : Bytes
  pub count : ℕ
  pub percentage : F

abbrev pub num_buckets : ℕ
num_buckets = 5

unfoldable pub negate : ℕ → ℤ
negate zero = pos zero
negate (suc k) = negsuc k

-- `elapsed / bucketDuration`, which rounds towards 0, for a duration that is not 0
unfoldable pub quotient : ℤ → ℕ → ℤ
quotient (pos n) d = pos (n / d)
quotient (negsuc n) d = negate (suc n / d)

-- The two tests that bring the index into range.
unfoldable pub clamp_index : ℤ → ℕ
clamp_index (pos n) = if leb num_buckets n then num_buckets - 1 else n
clamp_index (negsuc n) = 0

-- `buckets[i]++`
unfoldable pub raise_at : ℕ → List ℕ → List ℕ
raise_at i [] = []
raise_at zero (n ∷ ns) = (n + 1) ∷ ns
raise_at (suc i) (n ∷ ns) = n ∷ raise_at i ns

-- The loop over the events; the start and the length of a bucket come first.
unfoldable pub bucket_loop : ℕ → ℕ → List Event → List ℕ → List ℕ
bucket_loop start d [] buckets = buckets
bucket_loop start d (e ∷ es) buckets =
    bucket_loop start d es
      (raise_at (clamp_index (quotient (sub_time (event_time e) (pos start)) d)) buckets)

module _ {F : Type 0} ⦃f : Float F⦄ where
  open f use {of_nat, mul, div}

  -- The loop over the buckets. `clock` writes a time of day, as `Format("15:04:05")` does.
  unfoldable pub periods : (ℕ → Bytes) → ℕ → ℕ → ℕ → ℕ → List ℕ → List (Bucket F)
  periods clock start d total i [] = []
  periods clock start d total i (count ∷ counts) =
      record {
        period = clock (start + i * d) ++ (codes "-" ++ clock (start + (i + 1) * d));
        count = count;
        percentage = mul (div (of_nat count) (of_nat total)) (of_nat 100);
      }
      ∷ periods clock start d total (i + 1) counts

  -- `none` is the panic of a division by zero.
  unfoldable pub analyze_timeline : (ℕ → Bytes) → Diagnostician → ℕ → Option (List (Bucket F))
  analyze_timeline clock d duration =
      let bucket_duration = duration / num_buckets in
      let counts = bucket_loop d.start_time bucket_duration d.events (replicate num_buckets 0) in
      if length d.events == 0
      then some []
      else if bucket_duration == 0
      then none
      else some (periods clock d.start_time bucket_duration (length d.events) 0 counts)
