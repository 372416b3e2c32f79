-- ===== src/Diagnose/Latency.antt =====
-- The part that the five analyses of internal/diagnose/diagnose.go share: latencies are collected,
-- summed up and compared with the largest so far, and at the end averaged, sorted and ranked.
pub mod Rank
pub mod Summary
use podtrace.Prelude.{
  ℕ, ◌+◌, ◌-◌, Option, none, some, List, [], ◌∷◌, ◌++◌, ◌==◌, if◌then◌else◌, length, get_elem?,
}
use podtrace.Float.{Float, millis}
use podtrace.Runtime.{Runtime}

pub record Timing (F : Type 0) : Type 0 where
  pub latencies : List F
  pub total : F
  pub max : F

-- `avg`, `max`, `p50`, `p95` and `p99` of a result.
pub record Latency (F : Type 0) : Type 0 where
  pub avg : F
  pub max : F
  pub p50 : F
  pub p95 : F
  pub p99 : F

-- `none` is the panic of a failed index; only `percentile` could raise one.
infixl 5 ◌>>=◌
abbrev pub ◌>>=◌ : {A B : Type 0} → Option A → (A → Option B) → Option B
none >>= g = none
some a >>= g = g a

module _ {F : Type 0} ⦃f : Float F⦄ where
  open f use {of_nat, add, mul, div, lt, to_nat}

  abbrev pub no_timing : Timing F
  no_timing = record { latencies = []; total = of_nat 0; max = of_nat 0 }

  -- One latency, in nanoseconds.
  unfoldable pub observe : Timing F → ℕ → Timing F
  observe t ns =
      let ms : F = millis ns in
      record {
        latencies = t.latencies ++ ms ∷ [];
        total = add t.total ms;
        max = if lt t.max ms then ms else t.max;
      }

  unfoldable pub percentile : List F → ℕ → Option F
  percentile [] p = some (of_nat 0)
  percentile (x ∷ xs) p =
      get_elem? (x ∷ xs) (to_nat (div (mul (of_nat (length (x ∷ xs) - 1)) (of_nat p)) (of_nat 100)))

  module _ (r : Runtime F) where
    -- The end of an analysis of so many events.
    unfoldable pub summarize : Timing F → ℕ → Option (Latency F)
    summarize t count =
        let nought : F = of_nat 0 in
        if count == 0
        then some (record { avg = nought; max = t.max; p50 = nought; p95 = nought; p99 = nought })
        else do
          let sorted = r.sort_floats t.latencies
          p50 ← percentile sorted 50
          p95 ← percentile sorted 95
          p99 ← percentile sorted 99
          some (record {
            avg = div t.total (of_nat count);
            max = t.max;
            p50 = p50;
            p95 = p95;
            p99 = p99;
          })
