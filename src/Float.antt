-- ===== src/Float.antt =====
-- `float64` as the program uses it: a type with the operations of Go and the printing of `fmt`.
-- Go's arithmetic follows IEEE 754; the laws that the theorems rest on stand in the three records below.
pub mod Fixed
use podtrace.Prelude.{ℕ, suc, ◌+◌, ◌*◌, ◌/◌, ◌%◌, ◌^◌, ◌≤◌, ◌<◌, ◌≡◌, Bool, true, false, ◌⊎◌, ltb}
use podtrace.Prelude.Int.{ℤ}
use podtrace.Strings.{Bytes}

pub record Float (F : Type 0) : Type 0 where
  -- `float64(n)`
  pub of_nat : ℕ → F
  pub add : F → F → F
  pub sub : F → F → F
  pub mul : F → F → F
  pub div : F → F → F
  -- `x < y`; `x > y` is `lt y x`.
  pub lt : F → F → Bool
  -- `int(x)` and `uint64(x)`, for `x` that is not negative.
  pub to_nat : F → ℕ
  -- `%.nf`
  pub print : ℕ → F → Bytes
  -- `%d`
  pub print_int : ℤ → Bytes

-- The order `<`, of which comparisons with NaN are false, and the signs of results.
pub record IsOrdered (F : Type 0) ⦃f : Float F⦄ : Type 0 where
  pub lt_irrefl : (x : F) → f.lt x x ≡ false
  pub lt_trans : (x y z : F) → f.lt x y ≡ true → f.lt y z ≡ true → f.lt x z ≡ true
  -- the sign bit is clear, or the value is NaN
  pub is_plus : F → Bool
  pub plus_nonneg : (x : F) → is_plus x ≡ true → f.lt x (f.of_nat 0) ≡ false
  pub of_nat_plus : (n : ℕ) → is_plus (f.of_nat n) ≡ true
  pub add_plus : (x y : F) → is_plus x ≡ true → is_plus y ≡ true → is_plus (f.add x y) ≡ true
  pub mul_plus : (x y : F) → is_plus x ≡ true → is_plus y ≡ true → is_plus (f.mul x y) ≡ true
  pub div_plus : (x y : F) → is_plus x ≡ true → is_plus y ≡ true → is_plus (f.div x y) ≡ true

-- Exact results: small integers are represented, and a quotient is rounded to the nearest float,
-- which does not reach the next integer for these operands.
pub record IsExact (F : Type 0) ⦃f : Float F⦄ : Type 0 where
  pub mul_nat : (a b : ℕ) → a * b ≤ 2 ^ 53 → f.mul (f.of_nat a) (f.of_nat b) ≡ f.of_nat (a * b)
  pub floor_percent : (a : ℕ) → a ≤ 2 ^ 40 → f.to_nat (f.div (f.of_nat a) (f.of_nat 100)) ≡ a / 100
  pub lt_nat : (a b : ℕ) → a ≤ 2 ^ 53 → b ≤ 2 ^ 53 → f.lt (f.of_nat a) (f.of_nat b) ≡ ltb a b
  pub zero_div : (k : ℕ) → f.div (f.of_nat 0) (f.of_nat (suc k)) ≡ f.of_nat 0
  pub add_zero : (n : ℕ) → f.add (f.of_nat n) (f.of_nat 0) ≡ f.of_nat n
  pub div_one : (n : ℕ) → f.div (f.of_nat n) (f.of_nat 1) ≡ f.of_nat n
  -- nanoseconds as milliseconds, against a small integer
  pub lt_millis :
      (c ns : ℕ)
      → c ≤ 1000
      → f.lt (f.of_nat c) (f.div (f.of_nat ns) (f.of_nat 1_000_000)) ≡ ltb (c * 1_000_000) ns

-- `x <= y`, and what correct rounding gives: the rounded quotients of integers and the rounded
-- multiples of numbers are ordered as the exact ones are, if not strictly. The last four laws are
-- results of the arithmetic at literals.
pub record IsRounded (F : Type 0) ⦃f : Float F⦄ : Type 0 where
  pub le : F → F → Bool
  pub lt_le : (x y z : F) → f.lt x y ≡ true → le y z ≡ true → f.lt x z ≡ true
  pub le_lt : (x y : F) → le x y ≡ true → f.lt y x ≡ false
  pub div_le :
      (a n b m : ℕ)
      → 0 < n
      → 0 < m
      → a * m ≤ b * n
      → a ≤ 2 ^ 53
      → n ≤ 2 ^ 53
      → b ≤ 2 ^ 53
      → m ≤ 2 ^ 53
      → le (f.div (f.of_nat a) (f.of_nat n)) (f.div (f.of_nat b) (f.of_nat m)) ≡ true
  pub mul_le :
      (x y : F) (c : ℕ)
      → 0 < c
      → c ≤ 2 ^ 53
      → le x y ≡ true
      → le (f.mul x (f.of_nat c)) (f.mul y (f.of_nat c)) ≡ true
  pub one_tenth : f.mul (f.div (f.of_nat 1) (f.of_nat 10)) (f.of_nat 100) ≡ f.of_nat 10
  pub over_one_tenth :
      f.lt (f.of_nat 10) (f.mul (f.div (f.of_nat 10_000_001) (f.of_nat 100_000_000)) (f.of_nat 100))
      ≡ true
  pub one_twentieth : f.mul (f.div (f.of_nat 1) (f.of_nat 20)) (f.of_nat 100) ≡ f.of_nat 5
  pub over_one_twentieth :
      f.lt (f.of_nat 5) (f.mul (f.div (f.of_nat 10_000_001) (f.of_nat 200_000_000)) (f.of_nat 100))
      ≡ true

module _ {F : Type 0} ⦃f : Float F⦄ where
  -- `float64(e.LatencyNS) / 1e6`
  abbrev pub millis : ℕ → F
  millis ns = f.div (f.of_nat ns) (f.of_nat 1_000_000)

  -- `duration.Seconds()` of a duration that is not negative.
  abbrev pub seconds : ℕ → F
  seconds ns =
      f.add (f.of_nat (ns / 1_000_000_000))
        (f.div (f.of_nat (ns % 1_000_000_000)) (f.of_nat 1_000_000_000))
