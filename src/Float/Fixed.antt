-- ===== src/Float/Fixed.antt =====
-- Fixed-point numbers with nine digits behind the point: they meet the laws, and run the tests.
use native.Mathlib.Nat.{
  zero-div, le-div_iff_mul-le, div-mul-le_self, mul-le-mul_right, le_of_mul-le-mul_right,
}
use podtrace.Prelude.{
  ℕ, zero, suc, ◌+◌, ◌-◌, ◌*◌, ◌/◌, ◌%◌, ◌≡◌, ◌≤◌, ◌<◌, refl, true, [], ◌∷◌, arith, ltb, leb,
  if◌then◌else◌,
}
use podtrace.Prelude.Int.{ℤ, pos, negsuc}
use podtrace.Strings.{Bytes}
use podtrace.Float.{Float, IsOrdered, IsExact, IsRounded}

abbrev pub scale : ℕ
scale = 1_000_000_000

-- Decimal digits in front of a text, on fuel for each digit.
unfoldable pub digits : ℕ → ℕ → Bytes → Bytes
digits zero n out = out
digits (suc fuel) n out =
    let more = digits fuel (n / 10) ((b'0' + n % 10) ∷ out) in
    if ltb n 10 then (b'0' + n) ∷ out else more

unfoldable pub print_int : ℤ → Bytes
print_int (pos n) = digits 20 n []
print_int (negsuc n) = b'-' ∷ digits 20 (n + 1) []

-- The integer part, a point, and the digits behind it.
unfoldable pub print : ℕ → ℕ → Bytes
print places x = digits 40 (x / scale) (b'.' ∷ digits places (x % scale) [])

instance abbrev pub fixed_float : Float ℕ
fixed_float = record {
  of_nat = λ n. n * scale;
  add = ◌+◌;
  sub = ◌-◌;
  mul = λ x y. x * y / scale;
  div = λ x y. x * scale / y;
  lt = ltb;
  to_nat = λ x. x / scale;
  print = print;
  print_int = print_int;
}

pub Fixed-IsOrdered : IsOrdered ℕ
Fixed-IsOrdered = record {
  lt_irrefl = λ x. ground arith;
  lt_trans = λ x y z p q. ground arith;
  is_plus = λ x. true;
  plus_nonneg = λ x h. ground arith;
  of_nat_plus = λ n. refl;
  add_plus = λ x y p q. refl;
  mul_plus = λ x y p q. refl;
  div_plus = λ x y p q. refl;
}

zero_over : (n : ℕ) → 0 * scale * scale / n ≡ 0 * scale
zero_over n = zero-div n

pub Fixed-IsExact : IsExact ℕ
Fixed-IsExact = record {
  mul_nat = λ a b h. omega arith;
  floor_percent = λ a h. omega arith;
  lt_nat = λ a b h k. ground arith;
  zero_div = λ k. zero_over (suc k * scale);
  add_zero = λ n. omega arith;
  div_one = λ n. omega arith;
  lt_millis = λ c ns h. ground arith;
}

cross_le :
    (q a n b m : ℕ)
    → q * (n * scale) ≤ a * scale * scale
    → a * m ≤ b * n
    → q * (m * scale) * n ≤ b * scale * scale * n
cross_le q a n b m below h =
    omega (arith, mul-le-mul_right m below, mul-le-mul_right (scale * scale) h)

-- A quotient of these numbers, as one division.
quotient_le :
    (a n b m : ℕ)
    → 0 < n
    → 0 < m
    → a * m ≤ b * n
    → a * scale * scale / (n * scale) ≤ b * scale * scale / (m * scale)
quotient_le a n b m hn hm h =
    let below = div-mul-le_self (a * scale * scale) (n * scale) in
    (le-div_iff_mul-le (omega arith)).1
      (le_of_mul-le-mul_right (cross_le (a * scale * scale / (n * scale)) a n b m below h) hn)

product_le : (x y c : ℕ) → x ≤ y → x * (c * scale) / scale ≤ y * (c * scale) / scale
product_le x y c h = omega (arith, mul-le-mul_right c h)

pub Fixed-IsRounded : IsRounded ℕ
Fixed-IsRounded = record {
  le = leb;
  lt_le = λ x y z p q. ground arith;
  le_lt = λ x y p. ground arith;
  div_le = λ a n b m hn hm h ha hn' hb hm'. ground (arith, quotient_le a n b m hn hm h);
  mul_le = λ x y c hc hc' h. ground (arith, product_le x y c (ground arith));
  one_tenth = refl;
  over_one_tenth = refl;
  one_twentieth = refl;
  over_one_twentieth = refl;
}
