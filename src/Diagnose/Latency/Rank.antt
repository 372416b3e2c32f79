-- ===== src/Diagnose/Latency/Rank.antt =====
-- Percentiles of a sorted list: an index that is in range, and an order among ranks.
use podtrace.Prelude.{
  ℕ, zero, suc, ◌-◌, ◌*◌, ◌/◌, ◌^◌, ◌≤◌, ◌<◌, ◌≡◌, refl, some, List, [], ◌∷◌, length, get_elem?,
  All, arith,
}
use mathlib.Core.Option.{some-injective}
use podtrace.Float.{Float, IsExact}
use podtrace.Runtime.Order.{Ordered}
use podtrace.Diagnose.Latency.{percentile}

module _ {A : Type 0} where
  -- An index in range has an element.
  pub get_elem?_lt : (xs : List A) (i : ℕ) → i < length xs → (x : A) × (get_elem? xs i ≡ some x)
  get_elem?_lt [] i h = absurd (omega arith)
  get_elem?_lt (x ∷ xs) zero h = (x, refl)
  get_elem?_lt (x ∷ xs) (suc i) h = get_elem?_lt xs i (omega arith)

  pub All-get_elem? :
      (P : A → Type 0) (xs : List A) (i : ℕ) {x : A} → All P xs → get_elem? xs i ≡ some x → P x
  All-get_elem? P [] i h e = cc
  All-get_elem? P (y ∷ xs) zero h e = rw (← some-injective _ _ e) h.0
  All-get_elem? P (y ∷ xs) (suc i) h e = All-get_elem? P xs i h.1 e

  -- A reflexive order between earlier and later elements is one between ranks.
  pub Ordered-get_elem? :
      (R : A → A → Type 0)
      → ((x : A) → R x x)
      → (xs : List A) (i j : ℕ) {x y : A} → Ordered R xs
      → i ≤ j
      → get_elem? xs i ≡ some x
      → get_elem? xs j ≡ some y
      → R x y
  Ordered-get_elem? R same [] i j h le p q = cc
  Ordered-get_elem? R same (z ∷ xs) zero zero h le p q =
      rw (← some-injective _ _ p, ← some-injective _ _ q) (same z)
  Ordered-get_elem? R same (z ∷ xs) zero (suc j) h le p q =
      rw (← some-injective _ _ p) (All-get_elem? (R z) xs j h.0 q)
  Ordered-get_elem? R same (z ∷ xs) (suc i) zero h le p q = absurd (omega arith)
  Ordered-get_elem? R same (z ∷ xs) (suc i) (suc j) h le p q =
      Ordered-get_elem? R same xs i j h.1 (omega arith) p q

-- The rank that a percentile stands at, among so many elements.
abbrev pub rank : ℕ → ℕ → ℕ
rank count p = (count - 1) * p / 100

-- The largest count for which the rank is computed without rounding.
abbrev pub max_count : ℕ
max_count = 10_000_000_000

module _ {F : Type 0} ⦃f : Float F⦄ (exact : IsExact F) where
  -- Of a list that is not empty and not too long, the percentile is the element at the rank.
  pub percentile-eq :
      (xs : List F) (p : ℕ)
      → 0 < length xs
      → length xs ≤ max_count
      → p ≤ 99
      → percentile xs p ≡ get_elem? xs (rank (length xs) p)
  unfolding percentile
  percentile-eq [] p some_element few h = absurd (omega arith)
  percentile-eq (x ∷ xs) p some_element few h =
      let bound : (length (x ∷ xs) - 1) * p ≤ 2 ^ 40 = grind arith in
      rw (
        exact.mul_nat (length (x ∷ xs) - 1) p (omega arith),
        exact.floor_percent ((length (x ∷ xs) - 1) * p) bound,
      )

pub rank_lt : (count p : ℕ) → 0 < count → p ≤ 99 → rank count p < count
rank_lt count p h k = let bound : (count - 1) * p ≤ (count - 1) * 99 = grind arith in omega arith

pub rank_mono : (count p q : ℕ) → p ≤ q → rank count p ≤ rank count q
rank_mono count p q h = let bound : (count - 1) * p ≤ (count - 1) * q = grind arith in omega arith
