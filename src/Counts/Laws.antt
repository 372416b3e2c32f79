-- ===== src/Counts/Laws.antt =====
-- What a map of counters holds after a run of increments.
use podtrace.Prelude.{
  ℕ, ◌+◌, ◌≤◌, ◌≡◌, ◌≢◌, refl, Bool, ◌&&◌, List, [], ◌∷◌, if◌then◌else◌, All, length, sum_by,
  count_if, arith, Bool-cases, inl, inr, sym,
}
use podtrace.Runtime.Order.{Ordered}
use podtrace.Counts.{Eq, Counts, increment, count_of}

-- The sum of all counters.
abbrev pub total : {K : Type 0} → Counts K → ℕ
total = sum_by (λ j. j.count)

-- No entry for a key.
abbrev pub Absent : {K : Type 0} → K → Counts K → Type 0
Absent k = All (λ j. j.key ≢ k)

-- At most one entry for each key.
abbrev pub IsMap : {K : Type 0} → Counts K → Type 0
IsMap = Ordered (λ i j. j.key ≢ i.key)

-- Every counter has been raised.
abbrev pub IsRaised : {K : Type 0} → Counts K → Type 0
IsRaised = All (λ j. 1 ≤ j.count)

module _ {K : Type 0} ⦃e : Eq K⦄ where
  pub total-increment : (k : K) (m : Counts K) → total (increment k m) ≡ total m + 1
  unfolding increment
  total-increment k [] = refl
  total-increment k (j ∷ m) = ground (arith, total-increment k m)

  pub count_of-increment :
      (k i : K) (m : Counts K)
      → count_of i (increment k m) ≡ (if e.beq k i then 1 else 0) + count_of i m
  unfolding increment count_of
  count_of-increment k i [] = ground arith
  count_of-increment k i (j ∷ m) =
      ground (arith, e.beq_iff j.key k, e.beq_iff j.key i, e.beq_iff k i, count_of-increment k i m)

  increment-Absent : (k i : K) (m : Counts K) → k ≢ i → Absent i m → Absent i (increment k m)
  unfolding increment
  increment-Absent k i [] n h = (n, tt)
  increment-Absent k i (j ∷ m) n h = ground (arith, increment-Absent k i m n h.1)

  pub increment-IsMap : (k : K) (m : Counts K) → IsMap m → IsMap (increment k m)
  unfolding increment
  increment-IsMap k [] h = (tt, tt)
  increment-IsMap k (j ∷ m) h = elim (Bool-cases (e.beq j.key k)) [
    | inl q ↦ rw q h
    | inr q ↦ rw q (
      increment-Absent k j.key m (λ s. ground (arith, e.beq_iff j.key k, sym s)) h.0,
      increment-IsMap k m h.1,
    )
  ]

  pub increment-IsRaised : (k : K) (m : Counts K) → IsRaised m → IsRaised (increment k m)
  unfolding increment
  increment-IsRaised k [] h = omega arith
  increment-IsRaised k (j ∷ m) h = ground (arith, increment-IsRaised k m h.1)

  -- A map's entry is what a lookup of its key gives.
  pub count_of_entry : (m : Counts K) → IsMap m → All (λ j. count_of j.key m ≡ j.count) m
  unfolding count_of
  count_of_entry [] h = tt
  count_of_entry (j ∷ m) h =
      (ground (arith, e.beq_iff j.key j.key), later m h.0 (count_of_entry m h.1))
    where
      later :
          (n : Counts K)
          → Absent j.key n
          → All (λ i. count_of i.key m ≡ i.count) n
          → All (λ i. (if e.beq j.key i.key then j.count else count_of i.key m) ≡ i.count) n
      later [] a b = tt
      later (i ∷ n) a b = (ground (arith, e.beq_iff j.key i.key), later n a.1 b.1)

-- The loop `for x in xs { if test x { m[key x]++ } }`.
module _ {A K : Type 0} ⦃e : Eq K⦄ (test : A → Bool) (key : A → K) where
  unfoldable pub tally : List A → Counts K → Counts K
  tally [] m = m
  tally (x ∷ xs) m = tally xs (if test x then increment (key x) m else m)

  pub total-tally : (xs : List A) (m : Counts K) → total (tally xs m) ≡ count_if test xs + total m
  unfolding tally
  total-tally [] m = omega arith
  total-tally (x ∷ xs) m = elim (Bool-cases (test x)) [
    | inl q ↦ rw q (omega (arith, total-tally xs (increment (key x) m), total-increment (key x) m))
    | inr q ↦ rw q (omega (arith, total-tally xs m))
  ]

  pub count_of-tally :
      (i : K) (xs : List A) (m : Counts K)
      → count_of i (tally xs m) ≡ count_if (λ x. test x && e.beq (key x) i) xs + count_of i m
  unfolding tally
  count_of-tally i [] m = omega arith
  count_of-tally i (x ∷ xs) m = elim (Bool-cases (test x)) [
    | inl q ↦
        rw q (
          ground (arith, count_of-tally i xs (increment (key x) m), count_of-increment (key x) i m))
    | inr q ↦ rw q (omega (arith, count_of-tally i xs m))
  ]

  pub tally-IsMap : (xs : List A) (m : Counts K) → IsMap m → IsMap (tally xs m)
  unfolding tally
  tally-IsMap [] m h = h
  tally-IsMap (x ∷ xs) m h = elim (Bool-cases (test x)) [
    | inl q ↦ rw q (tally-IsMap xs (increment (key x) m) (increment-IsMap (key x) m h))
    | inr q ↦ rw q (tally-IsMap xs m h)
  ]

  pub tally-IsRaised : (xs : List A) (m : Counts K) → IsRaised m → IsRaised (tally xs m)
  unfolding tally
  tally-IsRaised [] m h = h
  tally-IsRaised (x ∷ xs) m h = elim (Bool-cases (test x)) [
    | inl q ↦ rw q (tally-IsRaised xs (increment (key x) m) (increment-IsRaised (key x) m h))
    | inr q ↦ rw q (tally-IsRaised xs m h)
  ]

-- There are no more entries than what they count.
pub length-total : {K : Type 0} (m : Counts K) → IsRaised m → length m ≤ total m
length-total [] h = omega arith
length-total (j ∷ m) h = omega (arith, length-total m h.1)
