-- ===== src/Counts.antt =====
-- `map[K]int` as the program uses it: counters that start at nothing and are raised by one. The
-- map is the list of its entries; the order of the list is not the order of a `range`.
pub mod Laws
use podtrace.Prelude.{
  ℕ, ◌+◌, ◌≡◌, ◌↔◌, Bool, true, false, List, [], ◌∷◌, ◌==◌ as nat_beq, ==_iff, arith, if◌then◌else◌,
}
use podtrace.Prelude.Int.{ℤ, pos, negsuc}
use podtrace.Strings.{Bytes, bytes_eq}
use podtrace.Strings.Laws.{bytes_eq_iff}

-- The equality of keys.
pub record Eq (K : Type 0) : Type 0 where
  pub beq : K → K → Bool
  pub beq_iff : (a b : K) → (beq a b ≡ true) ↔ (a ≡ b)

instance abbrev pub bytes_keys : Eq Bytes
bytes_keys = record { beq = bytes_eq; beq_iff = bytes_eq_iff }

instance abbrev pub nat_keys : Eq ℕ
nat_keys = record { beq = nat_beq; beq_iff = ==_iff }

-- `a == b` on signed integers.
abbrev pub int_eq : ℤ → ℤ → Bool
int_eq (pos a) (pos b) = nat_beq a b
int_eq (pos a) (negsuc b) = false
int_eq (negsuc a) (pos b) = false
int_eq (negsuc a) (negsuc b) = nat_beq a b

pub int_eq_iff : (a b : ℤ) → (int_eq a b ≡ true) ↔ (a ≡ b)
int_eq_iff a b = ground arith

instance abbrev pub int_keys : Eq ℤ
int_keys = record { beq = int_eq; beq_iff = int_eq_iff }

pub record Entry (K : Type 0) : Type 0 where
  pub key : K
  pub count : ℕ

abbrev pub Counts : Type 0 → Type 0
Counts K = List (Entry K)

module _ {K : Type 0} ⦃e : Eq K⦄ where
  -- `m[k]++`
  unfoldable pub increment : K → Counts K → Counts K
  increment k [] = record { key = k; count = 1 } ∷ []
  increment k (j ∷ m) =
      if e.beq j.key k then record j { count = j.count + 1 } ∷ m else j ∷ increment k m

  -- `m[k]`, 0 for a missing key
  unfoldable pub count_of : K → Counts K → ℕ
  count_of k [] = 0
  count_of k (j ∷ m) = if e.beq j.key k then j.count else count_of k m
