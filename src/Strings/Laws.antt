-- ===== src/Strings/Laws.antt =====
-- What the string functions compute: equality, prefixes, trimming and splitting.
use podtrace.Prelude.{
  ℕ, zero, suc, ◌≡◌, ◌≢◌, refl, ap, ◌↔◌, inl, inr, Bool, true, false, none, some, List, [], ◌∷◌,
  ◌++◌, ◌==◌, drop, replicate, All, arith, Bool-cases,
}
use podtrace.Strings.{
  Bytes, bytes_eq, has_prefix, contains, trim_right, has_suffix_byte, last_index_byte, split_byte,
  cons_head,
}

pub bytes_eq→eq : (s t : Bytes) → bytes_eq s t ≡ true → s ≡ t
unfolding bytes_eq
bytes_eq→eq [] [] h = refl
bytes_eq→eq [] (y ∷ t) h = cc
bytes_eq→eq (x ∷ s) [] h = cc
bytes_eq→eq (x ∷ s) (y ∷ t) h = ground (arith, bytes_eq→eq s t)

pub bytes_eq_refl : (s : Bytes) → bytes_eq s s ≡ true
unfolding bytes_eq
bytes_eq_refl [] = refl
bytes_eq_refl (x ∷ s) = ground (arith, bytes_eq_refl s)

pub bytes_eq_iff : (s t : Bytes) → (bytes_eq s t ≡ true) ↔ (s ≡ t)
bytes_eq_iff s t = (bytes_eq→eq s t, λ e. rw e (bytes_eq_refl t))

has_prefix→append : (p s : Bytes) → has_prefix p s ≡ true → (rest : Bytes) × (s ≡ p ++ rest)
unfolding has_prefix
has_prefix→append [] s h = (s, refl)
has_prefix→append (x ∷ p) [] h = cc
has_prefix→append (x ∷ p) (y ∷ s) h =
    let tail : has_prefix p s ≡ true = ground arith in
    let (rest, e) = has_prefix→append p s tail in (rest, ground arith)

pub has_prefix-append : (p rest : Bytes) → has_prefix p (p ++ rest) ≡ true
unfolding has_prefix
has_prefix-append [] rest = refl
has_prefix-append (x ∷ p) rest = ground (arith, has_prefix-append p rest)

-- A prefix is what stands in front of some rest.
pub has_prefix_iff : (p s : Bytes) → (has_prefix p s ≡ true) ↔ ((rest : Bytes) × (s ≡ p ++ rest))
has_prefix_iff p s = (has_prefix→append p s, λ e. rw e.1 (has_prefix-append p e.0))

-- Contained is what has a text before it and a text behind it.
pub contains→append :
    (p s : Bytes)
    → contains p s ≡ true
    → (before : Bytes) × (after : Bytes) × (s ≡ before ++ (p ++ after))
unfolding contains
contains→append p [] h = let (rest, e) = (has_prefix_iff p []).0 h in ([], rest, e)
contains→append p (c ∷ s) h = elim (Bool-cases (has_prefix p (c ∷ s))) [
  | inl e ↦ let (rest, q) = (has_prefix_iff p (c ∷ s)).0 e in ([], rest, q)
  | inr e ↦
      let later : contains p s ≡ true = ground arith in
      let (before, after, q) = contains→append p s later in (c ∷ before, after, ap (◌∷◌ c) q)
]

abbrev pub is_byte : ℕ → ℕ → Bool
is_byte b c = c == b

-- Text that does not end in the byte is kept as it is.
pub trim_right_keeps :
    (b : ℕ) (s : Bytes) → has_suffix_byte b s ≡ false → trim_right (is_byte b) s ≡ s
unfolding trim_right has_suffix_byte
trim_right_keeps b [] h = refl
trim_right_keeps b (c ∷ []) h = ground arith
trim_right_keeps b (c ∷ d ∷ s) h = rw (trim_right_keeps b (d ∷ s) h) (ground arith)

trim_right-replicate : (b n : ℕ) → trim_right (is_byte b) (replicate n b) ≡ []
unfolding trim_right
trim_right-replicate b zero = refl
trim_right-replicate b (suc n) = rw (trim_right-replicate b n) (ground arith)

-- Padding with the byte does not show behind the trim.
pub trim_right-append :
    (b n : ℕ) (s : Bytes) → trim_right (is_byte b) (s ++ replicate n b) ≡ trim_right (is_byte b) s
unfolding trim_right
trim_right-append b n [] = trim_right-replicate b n
trim_right-append b n (c ∷ s) = rw (trim_right-append b n s)

pub split_byte-ne-nil : (b : ℕ) (s : Bytes) → split_byte b s ≢ []
unfolding split_byte
split_byte-ne-nil b [] h = cc
split_byte-ne-nil b (c ∷ s) h = ground (arith)

abbrev pub Lacks : ℕ → Bytes → Type 0
Lacks b = All (λ c. c ≢ b)

-- Text without the separator is one part; up to the first separator it is the first part.
pub split_byte-Lacks' : (b : ℕ) (s : Bytes) → Lacks b s → split_byte b s ≡ s ∷ []
unfolding split_byte
split_byte-Lacks' b [] h = refl
split_byte-Lacks' b (c ∷ s) h = ground (arith, split_byte-Lacks' b s h.1)

pub split_byte-append :
    (b : ℕ) (p s : Bytes) → Lacks b p → split_byte b (p ++ b ∷ s) ≡ p ∷ split_byte b s
unfolding split_byte
split_byte-append b [] s h = ground arith
split_byte-append b (c ∷ p) s h = ground (arith, split_byte-append b p s h.1)

-- No part of a split holds the separator.
pub split_byte-Lacks : (b : ℕ) (s : Bytes) → All (Lacks b) (split_byte b s)
unfolding split_byte
split_byte-Lacks b [] = (tt, tt)
split_byte-Lacks b (c ∷ s) = elim (Bool-cases (c == b)) [
  | inl e ↦ rw e (tt, split_byte-Lacks b s)
  | inr e ↦ rw e (cons_head-Lacks (split_byte b s) (ground arith) (split_byte-Lacks b s))
]
  where
    cons_head-Lacks : (ps : List Bytes) → c ≢ b → All (Lacks b) ps → All (Lacks b) (cons_head c ps)
    cons_head-Lacks [] n h = ((n, tt), tt)
    cons_head-Lacks (p ∷ ps) n h = ((n, h.0), h.1)

-- Behind the last separator none is left, and without one the text has none.
pub last_index_byte-none : (b : ℕ) (s : Bytes) → last_index_byte b s ≡ none → Lacks b s
unfolding last_index_byte
last_index_byte-none b [] h = tt
last_index_byte-none b (c ∷ s) h = ground (arith, last_index_byte-none b s)

pub last_index_byte-drop :
    (b : ℕ) (s : Bytes) (i : ℕ) → last_index_byte b s ≡ some i → Lacks b (drop (suc i) s)
unfolding last_index_byte
last_index_byte-drop b [] i h = cc
last_index_byte-drop b (c ∷ s) zero h = ground (arith, last_index_byte-none b s)
last_index_byte-drop b (c ∷ s) (suc i) h = ground (arith, last_index_byte-drop b s i)
