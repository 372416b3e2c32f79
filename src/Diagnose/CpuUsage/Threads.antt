-- ===== src/Diagnose/CpuUsage/Threads.antt =====
-- `isKernelThread` of internal/diagnose/cpu_profiling.go.
use mathlib.Core.List.{Memᴰ}
use podtrace.Prelude.{
  ℕ, ◌≡◌, ◌↔◌, ◌⊎◌, inl, inr, refl, ◌∙◌, sym, ap, Bool, true, false, ◌&&◌, ◌||◌, List, [], ◌∷◌,
  ◌++◌, arith, Bool-cases,
}
use podtrace.Strings.{Bytes, codes, has_prefix, has_suffix_byte}
use podtrace.Strings.Laws.{has_prefix_iff, has_prefix-append}
use podtrace.Diagnose.CpuUsage.{to_lower, kernel_prefixes, has_any_prefix, is_kernel_thread}

-- A name begins, in lower case, with a text of the list.
abbrev pub IsListed : List Bytes → Bytes → Type 0
IsListed ps lower = (p : Bytes) × (rest : Bytes) × Memᴰ p ps × (lower ≡ p ++ rest)

-- A name in brackets.
abbrev pub IsBracketed : Bytes → Type 0
IsBracketed name = (inside : Bytes) × (name ≡ codes "[" ++ (inside ++ codes "]"))

IsListed-of : (ps : List Bytes) (lower : Bytes) → has_any_prefix ps lower ≡ true → IsListed ps lower
IsListed-of [] lower h = absurd (ground arith)
IsListed-of (p ∷ ps) lower h = elim (Bool-cases (has_prefix p lower)) [
  | inl e ↦ let (rest, q) = (has_prefix_iff p lower).0 e in (p, rest, Memᴰ.head refl, q)
  | inr e ↦
      let (listed, rest, m, q) = IsListed-of ps lower (ground arith) in
      (listed, rest, Memᴰ.tail m, q)
]

has_any_prefix-of :
    (ps : List Bytes) (p lower : Bytes)
    → Memᴰ p ps
    → has_prefix p lower ≡ true
    → has_any_prefix ps lower ≡ true
has_any_prefix-of [] p lower m h = elim m [ ]
has_any_prefix-of (q ∷ ps) p lower (Memᴰ.head e) h =
    ground (arith, sym (ap (λ t. has_prefix t lower) e) ∙ h)
has_any_prefix-of (q ∷ ps) p lower (Memᴰ.tail m) h =
    ground (arith, has_any_prefix-of ps p lower m h)

suffix_front :
    (b c : ℕ) (s : Bytes)
    → has_suffix_byte b (c ∷ s) ≡ true
    → (front : Bytes) × (c ∷ s ≡ front ++ b ∷ [])
unfolding has_suffix_byte
suffix_front b c [] h = ([], ground arith)
suffix_front b c (d ∷ s) h = let (front, e) = suffix_front b d s h in (c ∷ front, ap (◌∷◌ c) e)

suffix_back : (b : ℕ) (front : Bytes) → has_suffix_byte b (front ++ b ∷ []) ≡ true
unfolding has_suffix_byte
suffix_back b [] = ground arith
suffix_back b (c ∷ []) = ground arith
suffix_back b (c ∷ d ∷ front) = suffix_back b (d ∷ front)

IsBracketed-of :
    (name : Bytes)
    → has_prefix (codes "[") name ≡ true
    → has_suffix_byte b']' name ≡ true
    → IsBracketed name
unfolding has_prefix has_suffix_byte
IsBracketed-of [] h k = absurd (ground arith)
IsBracketed-of (c ∷ []) h k = absurd (ground arith)
IsBracketed-of (c ∷ d ∷ s) h k =
    let (inside, e) = suffix_front b']' d s k in (inside, ground (arith, e))

bracketed_true :
    (name : Bytes)
    → IsBracketed name
    → (has_prefix (codes "[") name && has_suffix_byte b']' name) ≡ true
bracketed_true name (inside, q) =
    let first : has_prefix (codes "[") name ≡ true =
      ap (has_prefix (codes "[")) q ∙ has_prefix-append (codes "[") (inside ++ codes "]") in
    let last : has_suffix_byte b']' name ≡ true =
      ap (has_suffix_byte b']') q ∙ suffix_back b']' (b'[' ∷ inside) in
    rw (first, last) refl

or_cases : (a b c : Bool) → (a || (b && c)) ≡ true → (a ≡ true) ⊎ ((b ≡ true) × (c ≡ true))
or_cases true b c h = inl refl
or_cases false true c h = inr (refl, h)
or_cases false false c h = absurd (ground arith)

or_left : (a b : Bool) → a ≡ true → (a || b) ≡ true
or_left a b h = ground arith

or_right : (a b : Bool) → b ≡ true → (a || b) ≡ true
or_right true b h = refl
or_right false b h = h

-- A process is taken for a kernel thread exactly when its name, in lower case, begins with one of
-- the listed texts, or its name stands in square brackets.
pub is_kernel_thread_iff :
    (name : Bytes)
    → (is_kernel_thread name ≡ true) ↔ (IsListed kernel_prefixes (to_lower name) ⊎ IsBracketed name)
unfolding is_kernel_thread
is_kernel_thread_iff name =
    let lower = to_lower name in
    let listed = has_any_prefix kernel_prefixes lower in
    let bracketed = has_prefix (codes "[") name && has_suffix_byte b']' name in
    (
      λ h. elim (or_cases listed (has_prefix (codes "[") name) (has_suffix_byte b']' name) h) [
        | inl e ↦ inl (IsListed-of kernel_prefixes lower e)
        | inr (first, last) ↦ inr (IsBracketed-of name first last)
      ],
      λ h. elim h [
        | inl (p, rest, m, q) ↦
            or_left listed bracketed
              (has_any_prefix-of kernel_prefixes p lower m ((has_prefix_iff p lower).1 (rest, q)))
        | inr inside ↦ or_right listed bracketed (bracketed_true name inside)
      ],
    )
