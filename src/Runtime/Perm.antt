-- ===== src/Runtime/Perm.antt =====
-- What a permutation keeps.
use mathlib.Core.List.{Permᴰ}
use podtrace.Runtime.Order.{Ordered}
use podtrace.Prelude.{ℕ, ◌≡◌, refl, subst, Bool, List, length, All, sum_by, count_if, arith}

module _ {ℓ} {A : Type ℓ} where
  pub sum_by-perm : (key : A → ℕ) {xs ys : List A} → Permᴰ xs ys → sum_by key xs ≡ sum_by key ys
  sum_by-perm key Permᴰ.nil = refl
  sum_by-perm key (Permᴰ.cons e p) = rw e (omega (arith, sum_by-perm key p))
  sum_by-perm key (Permᴰ.swap e d) = rw (e, d) (omega arith)
  sum_by-perm key (Permᴰ.trans p q) = omega (arith, sum_by-perm key p, sum_by-perm key q)

  pub count_if-perm :
      (test : A → Bool) {xs ys : List A} → Permᴰ xs ys → count_if test xs ≡ count_if test ys
  count_if-perm test Permᴰ.nil = refl
  count_if-perm test (Permᴰ.cons e p) = rw e (omega (arith, count_if-perm test p))
  count_if-perm test (Permᴰ.swap e d) = rw (e, d) (omega arith)
  count_if-perm test (Permᴰ.trans p q) = omega (arith, count_if-perm test p, count_if-perm test q)

  pub length-perm : {xs ys : List A} → Permᴰ xs ys → length xs ≡ length ys
  length-perm Permᴰ.nil = refl
  length-perm (Permᴰ.cons e p) = omega (arith, length-perm p)
  length-perm (Permᴰ.swap e d) = refl
  length-perm (Permᴰ.trans p q) = omega (arith, length-perm p, length-perm q)

  pub All-perm {κ} : (P : A → Type κ) {xs ys : List A} → Permᴰ xs ys → All P xs → All P ys
  All-perm P Permᴰ.nil h = h
  All-perm P (Permᴰ.cons e p) (h, hs) = (subst P e h, All-perm P p hs)
  All-perm P (Permᴰ.swap e d) (h, (k, hs)) = (subst P d k, (subst P e h, hs))
  All-perm P (Permᴰ.trans p q) h = All-perm P q (All-perm P p h)

  -- A symmetric relation between all pairs does not depend on the order.
  pub Ordered-perm :
      (R : A → A → Type 0)
      → ((x y : A) → R x y → R y x)
      → {xs ys : List A} → Permᴰ xs ys
      → Ordered R xs
      → Ordered R ys
  Ordered-perm R s Permᴰ.nil h = h
  Ordered-perm R s (Permᴰ.cons {l₂ = ys} e p) (h, hs) =
      (subst (λ x. All (R x) ys) e (All-perm (R _) p h), Ordered-perm R s p hs)
  Ordered-perm R s (Permᴰ.swap {a = x} {b = y} {b' = z} {l = l} e d) ((r, h), (k, hs)) =
      let near = subst (λ w. R w z) d (subst (λ w. R y w) e (s x y r)) in
      ((near, subst (λ w. All (R w) l) d k), (subst (λ w. All (R w) l) e h, hs))
  Ordered-perm R s (Permᴰ.trans p q) h = Ordered-perm R s q (Ordered-perm R s p h)
