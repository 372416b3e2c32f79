-- ===== src/Runtime/Insertion.antt =====
-- A runtime that visits maps as they stand and sorts by insertion: the laws can be met.
use mathlib.Core.List.{Permᴰ}
use podtrace.Prelude.{
  ℕ, ◌≤◌, ◌≡◌, refl, Bool, true, false, List, [], ◌∷◌, ltb, All, arith, Bool-cases, inl, inr,
  if◌then◌else◌,
}
use podtrace.Float.Fixed.{fixed_float}
use podtrace.Runtime.Order.{Ordered, more}
use podtrace.Runtime.{Runtime, IsRuntime}

module _ (A : Type 0) where
  pub same_list : (zs : List A) → Permᴰ zs zs
  same_list [] = Permᴰ.nil
  same_list (z ∷ zs) = Permᴰ.cons refl (same_list zs)

module _ (A : Type 0) (less : A → A → Bool) where
  abbrev insert : A → List A → List A
  insert x [] = x ∷ []
  insert x (y ∷ ys) = if less y x then y ∷ insert x ys else x ∷ y ∷ ys

  abbrev pub insertion_sort : List A → List A
  insertion_sort [] = []
  insertion_sort (x ∷ xs) = insert x (insertion_sort xs)

  insert-perm : (x : A) (xs : List A) → Permᴰ (insert x xs) (x ∷ xs)
  insert-perm x [] = Permᴰ.cons refl Permᴰ.nil
  insert-perm x (y ∷ ys) = elim (Bool-cases (less y x)) [
    | inl e ↦ rw e (Permᴰ.trans (Permᴰ.cons refl (insert-perm x ys)) (Permᴰ.swap refl refl))
    | inr e ↦ rw e (Permᴰ.cons refl (Permᴰ.cons refl (same_list A ys)))
  ]

  pub insertion_sort-perm : (xs : List A) → Permᴰ (insertion_sort xs) xs
  insertion_sort-perm [] = Permᴰ.nil
  insertion_sort-perm (x ∷ xs) =
      Permᴰ.trans (insert-perm x (insertion_sort xs)) (Permᴰ.cons refl (insertion_sort-perm xs))

module _ (A : Type 0) (less : A → A → Bool) where
  -- A key that the test respects, one way or the other.
  module _ (R : A → A → Type 0) (trans : (x y z : A) → R x y → R y z → R x z)
      (before : (x y : A) → less x y ≡ true → R x y)
      (after : (x y : A) → less x y ≡ false → R y x) where
    insert-All : (z x : A) (xs : List A) → R z x → All (R z) xs → All (R z) (insert A less x xs)
    insert-All z x [] h hs = (h, tt)
    insert-All z x (y ∷ ys) h hs = elim (Bool-cases (less y x)) [
      | inl e ↦ rw e (hs.0, insert-All z x ys h hs.1)
      | inr e ↦ rw e (h, hs)
    ]

    All-trans : (x y : A) (ys : List A) → R x y → All (R y) ys → All (R x) ys
    All-trans x y [] h hs = tt
    All-trans x y (z ∷ zs) h hs = (trans x y z h hs.0, All-trans x y zs h hs.1)

    insert-Ordered : (x : A) (xs : List A) → Ordered R xs → Ordered R (insert A less x xs)
    insert-Ordered x [] h = (tt, tt)
    insert-Ordered x (y ∷ ys) h = elim (Bool-cases (less y x)) [
      | inl e ↦ rw e (insert-All y x ys (before y x e) h.0, insert-Ordered x ys h.1)
      | inr e ↦ rw e ((after y x e, All-trans x y ys (after y x e) h.0), h)
    ]

    pub insertion_sort-Ordered : (xs : List A) → Ordered R (insertion_sort A less xs)
    insertion_sort-Ordered [] = tt
    insertion_sort-Ordered (x ∷ xs) =
        insert-Ordered x (insertion_sort A less xs) (insertion_sort-Ordered xs)

abbrev pub insertion_runtime : Runtime ℕ
insertion_runtime = record {
  iterate = λ A xs. xs;
  sort_slice = insertion_sort;
  sort_floats = insertion_sort ℕ ltb;
}

-- The fixed-point numbers and this runtime obey the laws.
pub insertion-IsRuntime : IsRuntime ℕ insertion_runtime
insertion-IsRuntime = record {
  iterate_perm = same_list;
  sort_slice_perm = insertion_sort-perm;
  sort_slice_descending = λ A key xs.
      insertion_sort-Ordered A (more key) (λ x y. key y ≤ key x) (λ x y z p q. omega arith)
        (λ x y h. ground arith) (λ x y h. ground arith) xs;
  sort_floats_perm = insertion_sort-perm ℕ ltb;
  sort_floats_ascending =
      insertion_sort-Ordered ℕ ltb (λ x y. ltb y x ≡ false) (λ x y z p q. ground arith)
        (λ x y h. ground arith) (λ x y h. h);
}
