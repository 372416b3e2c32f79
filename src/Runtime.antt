-- ===== src/Runtime.antt =====
-- What Go leaves open: the order in which a `range` visits a map, and where an unstable sort puts
-- elements that compare equal. Both are functions of which only the documented laws are known.
pub mod Order
pub mod Perm
pub mod Insertion
use mathlib.Core.List.{Permᴰ}
use podtrace.Prelude.{ℕ, ◌≤◌, ◌≡◌, Bool, true, false, List, [], ◌∷◌, ltb, All}
use podtrace.Float.{Float}
use podtrace.Runtime.Order.{IsDescending, IsAscending, more}

pub record Runtime (F : Type 0) : Type 1 where
  -- `for k, v := range m`
  pub iterate : (A : Type 0) → List A → List A
  -- `sort.Slice(s, less)`, with `less` on elements
  pub sort_slice : (A : Type 0) → (A → A → Bool) → List A → List A
  -- `sort.Float64s(s)`
  pub sort_floats : List F → List F

pub record IsRuntime (F : Type 0) ⦃f : Float F⦄ (r : Runtime F) : Type 1 where
  pub iterate_perm : (A : Type 0) (xs : List A) → Permᴰ (r.iterate A xs) xs
  pub sort_slice_perm :
      (A : Type 0) (less : A → A → Bool) (xs : List A) → Permᴰ (r.sort_slice A less xs) xs
  pub sort_slice_descending :
      (A : Type 0) (key : A → ℕ) (xs : List A) → IsDescending key (r.sort_slice A (more key) xs)
  pub sort_floats_perm : (xs : List F) → Permᴰ (r.sort_floats xs) xs
  pub sort_floats_ascending : (xs : List F) → IsAscending (r.sort_floats xs)
