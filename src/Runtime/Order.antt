-- ===== src/Runtime/Order.antt =====
-- Lists whose elements stand in an order.
use podtrace.Prelude.{ℕ, ◌≤◌, ◌≡◌, Bool, false, List, [], ◌∷◌, ltb, All}
use podtrace.Float.{Float}

-- Each element and all behind it are related.
abbrev pub Ordered {ℓ} : {A : Type ℓ} → (A → A → Type 0) → List A → Type 0
Ordered R [] = Unit {0}
Ordered R (x ∷ xs) = All (R x) xs × Ordered R xs

-- No later key is above an earlier one.
abbrev pub IsDescending {ℓ} : {A : Type ℓ} → (A → ℕ) → List A → Type 0
IsDescending key = Ordered (λ x y. key y ≤ key x)

-- No later float is below an earlier one.
abbrev pub IsAscending : {F : Type 0} ⦃f : Float F⦄ → List F → Type 0
IsAscending ⦃f⦄ = Ordered (λ x y. f.lt y x ≡ false)

-- `s[i].count > s[j].count`, the test that the program sorts by.
abbrev pub more {ℓ} : {A : Type ℓ} → (A → ℕ) → A → A → Bool
more key x y = ltb (key y) (key x)
