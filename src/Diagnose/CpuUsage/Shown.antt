-- ===== src/Diagnose/CpuUsage/Shown.antt =====
-- The rows of `generateCPUUsageReport` of internal/diagnose/cpu_profiling.go, taken from a sorted list
-- of processes.
use mathlib.Core.List.{Permᴰ}
use mathlib.Core.List.Permᴰ.{symm}
use podtrace.Prelude.{
  ℕ, zero, suc, ◌≢◌, ap, sym, take, ◌+◌, ◌≤◌, ◌<◌, ◌≡◌, refl, ◌∙◌, Bool, true, false, not, ◌||◌,
  List, [], ◌∷◌, ◌==◌, if◌then◌else◌, length, All, sum_by, count_if, arith, Bool-cases, inl, inr,
}
use podtrace.Float.{Float}
use podtrace.Runtime.Order.{IsDescending}
use podtrace.Runtime.Perm.{sum_by-perm, All-perm, Ordered-perm}
use podtrace.Event.{Event}
use podtrace.Diagnose.Activity.{PidInfo}
use podtrace.Diagnose.Activity.Correct.{IsActivity}
use podtrace.Diagnose.CpuUsage.{is_kernel_thread, CpuRow, processes_of, show_rows}

-- The events of the processes that some rows show.
abbrev pub shown : {F : Type 0} → List (CpuRow F) → ℕ
shown rows = sum_by (λ row. row.info.count) rows

-- Whether a process is of the kind that is wanted.
abbrev pub is_kind : {F : Type 0} → Bool → PidInfo F → Bool
is_kind kernel i = if kernel then is_kernel_thread i.name else not (is_kernel_thread i.name)

module _ {F : Type 0} where
  pub processes_of-split :
      (is : List (PidInfo F))
      → sum_by (λ i. i.count) (processes_of true is) + sum_by (λ i. i.count) (processes_of false is)
        ≡ sum_by (λ i. i.count) is
  unfolding processes_of
  processes_of-split [] = refl
  processes_of-split (i ∷ is) = ground (arith, processes_of-split is)

  pub processes_of-kind :
      (kernel : Bool) (is : List (PidInfo F))
      → All (λ i. is_kernel_thread i.name ≡ kernel) (processes_of kernel is)
  unfolding processes_of
  processes_of-kind kernel [] = tt
  processes_of-kind true (i ∷ is) = elim (Bool-cases (is_kernel_thread i.name)) [
    | inl e ↦ rw (e, processes_of) (e, processes_of-kind true is)
    | inr e ↦ rw (e, processes_of) (processes_of-kind true is)
  ]
  processes_of-kind false (i ∷ is) = elim (Bool-cases (is_kernel_thread i.name)) [
    | inl e ↦ rw (e, processes_of) (processes_of-kind false is)
    | inr e ↦ rw (e, processes_of) (e, processes_of-kind false is)
  ]

  pub length-processes_of :
      (kernel : Bool) (is : List (PidInfo F))
      → length (processes_of kernel is) ≡ count_if (is_kind kernel) is
  unfolding processes_of
  length-processes_of kernel [] = refl
  length-processes_of true (i ∷ is) = ground (arith, length-processes_of true is)
  length-processes_of false (i ∷ is) = ground (arith, length-processes_of false is)

  pub some_activity :
      (is : List (PidInfo F))
      → 0 < sum_by (λ i. i.count) is
      → (length is == 0 || sum_by (λ i. i.count) is == 0) ≡ false
  some_activity [] h = absurd (omega arith)
  some_activity (i ∷ is) h = ground arith

module _ {F : Type 0} ⦃f : Float F⦄ where
  pub shown-show_rows :
      (limit duration : ℕ) (is : List (PidInfo F)) (percent : F)
      → shown (show_rows limit duration is percent).0 ≤ sum_by (λ i. i.count) is
  unfolding show_rows
  shown-show_rows zero duration is percent = omega arith
  shown-show_rows (suc limit) duration [] percent = omega arith
  shown-show_rows (suc limit) duration (i ∷ is) percent =
      omega (arith, shown-show_rows limit duration is (f.add percent i.percentage))

  pub all_shown :
      (limit duration : ℕ) (is : List (PidInfo F)) (percent : F)
      → length is ≤ limit
      → shown (show_rows limit duration is percent).0 ≡ sum_by (λ i. i.count) is
  unfolding show_rows
  all_shown zero duration [] percent h = refl
  all_shown zero duration (i ∷ is) percent h = absurd (omega arith)
  all_shown (suc limit) duration [] percent h = refl
  all_shown (suc limit) duration (i ∷ is) percent h =
      omega (arith, all_shown limit duration is (f.add percent i.percentage) (omega arith))

  pub show_rows-All :
      (P : PidInfo F → Type 0) (limit duration : ℕ) (is : List (PidInfo F)) (percent : F)
      → All P is
      → All (λ row. P row.info) (show_rows limit duration is percent).0
        × (length (show_rows limit duration is percent).0 ≤ limit)
  unfolding show_rows
  show_rows-All P zero duration is percent h = (tt, omega arith)
  show_rows-All P (suc limit) duration [] percent h = (tt, omega arith)
  show_rows-All P (suc limit) duration (i ∷ is) percent h =
      let rest = show_rows-All P limit duration is (f.add percent i.percentage) h.1 in
      ((h.0, rest.0), omega (arith, rest.1))

-- The processes that pass a test, in their order.
abbrev pub select : {A : Type 0} → (A → Bool) → List A → List A
select test [] = []
select test (x ∷ xs) = if test x then x ∷ select test xs else select test xs

-- The processes that some rows show.
abbrev pub infos_of : {F : Type 0} → List (CpuRow F) → List (PidInfo F)
infos_of [] = []
infos_of (row ∷ rows) = row.info ∷ infos_of rows

pub processes_of-select :
    {F : Type 0} (kernel : Bool) (is : List (PidInfo F))
    → processes_of kernel is ≡ select (is_kind kernel) is
unfolding processes_of
processes_of-select kernel [] = refl
processes_of-select true (i ∷ is) = ground (arith, processes_of-select true is)
processes_of-select false (i ∷ is) = ground (arith, processes_of-select false is)

pub show_rows-take :
    {F : Type 0} ⦃f : Float F⦄ (limit duration : ℕ) (is : List (PidInfo F)) (percent : F)
    → infos_of (show_rows limit duration is percent).0 ≡ take limit is
unfolding show_rows
show_rows-take zero duration is percent = refl
show_rows-take (suc limit) duration [] percent = refl
show_rows-take ⦃f⦄ (suc limit) duration (i ∷ is) percent =
    ap (◌∷◌ i) (show_rows-take limit duration is (f.add percent i.percentage))

-- The activity in another order that is descending.
pub IsActivity-perm :
    {F : Type 0} (events : List Event) (infos activity : List (PidInfo F))
    → Permᴰ infos activity
    → IsDescending (λ i. i.count) infos
    → IsActivity events activity
    → IsActivity events infos
IsActivity-perm events infos activity p down right = record {
  descending = down;
  distinct = Ordered-perm (λ i j. j.pid ≢ i.pid) (λ i j n q. n (sym q)) (symm p) right.distinct;
  exact = All-perm _ (symm p) right.exact;
  active = All-perm _ (symm p) right.active;
  named = All-perm _ (symm p) right.named;
  complete = sum_by-perm (λ i. i.count) p ∙ right.complete;
}
