-- ===== src/Diagnose/Activity/Infos.antt =====
-- The list that `build_infos` makes has one element for each entry, in the same order.
use podtrace.Prelude.{ℕ, ◌≡◌, ◌≢◌, refl, true, List, [], ◌∷◌, All, sum_by, arith}
use podtrace.Strings.{Bytes, codes}
use podtrace.Float.{Float}
use podtrace.Runtime.Order.{Ordered}
use podtrace.Counts.{Counts, nat_keys}
use podtrace.Counts.Laws.{tally}
use podtrace.Event.{Event}
use podtrace.ProcName.{ProcFs, Cache, or_else, get_process_name}
use podtrace.Diagnose.Activity.{PidInfo, pid_loop, resolve_name, build_infos}

pub pid_loop-tally :
    (es : List Event) (m : Counts ℕ) → pid_loop es m ≡ tally (λ e. true) (λ e. e.pid) es m
unfolding pid_loop tally
pid_loop-tally [] m = refl
pid_loop-tally (e ∷ es) m = pid_loop-tally es _

or_else-ne-nil : (s next : Bytes) → next ≢ [] → or_else s next ≢ []
or_else-ne-nil [] next h = h
or_else-ne-nil (c ∷ s) next h = cc

-- Every process is given a name.
resolve_name-ne-nil :
    (fs : ProcFs) (events : List Event) (c : Cache) (pid : ℕ)
    → (resolve_name fs events c pid).0 ≢ []
unfolding resolve_name
resolve_name-ne-nil fs events c pid =
    ground (arith, or_else-ne-nil (get_process_name fs c pid).0 (codes "unknown") (cc))

module _ (F : Type 0) ⦃f : Float F⦄ (fs : ProcFs) (events : List Event) where
  -- The list without the cache that comes with it.
  abbrev pub infos_of : Counts ℕ → Cache → List (PidInfo F)
  infos_of js c = (build_infos fs events js c).0

  -- What holds of the entries holds of the elements.
  pub infos_of-All :
      (P : ℕ → ℕ → Type 0) (js : Counts ℕ) (c : Cache)
      → All (λ j. P j.key j.count) js
      → All (λ i. P i.pid i.count) (infos_of js c)
  unfolding build_infos
  infos_of-All P [] c h = tt
  infos_of-All P (j ∷ js) c h = (h.0, infos_of-All P js _ h.1)

  pub infos_of-Distinct :
      (js : Counts ℕ) (c : Cache)
      → Ordered (λ i j. j.key ≢ i.key) js
      → Ordered (λ i j. j.pid ≢ i.pid) (infos_of js c)
  unfolding build_infos
  infos_of-Distinct [] c h = tt
  infos_of-Distinct (j ∷ js) c h =
      (infos_of-All (λ pid count. pid ≢ j.key) js _ h.0, infos_of-Distinct js _ h.1)

  pub sum_by-infos_of :
      (js : Counts ℕ) (c : Cache) → sum_by (λ i. i.count) (infos_of js c) ≡ sum_by (λ j. j.count) js
  unfolding build_infos
  sum_by-infos_of [] c = refl
  sum_by-infos_of (j ∷ js) c = omega (arith, sum_by-infos_of js (resolve_name fs events c j.key).1)

  pub infos_of-named : (js : Counts ℕ) (c : Cache) → All (λ i. i.name ≢ []) (infos_of js c)
  unfolding build_infos
  infos_of-named [] c = tt
  infos_of-named (j ∷ js) c = (resolve_name-ne-nil fs events c j.key, infos_of-named js _)
