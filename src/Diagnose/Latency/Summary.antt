-- ===== src/Diagnose/Latency/Summary.antt =====
-- What `summarize` makes of the latencies that `observe` collected.
use mathlib.Core.List.{foldl, Memᴰ}
use mathlib.Core.List.Permᴰ.{symm}
use podtrace.Prelude.{
  ℕ, suc, ◌≤◌, ◌<◌, ◌≡◌, refl, sym, ap, subst, ◌∙◌, true, false, some, List, [], ◌∷◌, ◌++◌, ◌==◌,
  append_assoc, append-nil, length, get_elem?, All, All-append, arith, Bool-cases, ◌⊎◌, inl, inr,
}
use podtrace.Float.{Float, IsOrdered, IsExact, millis}
use podtrace.Runtime.{Runtime, IsRuntime}
use podtrace.Runtime.Perm.{All-perm, length-perm}
use podtrace.Diagnose.Latency.{Timing, Latency, no_timing, observe, percentile, summarize}
use podtrace.Diagnose.Latency.Rank.{
  get_elem?_lt, All-get_elem?, Ordered-get_elem?, rank, max_count, percentile-eq, rank_lt,
  rank_mono,
}

module _ {F : Type 0} ⦃f : Float F⦄ where
  -- Nanoseconds as milliseconds.
  abbrev pub in_millis : List ℕ → List F
  in_millis [] = []
  in_millis (n ∷ ns) = millis n ∷ in_millis ns

module _ (F : Type 0) ⦃f : Float F⦄ where
  length-in_millis : (ns : List ℕ) → length {A = F} (in_millis ns) ≡ length ns
  length-in_millis [] = refl
  length-in_millis (n ∷ ns) = ap suc (length-in_millis ns)

Memᴰ-last : {A : Type 0} (xs : List A) (x : A) → Memᴰ x (xs ++ x ∷ [])
Memᴰ-last [] x = Memᴰ.head refl
Memᴰ-last (y ∷ xs) x = Memᴰ.tail (Memᴰ-last xs x)

Memᴰ-front : {A : Type 0} (x : A) (xs ys : List A) → Memᴰ x xs → Memᴰ x (xs ++ ys)
Memᴰ-front x [] ys m = elim m [ ]
Memᴰ-front x (y ∷ xs) ys (Memᴰ.head e) = Memᴰ.head e
Memᴰ-front x (y ∷ xs) ys (Memᴰ.tail m) = Memᴰ.tail (Memᴰ-front x xs ys m)

module _ {F : Type 0} ⦃f : Float F⦄ where
  open f use {of_nat, add, div, lt}

  -- The loop over latencies alone.
  unfoldable pub observe_all : List ℕ → Timing F → Timing F
  observe_all [] t = t
  observe_all (n ∷ ns) t = observe_all ns (observe t n)

  -- No latency of the list is above the bound.
  abbrev pub IsBound : F → List F → Type 0
  IsBound top = All (λ x. lt top x ≡ false)

  latencies-observe_all :
      (ns : List ℕ) (t : Timing F) → (observe_all ns t).latencies ≡ t.latencies ++ in_millis ns
  unfolding observe_all observe
  latencies-observe_all [] t = sym (append-nil t.latencies)
  latencies-observe_all (n ∷ ns) t =
      latencies-observe_all ns (observe t n)
      ∙ append_assoc t.latencies (millis n ∷ []) (in_millis ns)

  total-observe_all :
      (ns : List ℕ) (t : Timing F) → (observe_all ns t).total ≡ foldl add t.total (in_millis ns)
  unfolding observe_all observe
  total-observe_all [] t = refl
  total-observe_all (n ∷ ns) t = total-observe_all ns (observe t n)

  -- The maximum is one of the latencies, or the 0 that the loop starts with.
  abbrev pub IsAttained : F → List F → Type 0
  IsAttained top xs = (top ≡ of_nat 0) ⊎ Memᴰ top xs

  observe-IsAttained :
      (t : Timing F) (n : ℕ)
      → IsAttained t.max t.latencies
      → IsAttained (observe t n).max (observe t n).latencies
  unfolding observe
  observe-IsAttained t n h = elim (Bool-cases (lt t.max (millis n))) [
    | inl e ↦ rw e (inr (Memᴰ-last t.latencies (millis n)))
    | inr e ↦
        rw e
          (elim h [ inl z ↦ inl z | inr m ↦ inr (Memᴰ-front t.max t.latencies (millis n ∷ []) m) ])
  ]

  observe_all-IsAttained :
      (ns : List ℕ) (t : Timing F)
      → IsAttained t.max t.latencies
      → IsAttained (observe_all ns t).max (observe_all ns t).latencies
  unfolding observe_all
  observe_all-IsAttained [] t h = h
  observe_all-IsAttained (n ∷ ns) t h =
      observe_all-IsAttained ns (observe t n) (observe-IsAttained t n h)

  module _ (order : IsOrdered F) where
    IsBound-raise : (top x : F) (xs : List F) → lt top x ≡ true → IsBound top xs → IsBound x xs
    IsBound-raise top x [] above h = tt
    IsBound-raise top x (y ∷ ys) above h =
        (ground (arith, order.lt_trans top x y), IsBound-raise top x ys above h.1)

    observe-IsBound :
        (t : Timing F) (n : ℕ)
        → IsBound t.max t.latencies
        → IsBound (observe t n).max (observe t n).latencies
    unfolding observe
    observe-IsBound t n h = elim (Bool-cases (lt t.max (millis n))) [
      | inl e ↦ rw e (
          All-append _ t.latencies (millis n ∷ []) (IsBound-raise t.max (millis n) t.latencies e h)
            (order.lt_irrefl (millis n), tt))
      | inr e ↦ rw e (All-append _ t.latencies (millis n ∷ []) h (e, tt))
    ]

    observe_all-IsBound :
        (ns : List ℕ) (t : Timing F)
        → IsBound t.max t.latencies
        → IsBound (observe_all ns t).max (observe_all ns t).latencies
    unfolding observe_all
    observe_all-IsBound [] t h = h
    observe_all-IsBound (n ∷ ns) t h = observe_all-IsBound ns (observe t n) (observe-IsBound t n h)

  module _ (r : Runtime F) where
    -- What the five numbers say of the latencies `ns`: the mean of the milliseconds; no latency is
    -- above the maximum, which is one of them or 0; the percentiles stand at their ranks, and neither they nor the maximum
    -- fall in this order.
    pub record IsLatency (ns : List ℕ) (l : Latency F) : Type 0 where
      pub average : l.avg ≡ div (foldl add (of_nat 0) (in_millis ns)) (of_nat (length ns))
      pub bounded : IsBound l.max (in_millis ns)
      pub attained : IsAttained l.max (in_millis ns)
      pub ranked_50 : get_elem? (r.sort_floats (in_millis ns)) (rank (length ns) 50) ≡ some l.p50
      pub ranked_95 : get_elem? (r.sort_floats (in_millis ns)) (rank (length ns) 95) ≡ some l.p95
      pub ranked_99 : get_elem? (r.sort_floats (in_millis ns)) (rank (length ns) 99) ≡ some l.p99
      pub p50_le_p95 : lt l.p95 l.p50 ≡ false
      pub p95_le_p99 : lt l.p99 l.p95 ≡ false
      pub p99_le_max : lt l.max l.p99 ≡ false

    module _ (order : IsOrdered F) (exact : IsExact F) (laws : IsRuntime F r) where
      sorted-length : (ns : List ℕ) → length (r.sort_floats (in_millis ns)) ≡ length ns
      sorted-length ns = length-perm (laws.sort_floats_perm (in_millis ns)) ∙ length-in_millis F ns

      -- A percentile of the sorted latencies is found at its rank.
      ranked :
          (ns : List ℕ) (p : ℕ)
          → 0 < length ns
          → length ns ≤ max_count
          → p ≤ 99
          → (x : F) × (percentile (r.sort_floats (in_millis ns)) p ≡ some x)
            × (get_elem? (r.sort_floats (in_millis ns)) (rank (length ns) p) ≡ some x)
      ranked ns p some_event few h =
          let sorted = r.sort_floats (in_millis ns) in
          let len : length sorted ≡ length ns = sorted-length ns in
          let (x, found) =
            get_elem?_lt sorted (rank (length ns) p) (omega (arith, rank_lt (length ns) p)) in
          let at_rank = percentile-eq exact sorted p (omega arith) (omega arith) h in
          (x, at_rank ∙ ap (λ n. get_elem? sorted (rank n p)) len ∙ found, found)

      -- For at least one and not too many latencies nothing panics, and the result is right.
      pub summarize_lem :
          (ns : List ℕ)
          → 0 < length ns
          → length ns ≤ max_count
          → (l : Latency F) × (summarize r (observe_all ns no_timing) (length ns) ≡ some l)
            × IsLatency ns l
      unfolding summarize
      summarize_lem ns some_event few =
          let t : Timing F = observe_all ns no_timing in
          let sorted = r.sort_floats (in_millis ns) in
          let collected : t.latencies ≡ in_millis ns = latencies-observe_all ns no_timing in
          let bound : IsBound t.max (in_millis ns) =
            subst (IsBound t.max) collected (observe_all-IsBound order ns no_timing tt) in
          let bound_sorted =
            All-perm (λ x. lt t.max x ≡ false) (symm (laws.sort_floats_perm (in_millis ns)))
              bound in
          let ascending = laws.sort_floats_ascending (in_millis ns) in
          let (x, q, g) = ranked ns 50 some_event few (omega arith) in
          let (y, q', g') = ranked ns 95 some_event few (omega arith) in
          let (z, q'', g'') = ranked ns 99 some_event few (omega arith) in
          let not_empty : (length ns == 0) ≡ false = ground arith in
          let l : Latency F = record {
            avg = div t.total (of_nat (length ns));
            max = t.max;
            p50 = x;
            p95 = y;
            p99 = z;
          } in
          (
            l,
            rw (not_empty, collected, q, q', q'') refl,
            record {
              average = ap (λ s. div s (of_nat (length ns))) (total-observe_all ns no_timing);
              bounded = bound;
              attained =
                  subst (IsAttained t.max) collected
                    (observe_all-IsAttained ns no_timing (inl refl));
              ranked_50 = g;
              ranked_95 = g';
              ranked_99 = g'';
              p50_le_p95 =
                  Ordered-get_elem? (λ u v. lt v u ≡ false) order.lt_irrefl sorted _ _ ascending
                    (rank_mono (length ns) 50 95 (omega arith)) g g';
              p95_le_p99 =
                  Ordered-get_elem? (λ u v. lt v u ≡ false) order.lt_irrefl sorted _ _ ascending
                    (rank_mono (length ns) 95 99 (omega arith)) g' g'';
              p99_le_max = All-get_elem? (λ u. lt t.max u ≡ false) sorted _ bound_sorted g'';
            },
          )
