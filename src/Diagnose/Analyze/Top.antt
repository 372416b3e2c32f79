-- ===== src/Diagnose/Analyze/Top.antt =====
-- The ranking of a map of counters, which the reports call "top": what it says of the elements
-- that were counted, whatever order the map was visited in.
use mathlib.Core.List.{Permᴰ}
use mathlib.Core.List.Permᴰ.{symm}
use podtrace.Prelude.{◌≡◌, ◌≢◌, sym, Bool, ◌&&◌, List, [], ◌∷◌, All, sum_by, count_if, arith}
use podtrace.Float.{Float}
use podtrace.Runtime.{Runtime, IsRuntime}
use podtrace.Runtime.Order.{IsDescending}
use podtrace.Runtime.Perm.{All-perm, sum_by-perm, Ordered-perm}
use podtrace.Counts.{Eq, Entry, Counts, count_of}
use podtrace.Counts.Laws.{
  IsMap, IsRaised, count_of_entry, tally, total-tally, count_of-tally, tally-IsMap, tally-IsRaised,
}
use podtrace.Diagnose.Analyze.{top_entries}

-- A ranking of the elements that pass a test, by their keys: counts do not rise, each key stands
-- once with the number of its elements, which is not 0, and the counts add up to all of them.
pub record IsTop {A K : Type 0} ⦃e : Eq K⦄ (test : A → Bool) (key : A → K) (xs : List A)
    (top : List (Entry K)) : Type 0 where
  pub descending : IsDescending (λ j. j.count) top
  pub distinct : IsMap top
  pub exact : All (λ j. j.count ≡ count_if (λ x. test x && e.beq (key x) j.key) xs) top
  pub raised : IsRaised top
  pub complete : sum_by (λ j. j.count) top ≡ count_if test xs

module _ {F : Type 0} ⦃f : Float F⦄ (r : Runtime F) (laws : IsRuntime F r) where
  pub top_entries-perm : {K : Type 0} (m : Counts K) → Permᴰ (top_entries r K m) m
  unfolding top_entries
  top_entries-perm {K} m =
      Permᴰ.trans (laws.sort_slice_perm (Entry K) _ (r.iterate (Entry K) m))
        (laws.iterate_perm (Entry K) m)

  top_entries-IsDescending :
      {K : Type 0} (m : Counts K) → IsDescending (λ j. j.count) (top_entries r K m)
  unfolding top_entries
  top_entries-IsDescending {K} m =
      laws.sort_slice_descending (Entry K) (λ j. j.count) (r.iterate (Entry K) m)

  module _ {A K : Type 0} ⦃e : Eq K⦄ (test : A → Bool) (key : A → K) where
    tally-exact :
        (xs : List A) (m : Counts K)
        → All (λ j. count_of j.key (tally test key xs []) ≡ j.count) m
        → All (λ j. j.count ≡ count_if (λ x. test x && e.beq (key x) j.key) xs) m
    unfolding count_of
    tally-exact xs [] h = tt
    tally-exact xs (j ∷ m) h =
        (omega (arith, h.0, count_of-tally test key j.key xs []), tally-exact xs m h.1)

    pub top_entries-IsTop :
        (xs : List A) → IsTop test key xs (top_entries r K (tally test key xs []))
    top_entries-IsTop xs =
        let m = tally test key xs [] in
        let same = symm (top_entries-perm m) in
        let map_of = tally-IsMap test key xs [] tt in
        record {
          descending = top_entries-IsDescending m;
          distinct = Ordered-perm (λ i j. j.key ≢ i.key) (λ i j n q. n (sym q)) same map_of;
          exact = All-perm _ same (tally-exact xs m (count_of_entry m map_of));
          raised = All-perm _ same (tally-IsRaised test key xs [] tt);
          complete = omega (arith, sum_by-perm (λ j. j.count) same, total-tally test key xs []);
        }
