-- ===== src/Diagnose/Activity/Correct.antt =====
-- What the process activity says of the events.
use mathlib.Core.List.Permᴰ.{symm}
use podtrace.Prelude.{
  ℕ, ◌≤◌, ◌≡◌, ◌≢◌, refl, sym, true, List, [], ◌∷◌, ◌==◌, All, sum_by, count_if, length, arith,
}
use podtrace.Float.{Float}
use podtrace.Runtime.{Runtime, IsRuntime}
use podtrace.Runtime.Order.{Ordered, IsDescending}
use podtrace.Runtime.Perm.{All-perm, sum_by-perm, Ordered-perm}
use podtrace.Counts.{Entry, Counts, nat_keys, count_of}
use podtrace.Counts.Laws.{
  count_of_entry, tally, total-tally, count_of-tally, tally-IsMap, tally-IsRaised,
}
use podtrace.Event.{Event}
use podtrace.ProcName.{ProcFs, Cache}
use podtrace.Diagnose.Activity.{PidInfo, analyze_process_activity}
use podtrace.Diagnose.Activity.Infos.{
  pid_loop-tally, infos_of, infos_of-All, infos_of-Distinct, sum_by-infos_of, infos_of-named,
}

-- The processes of the events: the busiest first, each once, with the number of its events, which
-- is not 0, and with a name; the numbers add up to all events.
pub record IsActivity {F : Type 0} (events : List Event) (infos : List (PidInfo F)) : Type 0 where
  pub descending : IsDescending (λ i. i.count) infos
  pub distinct : Ordered (λ i j. j.pid ≢ i.pid) infos
  pub exact : All (λ i. i.count ≡ count_if (λ e. e.pid == i.pid) events) infos
  pub active : All (λ i. 1 ≤ i.count) infos
  pub named : All (λ i. i.name ≢ []) infos
  pub complete : sum_by (λ i. i.count) infos ≡ length events

count_if-true : {A : Type 0} (xs : List A) → count_if (λ x. true) xs ≡ length xs
count_if-true [] = refl
count_if-true (x ∷ xs) = omega (arith, count_if-true xs)

exact_entries :
    (events : List Event) (m : Counts ℕ)
    → All (λ j. count_of j.key (tally (λ e. true) (λ e. e.pid) events []) ≡ j.count) m
    → All (λ j. j.count ≡ count_if (λ e. e.pid == j.key) events) m
unfolding count_of
exact_entries events [] h = tt
exact_entries events (j ∷ m) h = (
  omega (arith, h.0, count_of-tally (λ e. true) (λ e. e.pid) j.key events []),
  exact_entries events m h.1,
)

module _ {F : Type 0} ⦃f : Float F⦄ (r : Runtime F) (laws : IsRuntime F r) where
  -- Whatever order the map is visited in and whatever /proc and the cache say, the process activity
  -- lists each process once, the busiest first, with the number of its events, which is not 0, and
  -- with a name; the numbers add up to all events. The laws of Runtime are assumed.
  pub analyze_process_activity_lem :
      (fs : ProcFs) (events : List Event) (c : Cache)
      → IsActivity events (analyze_process_activity r fs events c).0
  unfolding analyze_process_activity
  analyze_process_activity_lem fs events c =
      let m = tally (λ e. true) (λ e. e.pid) events [] in
      let entries = r.iterate (Entry ℕ) m in
      let visited = laws.iterate_perm (Entry ℕ) m in
      let infos : List (PidInfo F) = infos_of F fs events entries c in
      let sorted = laws.sort_slice_perm (PidInfo F) _ infos in
      let map_of = tally-IsMap (λ e. true) (λ e. e.pid) events [] tt in
      rw (pid_loop-tally events []) (record {
        descending = laws.sort_slice_descending (PidInfo F) (λ i. i.count) infos;
        distinct =
            Ordered-perm (λ i j. j.pid ≢ i.pid) (λ i j n q. n (sym q)) (symm sorted)
              (infos_of-Distinct F fs events entries c
                (Ordered-perm (λ i j. j.key ≢ i.key) (λ i j n q. n (sym q)) (symm visited) map_of));
        exact = All-perm _ (symm sorted) (
            infos_of-All F fs events (λ pid count. count ≡ count_if (λ e. e.pid == pid) events)
              entries c
              (All-perm _ (symm visited) (exact_entries events m (count_of_entry m map_of))));
        active = All-perm _ (symm sorted) (
            infos_of-All F fs events (λ pid count. 1 ≤ count) entries c
              (All-perm _ (symm visited) (tally-IsRaised (λ e. true) (λ e. e.pid) events [] tt)));
        named = All-perm _ (symm sorted) (infos_of-named F fs events entries c);
        complete = omega (
          arith,
          sum_by-perm (λ i. i.count) sorted,
          sum_by-infos_of F fs events entries c,
          sum_by-perm (λ j. j.count) visited,
          total-tally (λ e. true) (λ e. e.pid) events [],
          count_if-true events,
        );
      })
