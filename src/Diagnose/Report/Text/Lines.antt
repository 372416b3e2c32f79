-- ===== src/Diagnose/Report/Text/Lines.antt =====
-- What the texts of internal/diagnose share: `fmt.Sprintf`, and the lines on latencies and lists. A
-- text is the list of the strings that are appended to `report`, one for each `report +=`.
use podtrace.Prelude.{ℕ, Option, none, some, List, [], ◌∷◌, ◌++◌, map, length, take, replicate, ◌-◌}
use podtrace.Prelude.Int.{pos}
use podtrace.Strings.{Bytes, codes}
use podtrace.Float.{Float}
use podtrace.Counts.{Entry}
use podtrace.Diagnose.Latency.{Latency}

-- The words and the printed arguments, one after the other.
abbrev pub sprintf : List Bytes → Bytes
sprintf [] = []
sprintf (s ∷ ss) = s ++ sprintf ss

abbrev pub when : {A : Type 0} → Option A → (A → List Bytes) → List Bytes
when none text = []
when (some a) text = text a

-- `if len(list) > 0`
abbrev pub when_any : {A : Type 0} → List A → List Bytes → List Bytes
when_any [] text = []
when_any (x ∷ xs) text = text

abbrev pub blank : Bytes
blank = codes "\n"

module _ (F : Type 0) ⦃f : Float F⦄ where
  open f use {print, print_int}

  -- `%d` of a number that is not negative
  abbrev pub print_nat : ℕ → Bytes
  print_nat n = print_int (pos n)

  -- `%5.1f`
  abbrev pub print_padded : F → Bytes
  print_padded x = let s = print 1 x in replicate (5 - length s) b' ' ++ s

module _ {F : Type 0} ⦃f : Float F⦄ where
  open f use {print}

  -- words, a number of milliseconds
  abbrev pub ms_line : Bytes → F → Bytes
  ms_line words ms = sprintf (words ∷ print 2 ms ∷ codes "ms\n" ∷ [])

  abbrev pub percentile_line : Latency F → Bytes
  percentile_line l = sprintf (
      codes "  Percentiles: P50="
      ∷ print 2 l.p50
      ∷ codes "ms, P95="
      ∷ print 2 l.p95
      ∷ codes "ms, P99="
      ∷ print 2 l.p99
      ∷ codes "ms\n"
      ∷ [])

  -- words, a number of operations and how many in a second
  abbrev pub rate_line : Bytes → ℕ → F → Bytes
  rate_line words count per_sec =
      sprintf (words ∷ print_nat F count ∷ codes " (" ∷ print 1 per_sec ∷ codes "/sec)\n" ∷ [])

module _ (F : Type 0) ⦃f : Float F⦄ where
  open f use {of_nat, mul, div, print}

  -- words, a number of errors and their share
  abbrev pub error_line : Bytes → ℕ → ℕ → Bytes
  error_line words errors count = sprintf (
      words
      ∷ print_nat F errors
      ∷ codes " ("
      ∷ print 1 (div (mul (of_nat errors) (of_nat 100)) (of_nat count))
      ∷ codes "%)\n"
      ∷ [])

  abbrev pub entry_line : Bytes → Entry Bytes → Bytes
  entry_line words e =
      sprintf (codes "    - " ∷ e.key ∷ codes " (" ∷ print_nat F e.count ∷ words ∷ [])

  -- A list of the busiest, five lines at most, if there is one.
  unfoldable pub top_list : Bytes → Bytes → List (Entry Bytes) → List Bytes
  top_list title words entries = when_any entries (title ∷ map (entry_line words) (take 5 entries))
