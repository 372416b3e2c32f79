-- ===== src/Diagnose/Activity.antt =====
-- `analyzeProcessActivity` of internal/diagnose/diagnose.go.
pub mod Infos
pub mod Correct
use podtrace.Prelude.{ℕ, Bool, List, [], ◌∷◌, ◌==◌, if◌then◌else◌, length}
use podtrace.Strings.{Bytes, codes, is_empty}
use podtrace.Float.{Float}
use podtrace.Runtime.{Runtime}
use podtrace.Runtime.Order.{more}
use podtrace.Counts.{Eq, nat_keys, Entry, Counts, increment}
use podtrace.Event.{Event}
use podtrace.ProcName.{ProcFs, Cache, or_else, get_process_name}

pub record PidInfo (F : Type 0) : Type 0 where
  pub pid : ℕ
  pub name : Bytes
  pub count : ℕ
  pub percentage : F

-- `pidMap[e.PID]++` for every event
unfoldable pub pid_loop : List Event → Counts ℕ → Counts ℕ
pid_loop [] m = m
pid_loop (e ∷ es) m = pid_loop es (increment e.pid m)

-- The first name that an event of the process carries.
unfoldable pub first_name : ℕ → List Event → Bytes
first_name pid [] = []
first_name pid (e ∷ es) =
    let rest = first_name pid es in if e.pid == pid then or_else e.process_name rest else rest

-- The name of a process: from its events, else from `/proc` or the cache, else "unknown".
unfoldable pub resolve_name : ProcFs → List Event → Cache → ℕ → Bytes × Cache
resolve_name fs events c pid = elim (first_name pid events) [
  | [] ↦ let (name, c') = get_process_name fs c pid in (or_else name (codes "unknown"), c')
  | ◌∷◌ b name ↦ (b ∷ name, c)
]

module _ {F : Type 0} ⦃f : Float F⦄ where
  open f use {of_nat, mul, div}

  -- The loop over the entries of `pidMap`; the cache goes from one round to the next.
  unfoldable pub build_infos :
      ProcFs → List Event → List (Entry ℕ) → Cache → List (PidInfo F) × Cache
  build_infos fs events [] c = ([], c)
  build_infos fs events (j ∷ js) c =
      let (name, c') = resolve_name fs events c j.key in
      let (infos, c'') = build_infos fs events js c' in
      (
        record {
          pid = j.key;
          name = name;
          count = j.count;
          percentage = mul (div (of_nat j.count) (of_nat (length events))) (of_nat 100);
        }
            ∷ infos,
        c'',
      )

  unfoldable pub analyze_process_activity :
      Runtime F → ProcFs → List Event → Cache → List (PidInfo F) × Cache
  analyze_process_activity r fs events c =
      let (infos, c') = build_infos fs events (r.iterate (Entry ℕ) (pid_loop events [])) c in
      (r.sort_slice (PidInfo F) (more (λ i. i.count)) infos, c')
