-- ===== src/Session.antt =====
-- cmd/podtrace/main.go: the loops of the two modes, and the channel that feeds them.
pub mod Modes
pub mod Channel
pub mod Order
pub mod Setup
pub mod Signals
use podtrace.Prelude.{ℕ, Bool, true, false, Option, none, some, List, [], ◌∷◌, ◌++◌, if◌then◌else◌}
use podtrace.Strings.{Bytes, codes}
use podtrace.Event.{Event}
use podtrace.Diagnose.{Diagnostician, new_diagnostician, add_event, finish}

-- What a `select` receives; each but an event comes with the reading of `time.Now()` in `Finish`.
pub data Input : Type 0 where
  event : Event → Input
  tick : ℕ → Input
  timeout : ℕ → Input
  interrupt : ℕ → Input

-- What is printed: a fixed text, the sequence that clears the screen, or a report on a collector.
pub data Output : Type 0 where
  text : Bytes → Output
  clear : Output
  report : Diagnostician → Output

-- What a mode does with its inputs: it prints, and returns or waits for more.
pub record Run : Type 0 where
  pub outputs : List Output
  pub returned : Bool

abbrev pub printing : List Output → Run → Run
printing os r = record r { outputs = os ++ r.outputs }

abbrev pub clear_if : Bool → List Output
clear_if printed = if printed then clear ∷ [] else []

-- The loop of `runNormalMode`, with `hasPrintedReport` and the collector. It has no timeout.
unfoldable pub normal_loop : List Input → Bool → Diagnostician → Run
normal_loop [] printed d = record { outputs = []; returned = false }
normal_loop (event e ∷ is) printed d = normal_loop is printed (add_event d e)
normal_loop (tick now ∷ is) printed d =
    printing
      (clear_if printed
        ++ (text (codes "=== Real-time Diagnostic Report (updating every 5s) ===")
            ∷ text (codes "Press Ctrl+C to stop and see final report.")
            ∷ text []
            ∷ report (finish d now)
            ∷ []))
      (normal_loop is true (finish d now))
normal_loop (timeout now ∷ is) printed d = normal_loop is printed d
normal_loop (interrupt now ∷ is) printed d = record {
  outputs =
      clear_if printed
      ++ (text (codes "=== Final Diagnostic Report ===") ∷ text [] ∷ report (finish d now) ∷ []);
  returned = true;
}

unfoldable pub run_normal_mode : ℕ → List Input → Run
run_normal_mode now is =
    printing
      (text (codes "Tracing started. Press Ctrl+C to stop.")
        ∷ text (codes "Real-time diagnostic updates every 5 seconds...")
        ∷ text []
        ∷ [])
      (normal_loop is false (new_diagnostician now))

-- The loop of `runDiagnoseMode`. It has no ticker.
unfoldable pub diagnose_loop : List Input → Diagnostician → Run
diagnose_loop [] d = record { outputs = []; returned = false }
diagnose_loop (event e ∷ is) d = diagnose_loop is (add_event d e)
diagnose_loop (tick now ∷ is) d = diagnose_loop is d
diagnose_loop (timeout now ∷ is) d = record {
  outputs = report (finish d now) ∷ [];
  returned = true;
}
diagnose_loop (interrupt now ∷ is) d = record {
  outputs = report (finish d now) ∷ [];
  returned = true;
}

-- `none` is the error of a duration that cannot be read; `parse_duration` is `time.ParseDuration`,
-- and `print_duration` writes one for "%v".
unfoldable pub run_diagnose_mode :
    (Bytes → Option ℕ) → (ℕ → Bytes) → Bytes → ℕ → List Input → Option Run
run_diagnose_mode parse_duration print_duration duration_str now is =
    elim (parse_duration duration_str) [
      | none ↦ none
      | some duration ↦ some (
          printing
            (text
                (codes "Running diagnose mode for " ++ (print_duration duration ++ codes "...\n\n"))
              ∷ [])
            (diagnose_loop is (new_diagnostician now)))
    ]
