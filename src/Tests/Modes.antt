-- ===== src/Tests/Modes.antt =====
-- Runs of the two modes, of the channel and of the exporter.
use podtrace.Prelude.{
  ℕ, ◌≡◌, refl, true, Option, none, some, List, [], ◌∷◌, ◌++◌, length, All, count_if, arith,
}
use podtrace.Strings.{Bytes, codes}
use podtrace.Float.Fixed.{fixed_float}
use podtrace.Event.{Event, type_string}
use podtrace.Diagnose.{Diagnostician, new_diagnostician}
use podtrace.Session.{
  Input, event, tick, interrupt, timeout, Run, run_normal_mode, run_diagnose_mode,
}
use podtrace.Session.Modes.{
  reports, collected, is_tick, GoesOn, run_diagnose_mode_lem, run_normal_mode_lem,
}
use podtrace.Session.Channel.{Traffic, no_traffic, Step, Reach}
use podtrace.Exporter.{fs, handle_events}
use podtrace.Exporter.Series.{Series, observed, gauged, latencies_for, handle_events-series}
use podtrace.Tests.Data.{lookup, accepted, slow_write, blocked}

abbrev pub inputs : List Input
inputs = event lookup ∷ tick 5 ∷ event accepted ∷ tick 10 ∷ []

abbrev pub inputs_go_on : All GoesOn inputs
inputs_go_on = (tt, (tt, (tt, (tt, tt))))

-- A minute, whatever the text.
abbrev pub parse_minute : Bytes → Option ℕ
parse_minute s = some 60_000_000_000

run_diagnose_mode_lem_example :
    (r : Run) × (run_diagnose_mode parse_minute
        (λ d. codes "1m0s")
        (codes "1m")
        0
        (inputs ++ timeout 60 ∷ event slow_write ∷ [])
      ≡ some r)
    × (reports r.outputs ≡ collected (new_diagnostician 0) inputs 60 ∷ [])
    × (r.returned ≡ true)
run_diagnose_mode_lem_example =
    run_diagnose_mode_lem parse_minute (λ d. codes "1m0s") (codes "1m") 60_000_000_000 0 inputs
      (timeout 60) (event slow_write ∷ []) refl inputs_go_on tt

run_normal_mode_lem_example :
    (earlier : List Diagnostician) × (reports
        (run_normal_mode 0 (inputs ++ interrupt 12 ∷ [])).outputs
      ≡ earlier ++ collected (new_diagnostician 0) inputs 12 ∷ [])
    × ((run_normal_mode 0 (inputs ++ interrupt 12 ∷ [])).returned ≡ true)
    × (length earlier ≡ count_if is_tick inputs)
run_normal_mode_lem_example = run_normal_mode_lem 0 inputs 12 [] inputs_go_on

-- One event is sent, and the exporter takes it.
abbrev pub exported_one : Traffic
exported_one = record { sent = lookup ∷ []; queue = []; exported = lookup ∷ []; diagnosed = [] }

pub exported_one-Reach : Reach exported_one
exported_one-Reach =
    Reach.next (Reach.next Reach.start (Step.send no_traffic lookup (omega arith)))
      (Step.export (record no_traffic { sent = lookup ∷ []; queue = lookup ∷ [] }) lookup [] refl)

abbrev pub metered : List (Option Event)
metered = some lookup ∷ none ∷ some slow_write ∷ some blocked ∷ []

-- The writes of processes without a name.
abbrev writes : Series
writes = record { metric = fs; type = type_string slow_write; process_name = [] }

handle_events-series_example :
    (observed writes (handle_events metered) ≡ latencies_for {F = ℕ} writes metered)
    × (gauged writes (handle_events metered) ≡ latencies_for {F = ℕ} writes metered)
handle_events-series_example = handle_events-series ℕ writes metered
