-- ===== src/Session/Modes.antt =====
-- What the modes report: all that came, in order, up to the input that ends them.
use podtrace.Prelude.{
  ℕ, ◌≡◌, refl, ap, ◌∙◌, Bool, true, false, Option, some, List, [], ◌∷◌, ◌++◌, append_assoc,
  append-nil, All, length, count_if, arith,
}
use podtrace.Strings.{Bytes, codes}
use podtrace.Event.{Event}
use podtrace.Diagnose.{Diagnostician, new_diagnostician, add_event, finish}
use podtrace.Session.{
  Input, event, tick, timeout, interrupt, Output, text, clear, report, Run, clear_if, normal_loop,
  run_normal_mode, diagnose_loop, run_diagnose_mode,
}

-- The events among the inputs.
abbrev pub events_of : List Input → List Event
events_of [] = []
events_of (event e ∷ is) = e ∷ events_of is
events_of (tick now ∷ is) = events_of is
events_of (timeout now ∷ is) = events_of is
events_of (interrupt now ∷ is) = events_of is

-- The collectors that are reported on.
abbrev pub reports : List Output → List Diagnostician
reports [] = []
reports (text t ∷ os) = reports os
reports (clear ∷ os) = reports os
reports (report d ∷ os) = d ∷ reports os

abbrev pub EndsDiagnose : Input → Type 0
EndsDiagnose (event e) = ⊥
EndsDiagnose (tick now) = ⊥
EndsDiagnose (timeout now) = Unit {0}
EndsDiagnose (interrupt now) = Unit {0}

abbrev pub GoesOn : Input → Type 0
GoesOn (event e) = Unit {0}
GoesOn (tick now) = Unit {0}
GoesOn (timeout now) = ⊥
GoesOn (interrupt now) = ⊥

-- The time that an input brings.
abbrev pub time_of : Input → ℕ
time_of (event e) = 0
time_of (tick now) = now
time_of (timeout now) = now
time_of (interrupt now) = now

-- The collector with what came in, at the end.
abbrev pub collected : Diagnostician → List Input → ℕ → Diagnostician
collected d is now = record {
  events = d.events ++ events_of is;
  start_time = d.start_time;
  end_time = now;
}

collected-cons :
    (d : Diagnostician) (e : Event) (is : List Input) (now : ℕ)
    → collected (add_event d e) is now ≡ collected d (event e ∷ is) now
unfolding add_event
collected-cons d e is now = λ i. record {
  events = append_assoc d.events (e ∷ []) (events_of is) i;
  start_time = d.start_time;
  end_time = now;
}

diagnose_loop_lem :
    (before : List Input) (last : Input) (after : List Input) (d : Diagnostician)
    → All GoesOn before
    → EndsDiagnose last
    → diagnose_loop (before ++ last ∷ after) d
      ≡ record { outputs = report (collected d before (time_of last)) ∷ []; returned = true }
unfolding diagnose_loop finish
diagnose_loop_lem [] (timeout now) after d h k = rw (append-nil d.events)
diagnose_loop_lem [] (interrupt now) after d h k = rw (append-nil d.events)
diagnose_loop_lem [] (event e) after d h k = absurd k
diagnose_loop_lem [] (tick now) after d h k = absurd k
diagnose_loop_lem (event e ∷ before) last after d h k =
    diagnose_loop_lem before last after (add_event d e) h.1 k
    ∙ ap (λ c. record { outputs = report c ∷ []; returned = true })
        (collected-cons d e before (time_of last))
diagnose_loop_lem (tick now ∷ before) last after d h k = diagnose_loop_lem before last after d h.1 k
diagnose_loop_lem (timeout now ∷ before) last after d h k = absurd h.0
diagnose_loop_lem (interrupt now ∷ before) last after d h k = absurd h.0

-- If the duration parses, the diagnose mode prints one report, on the events before the timeout or
-- the interrupt in their order, and returns; what comes later is not read.
pub run_diagnose_mode_lem :
    (parse_duration : Bytes → Option ℕ) (print_duration : ℕ → Bytes) (duration_str : Bytes)
    (duration now : ℕ) (before : List Input) (last : Input) (after : List Input)
    → parse_duration duration_str ≡ some duration
    → All GoesOn before
    → EndsDiagnose last
    → (r : Run) × (run_diagnose_mode parse_duration print_duration duration_str now
          (before ++ last ∷ after)
        ≡ some r)
      × (reports r.outputs ≡ collected (new_diagnostician now) before (time_of last) ∷ [])
      × (r.returned ≡ true)
unfolding run_diagnose_mode
run_diagnose_mode_lem parse_duration print_duration duration_str duration now before last after ok h
      k =
    let e = diagnose_loop_lem before last after (new_diagnostician now) h k in
    (
      record {
        outputs =
            text
              (codes "Running diagnose mode for " ++ (print_duration duration ++ codes "...\n\n"))
            ∷ report (collected (new_diagnostician now) before (time_of last))
            ∷ [];
        returned = true;
      },
      rw (ok, e, run_diagnose_mode),
      refl,
      refl,
    )

reports-append : (os ps : List Output) → reports (os ++ ps) ≡ reports os ++ reports ps
reports-append [] ps = refl
reports-append (text t ∷ os) ps = reports-append os ps
reports-append (clear ∷ os) ps = reports-append os ps
reports-append (report d ∷ os) ps = ap (◌∷◌ d) (reports-append os ps)

abbrev pub is_tick : Input → Bool
is_tick (tick now) = true
is_tick (event e) = false
is_tick (timeout now) = false
is_tick (interrupt now) = false

collected-finish :
    (d : Diagnostician) (t : ℕ) (is : List Input) (now : ℕ)
    → collected (finish d t) is now ≡ collected d is now
unfolding finish
collected-finish d t is now = refl

after_tick :
    (printed : Bool) (d : Diagnostician) (os : List Output)
    → reports (
        (clear_if printed
          ++ (text (codes "=== Real-time Diagnostic Report (updating every 5s) ===")
              ∷ text (codes "Press Ctrl+C to stop and see final report.")
              ∷ text []
              ∷ report d
              ∷ []))
        ++ os)
      ≡ d ∷ reports os
after_tick true d os = refl
after_tick false d os = refl

normal_loop_lem :
    (before : List Input) (now : ℕ) (after : List Input) (printed : Bool) (d : Diagnostician)
    → All GoesOn before
    → (earlier : List Diagnostician) × (reports
          (normal_loop (before ++ interrupt now ∷ after) printed d).outputs
        ≡ earlier ++ collected d before now ∷ [])
      × ((normal_loop (before ++ interrupt now ∷ after) printed d).returned ≡ true)
      × (length earlier ≡ count_if is_tick before)
unfolding normal_loop
normal_loop_lem [] now after true d h = ([], unfold finish in rw (append-nil d.events), refl, refl)
normal_loop_lem [] now after false d h = ([], unfold finish in rw (append-nil d.events), refl, refl)
normal_loop_lem (event e ∷ before) now after printed d h =
    let (earlier, q, done, n) = normal_loop_lem before now after printed (add_event d e) h.1 in
    (earlier, q ∙ ap (λ c. earlier ++ c ∷ []) (collected-cons d e before now), done, omega arith)
normal_loop_lem (tick t ∷ before) now after printed d h =
    let (earlier, q, done, n) = normal_loop_lem before now after true (finish d t) h.1 in
    (
      finish d t ∷ earlier,
      after_tick printed (finish d t)
            (normal_loop (before ++ interrupt now ∷ after) true (finish d t)).outputs
          ∙ ap (◌∷◌ (finish d t))
              (q ∙ ap (λ c. earlier ++ c ∷ []) (collected-finish d t before now)),
      done,
      omega arith,
    )
normal_loop_lem (timeout t ∷ before) now after printed d h = absurd h.0
normal_loop_lem (interrupt t ∷ before) now after printed d h = absurd h.0

-- The normal mode returns at an interrupt after one report for each tick; the last report is on all
-- events before the interrupt in their order.
pub run_normal_mode_lem :
    (start : ℕ) (before : List Input) (now : ℕ) (after : List Input)
    → All GoesOn before
    → (earlier : List Diagnostician) × (reports
          (run_normal_mode start (before ++ interrupt now ∷ after)).outputs
        ≡ earlier ++ collected (new_diagnostician start) before now ∷ [])
      × ((run_normal_mode start (before ++ interrupt now ∷ after)).returned ≡ true)
      × (length earlier ≡ count_if is_tick before)
unfolding run_normal_mode
run_normal_mode_lem start before now after h =
    normal_loop_lem before now after false (new_diagnostician start) h
