-- ===== src/Session/Setup/Exits.antt =====
-- How `runPodtrace` ends.
use podtrace.Prelude.{
  ℕ, ◌≡◌, refl, sym, subst, true, Option, none, some, List, ◌∷◌, ◌++◌, append-nil, All, Bool-cases,
  Option-cases, inl, inr,
}
use podtrace.Strings.{is_empty}
use podtrace.Tracer.Attach.{Tracer, new_tracer}
use podtrace.Tracer.Attach.Resources.{IsBalanced}
use podtrace.Tracer.Attach.Shutdown.{stop_of, new_tracer-IsBalanced}
use podtrace.Kubernetes.{
  PodInfo, Resolution, resolved, get_failed, no_containers, invalid_id, no_cgroup, panicked,
}
use podtrace.Kubernetes.Config.{Resolver, resolver, no_kubeconfig, no_clientset, new_pod_resolver}
use podtrace.Session.{Input, interrupt, Run, run_diagnose_mode}
use podtrace.Session.Modes.{GoesOn, run_normal_mode_lem, run_diagnose_mode_lem}
use podtrace.Session.Setup.{
  World, Outcome, run_mode, log_of_run, trace_pod, trace_resolved, with_resolver, run_podtrace,
}

-- A mode that was refused, or has returned.
abbrev pub IsOver : Option Run → Type 0
IsOver none = Unit {0}
IsOver (some r) = r.returned ≡ true

log_of_run-over : (t : Tracer) (run : Option Run) → IsOver run → log_of_run t run ≡ stop_of (some t)
log_of_run-over t none h = refl
log_of_run-over t (some r) h = rw h

-- Nothing stays open, and no mode is still waiting.
abbrev pub IsClean : Outcome → Type 0
IsClean o = IsBalanced o.log × IsOver o.run

-- What `NewTracer` leaves is balanced by its `Stop`.
after_tracer :
    (w : World) (t : Option Tracer)
    → (new_tracer w.kernel w.iterate).1 ≡ t
    → IsBalanced ((new_tracer w.kernel w.iterate).0 ++ stop_of t)
after_tracer w t e =
    subst (λ u. IsBalanced ((new_tracer w.kernel w.iterate).0 ++ stop_of u)) e
      (new_tracer-IsBalanced w.kernel w.iterate)

trace_pod-IsClean :
    (w : World) (info : PodInfo) (now : ℕ) (is : List Input)
    → IsOver (run_mode w now is)
    → IsClean (trace_pod w info now is)
unfolding trace_pod
trace_pod-IsClean w info now is over = elim (Option-cases (new_tracer w.kernel w.iterate).1) [
  | inl e ↦
      rw (e, trace_pod)
        (
          subst IsBalanced (append-nil (new_tracer w.kernel w.iterate).0) (after_tracer w none e),
          tt,
        )
  | inr (t, e) ↦
      rw (e, trace_pod)
        (
          subst (λ ops. IsBalanced ((new_tracer w.kernel w.iterate).0 ++ ops))
              (sym (log_of_run-over t (run_mode w now is) over)) (after_tracer w (some t) e),
          over,
        )
]

trace_resolved-IsClean :
    (w : World) (r : Resolution) (now : ℕ) (is : List Input)
    → IsOver (run_mode w now is)
    → IsClean (trace_resolved w r now is)
trace_resolved-IsClean w (resolved info) now is over = trace_pod-IsClean w info now is over
trace_resolved-IsClean w get_failed now is over = (λ p. refl, tt)
trace_resolved-IsClean w no_containers now is over = (λ p. refl, tt)
trace_resolved-IsClean w invalid_id now is over = (λ p. refl, tt)
trace_resolved-IsClean w no_cgroup now is over = (λ p. refl, tt)
trace_resolved-IsClean w panicked now is over = (λ p. refl, tt)

with_resolver-IsClean :
    (w : World) (r : Resolver) (now : ℕ) (is : List Input)
    → IsOver (run_mode w now is)
    → IsClean (with_resolver w r now is)
with_resolver-IsClean w (resolver clientset) now is over = trace_resolved-IsClean w _ now is over
with_resolver-IsClean w (no_kubeconfig path) now is over = (λ p. refl, tt)
with_resolver-IsClean w no_clientset now is over = (λ p. refl, tt)

-- The mode is over when the interrupt has come.
interrupted-IsOver :
    (w : World) (now : ℕ) (before : List Input) (later : ℕ) (after : List Input)
    → All GoesOn before
    → IsOver (run_mode w now (before ++ interrupt later ∷ after))
unfolding run_mode run_diagnose_mode
interrupted-IsOver w now before later after h = elim (Bool-cases (is_empty w.diagnose_duration)) [
  | inl e ↦
      let (earlier, last, over, ticks) = run_normal_mode_lem now before later after h in rw e over
  | inr e ↦ elim (Option-cases (w.parse_duration w.diagnose_duration)) [
    | inl n ↦ rw (e, run_diagnose_mode, n) tt
    | inr (duration, n) ↦
        let (r, q, last, over) =
          run_diagnose_mode_lem w.parse_duration w.print_duration w.diagnose_duration duration now
            before (interrupt later) after n h tt in
        rw e (subst IsOver (sym q) over)
  ]
]

-- Whatever fails in the set-up, and in either mode, the program is over when an interrupt comes as
-- the first input that ends a mode, and everything it opened is closed exactly once for each time
-- it was opened.
pub run_podtrace-IsClean :
    (w : World) (now : ℕ) (before : List Input) (later : ℕ) (after : List Input)
    → All GoesOn before
    → IsClean (run_podtrace w now (before ++ interrupt later ∷ after))
unfolding run_podtrace
run_podtrace-IsClean w now before later after h =
    with_resolver-IsClean w (new_pod_resolver w.library w.environment) now _
      (interrupted-IsOver w now before later after h)
