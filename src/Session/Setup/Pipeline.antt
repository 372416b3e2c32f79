-- ===== src/Session/Setup/Pipeline.antt =====
-- From the records of the kernel to the report: the tracer, the channel and the diagnose mode
-- together.
use podtrace.Prelude.{
  ℕ, ◌≡◌, ◌≢◌, refl, ◌∙◌, ap, sym, subst, none, some, List, [], ◌∷◌, ◌++◌, append-nil, All, arith,
  Bool-cases, Option-cases, inl, inr,
}
use podtrace.Strings.{is_empty}
use podtrace.Event.{Event}
use podtrace.Diagnose.{Diagnostician, new_diagnostician}
use podtrace.ProcName.{Cache}
use podtrace.Tracer.{Read, start_loop}
use podtrace.Tracer.Stream.{nameless, all_nameless, wanted, start_loop-wanted}
use podtrace.Tracer.Attach.{new_tracer}
use podtrace.Kubernetes.{PodInfo, resolved, resolve_pod}
use podtrace.Kubernetes.Config.{resolver, new_pod_resolver}
use podtrace.Session.{Input, Run, run_diagnose_mode}
use podtrace.Session.Modes.{
  GoesOn, EndsDiagnose, events_of, reports, collected, time_of, run_diagnose_mode_lem,
}
use podtrace.Session.Channel.{Traffic, Reach}
use podtrace.Session.Order.{Merge, none_left, to_left, to_right, Reach-IsOrdered}
use podtrace.Session.Setup.{World, run_mode, trace_pod, run_podtrace}

Merge-nameless :
    {xs ys zs : List Event}
    → Merge xs ys zs
    → Merge (all_nameless xs) (all_nameless ys) (all_nameless zs)
Merge-nameless none_left = none_left
Merge-nameless (to_left e m) = to_left (nameless e) (Merge-nameless m)
Merge-nameless (to_right e m) = to_right (nameless e) (Merge-nameless m)

-- The program gets as far as its mode: the pod is resolved and the tracer is there.
pub record IsTracing (w : World) (info : PodInfo) : Type 0 where
  pub clientset : ℕ
  pub connected : new_pod_resolver w.library w.environment ≡ resolver clientset
  pub found : resolve_pod (w.get_pod clientset) w.files w.pod_name w.namespace ≡ resolved info
  pub traced : (new_tracer w.kernel w.iterate).1 ≢ none

run_podtrace-mode :
    (w : World) (info : PodInfo) (now : ℕ) (is : List Input)
    → IsTracing w info
    → ((run_podtrace w now is).run ≡ run_mode w now is)
      × ((run_podtrace w now is).attached ≡ some info.cgroup_path)
unfolding run_podtrace trace_pod
run_podtrace-mode w info now is h = elim (Option-cases (new_tracer w.kernel w.iterate).1) [
  | inl n ↦ absurd (h.traced n)
  | inr (t, n) ↦ rw (h.connected, run_podtrace, h.found, n, trace_pod) (refl, refl)
]

in_diagnose_mode :
    (w : World) (now : ℕ) (is : List Input)
    → w.diagnose_duration ≢ []
    → run_mode w now is
      ≡ run_diagnose_mode w.parse_duration w.print_duration w.diagnose_duration now is
unfolding run_mode
in_diagnose_mode w now is asked = elim (Bool-cases (is_empty w.diagnose_duration)) [
  | inl e ↦ absurd (asked (ground arith))
  | inr e ↦ rw e
]

-- If the resolver and the tracer are set up, the diagnose duration is given and parses, the mode
-- gets its events in the order in which it takes them from a channel that has carried what the
-- tracer sends for some records and is empty, and a timeout or an interrupt ends it, then the
-- program makes exactly one report, and the exported events and those reported on are, up to the
-- process names, the events of the pod's records taken apart in order.
pub run_podtrace-wanted :
    (w : World) (info : PodInfo) (duration : ℕ) (reads : List Read) (c : Cache) (s : Traffic)
    (now : ℕ) (before : List Input) (last : Input) (after : List Input)
    → IsTracing w info
    → w.diagnose_duration ≢ []
    → w.parse_duration w.diagnose_duration ≡ some duration
    → Reach s
    → s.sent ≡ (start_loop info.cgroup_path c reads).events
    → s.queue ≡ []
    → All GoesOn before
    → EndsDiagnose last
    → events_of before ≡ s.diagnosed
    → (r : Run) × (d : Diagnostician) × ((run_podtrace w now (before ++ last ∷ after)).run ≡ some r)
      × (reports r.outputs ≡ d ∷ [])
      × Merge (all_nameless s.exported) (all_nameless d.events) (wanted info.cgroup_path reads)
unfolding run_mode new_diagnostician
run_podtrace-wanted w info duration reads c s now before last after h asked parsed reach sent empty
      goes_on ends arrived =
    let (mode, _) = run_podtrace-mode w info now (before ++ last ∷ after) h in
    let (r, q, reported, over) =
      run_diagnose_mode_lem w.parse_duration w.print_duration w.diagnose_duration duration now
        before last after parsed goes_on ends in
    let (received, m, whole) = Reach-IsOrdered reach in
    let all : received ≡ (start_loop info.cgroup_path c reads).events =
      sym (append-nil received) ∙ ap (λ l. received ++ l) (sym empty) ∙ sym whole ∙ sent in
    (
      r,
      collected (new_diagnostician now) before (time_of last),
      mode ∙ in_diagnose_mode w now (before ++ last ∷ after) asked ∙ q,
      reported,
      subst (Merge (all_nameless s.exported) (all_nameless (events_of before)))
          (ap all_nameless all ∙ start_loop-wanted info.cgroup_path c reads)
          (subst (λ es. Merge (all_nameless s.exported) (all_nameless es) (all_nameless received))
            (sym arrived) (Merge-nameless m)),
    )
