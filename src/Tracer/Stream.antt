-- ===== src/Tracer/Stream.antt =====
-- Which events the tracer sends.
use podtrace.Prelude.{
  ◌≡◌, refl, ◌∙◌, ap, true, Option, none, some, List, [], ◌∷◌, ◌++◌, All, if◌then◌else◌,
  Option-cases, Bool-cases, inl, inr,
}
use podtrace.Strings.{Bytes}
use podtrace.Event.{Event}
use podtrace.Wire.{parse_event}
use podtrace.Cgroup.{is_pid_in_cgroup}
use podtrace.ProcName.{Cache}
use podtrace.Tracer.{Proc, Read, closed, failed, sample, Sent, send_if, name_and_filter, start_loop}

-- The event without the name that user space gives it.
abbrev pub nameless : Event → Event
nameless e = record e { process_name = [] }

abbrev pub all_nameless : List Event → List Event
all_nameless [] = []
all_nameless (e ∷ es) = nameless e ∷ all_nameless es

-- The events of the records before the end of the buffer which parse and whose process is in the
-- cgroup.
abbrev pub wanted_of : Bytes → Proc → Option Event → List Event → List Event
wanted_of cgroup_path proc none rest = rest
wanted_of cgroup_path proc (some e) rest =
    if is_pid_in_cgroup cgroup_path proc.cgroup e.pid then nameless e ∷ rest else rest

abbrev pub wanted : Bytes → List Read → List Event
wanted cgroup_path [] = []
wanted cgroup_path (closed ∷ rs) = []
wanted cgroup_path (failed ∷ rs) = wanted cgroup_path rs
wanted cgroup_path (sample proc raw ∷ rs) =
    wanted_of cgroup_path proc (parse_event raw) (wanted cgroup_path rs)

-- What is sent for a record that parsed.
name_and_filter-wanted :
    (cgroup_path : Bytes) (c : Cache) (proc : Proc) (e : Event) (s : Sent)
    → all_nameless (send_if (name_and_filter cgroup_path c proc e).0 s).events
      ≡ wanted_of cgroup_path proc (some e) (all_nameless s.events)
unfolding name_and_filter
name_and_filter-wanted cgroup_path c proc e s =
    elim (Bool-cases (is_pid_in_cgroup cgroup_path proc.cgroup e.pid)) [
      | inl t ↦ rw t
      | inr t ↦ rw t
    ]

-- Whatever the cache of names holds, the tracer sends, in the order of the records, exactly the
-- events of the records before the end of the buffer that parse and whose process is in the cgroup,
-- up to the process name.
pub start_loop-wanted :
    (cgroup_path : Bytes) (c : Cache) (rs : List Read)
    → all_nameless (start_loop cgroup_path c rs).events ≡ wanted cgroup_path rs
unfolding start_loop
start_loop-wanted cgroup_path c [] = refl
start_loop-wanted cgroup_path c (closed ∷ rs) = refl
start_loop-wanted cgroup_path c (failed ∷ rs) = start_loop-wanted cgroup_path c rs
start_loop-wanted cgroup_path c (sample proc raw ∷ rs) = elim (Option-cases (parse_event raw)) [
  | inl n ↦ rw (n, start_loop) (start_loop-wanted cgroup_path c rs)
  | inr (e, p) ↦
      let sent = name_and_filter cgroup_path c proc e in
      let s = start_loop cgroup_path sent.1 rs in
      rw (p, start_loop)
        (name_and_filter-wanted cgroup_path c proc e s
          ∙ ap (wanted_of cgroup_path proc (some e)) (start_loop-wanted cgroup_path sent.1 rs))
]

send_if-returned :
    (sent : Option Event) (s : Sent) → s.returned ≡ true → (send_if sent s).returned ≡ true
send_if-returned none s h = h
send_if-returned (some e) s h = h

abbrev pub IsOpen : Read → Type 0
IsOpen closed = ⊥
IsOpen failed = Unit {0}
IsOpen (sample proc raw) = Unit {0}

-- The tracer's loop returns at the first error that says closed, and what would be read later makes
-- no difference.
pub start_loop-closed :
    (cgroup_path : Bytes) (c : Cache) (before after : List Read)
    → All IsOpen before
    → ((start_loop cgroup_path c (before ++ closed ∷ after)).returned ≡ true)
      × (start_loop cgroup_path c (before ++ closed ∷ after)
          ≡ start_loop cgroup_path c (before ++ closed ∷ []))
unfolding start_loop
start_loop-closed cgroup_path c [] after h = (refl, refl)
start_loop-closed cgroup_path c (closed ∷ before) after h = absurd h.0
start_loop-closed cgroup_path c (failed ∷ before) after h =
    start_loop-closed cgroup_path c before after h.1
start_loop-closed cgroup_path c (sample proc raw ∷ before) after h =
    elim (Option-cases (parse_event raw)) [
      | inl n ↦ rw (n, start_loop) (start_loop-closed cgroup_path c before after h.1)
      | inr (e, p) ↦
          let sent = name_and_filter cgroup_path c proc e in
          let rest = start_loop-closed cgroup_path sent.1 before after h.1 in
          rw (p, start_loop) (send_if-returned sent.0 _ rest.0, ap (send_if sent.0) rest.1)
    ]
