-- ===== src/Diagnose/Filter.antt =====
-- The choice of events by their type.
use podtrace.Prelude.{
  ℕ, ◌+◌, ◌<◌, ◌≡◌, refl, List, [], ◌∷◌, ◌++◌, ◌==◌, if◌then◌else◌, length, All, arith, Bool-cases,
  inl, inr,
}
use podtrace.Event.{Event}
use podtrace.Event.Kind
use podtrace.Event.Kind.{EventType}
use podtrace.Diagnose.{filter_events}

-- Only events of the type are chosen.
filter_events-All :
    (kind : EventType) (es : List Event) → All (λ e. e.type ≡ kind) (filter_events kind es)
unfolding filter_events
filter_events-All kind [] = tt
filter_events-All kind (e ∷ es) = ground (arith, filter_events-All kind es)

-- Events that come later are chosen later.
pub filter_events-append :
    (kind : EventType) (es fs : List Event)
    → filter_events kind (es ++ fs) ≡ filter_events kind es ++ filter_events kind fs
unfolding filter_events
filter_events-append kind [] fs = refl
filter_events-append kind (e ∷ es) fs = elim (Bool-cases (e.type == kind)) [
  | inl q ↦ rw (q, filter_events-append kind es fs)
  | inr q ↦ rw (q, filter_events-append kind es fs)
]

-- The number of events of a type.
abbrev pub chosen : List Event → EventType → ℕ
chosen es kind = length (filter_events kind es)

one_kind :
    (e : Event) (es : List Event) (kind : EventType)
    → chosen (e ∷ es) kind ≡ (if e.type == kind then 1 else 0) + chosen es kind
unfolding filter_events
one_kind e es kind = ground arith

abbrev one_if : EventType → EventType → ℕ
one_if a b = if a == b then 1 else 0

one_of_eight :
    (t : EventType)
    → t < 8
    → one_if t 0
        + one_if t 1
        + one_if t 2
        + one_if t 3
        + one_if t 4
        + one_if t 5
        + one_if t 6
        + one_if t 7
      ≡ 1
one_of_eight t h = ground arith

-- If every event has one of the eight types, the eight choices of filterEvents share out all
-- events.
pub filter_events_partition :
    (es : List Event)
    → All (λ e. e.type < 8) es
    → chosen es Kind.dns
        + chosen es Kind.connect
        + chosen es Kind.tcp_send
        + chosen es Kind.tcp_recv
        + chosen es Kind.write
        + chosen es Kind.read
        + chosen es Kind.fsync
        + chosen es Kind.sched_switch
      ≡ length es
unfolding filter_events
filter_events_partition [] h = refl
filter_events_partition (e ∷ es) h = omega (
  arith,
  one_kind e es 0,
  one_kind e es 1,
  one_kind e es 2,
  one_kind e es 3,
  one_kind e es 4,
  one_kind e es 5,
  one_kind e es 6,
  one_kind e es 7,
  one_of_eight e.type h.0,
  filter_events_partition es h.1,
)
