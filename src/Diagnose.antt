-- ===== src/Diagnose.antt =====
-- The collector of internal/diagnose/diagnose.go: its state, and the choice of the events of a type.
-- Times are nanoseconds since 1970; both of the collector's are readings of the clock.
pub mod Filter
pub mod Latency
pub mod Analyze
pub mod Activity
pub mod Window
pub mod CpuUsage
pub mod Report
use podtrace.Prelude.{ℕ, ◌-◌, List, [], ◌∷◌, ◌++◌, ◌==◌, if◌then◌else◌}
use podtrace.Event.{Event}
use podtrace.Event.Kind.{EventType}

pub record Diagnostician : Type 0 where
  pub events : List Event
  pub start_time : ℕ
  pub end_time : ℕ

-- The argument is `time.Now()`; the end is not set yet.
unfoldable pub new_diagnostician : ℕ → Diagnostician
new_diagnostician now = record { events = []; start_time = now; end_time = 0 }

unfoldable pub add_event : Diagnostician → Event → Diagnostician
add_event d event = record d { events = d.events ++ event ∷ [] }

unfoldable pub finish : Diagnostician → ℕ → Diagnostician
finish d now = record d { end_time = now }

-- The loop of `filterEvents` over the events of the collector.
unfoldable pub filter_events : EventType → List Event → List Event
filter_events kind [] = []
filter_events kind (e ∷ es) =
    let rest = filter_events kind es in if e.type == kind then e ∷ rest else rest
