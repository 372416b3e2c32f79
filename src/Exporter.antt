-- ===== src/Exporter.antt =====
-- internal/metricsexporter/promexporter.go: which calls of the Prometheus library each event makes.
pub mod Laws
pub mod Series
use podtrace.Prelude.{
  ℕ, Bool, true, false, ◌||◌, Option, none, some, List, [], ◌∷◌, ◌++◌, ◌==◌, if◌then◌else◌,
}
use podtrace.Strings.{Bytes}
use podtrace.Float.{Float}
use podtrace.Event.{Event, type_string}
use podtrace.Event.Kind

-- The pairs of a histogram and a gauge.
pub data Metric : Type 0 where
  rtt latency dns fs cpu : Metric

-- `vec.WithLabelValues(type, process_name).Observe(x)` of a histogram, and `.Set(x)` of a gauge.
pub data Call (F : Type 0) : Type 0 where
  observe : Metric → Bytes → Bytes → F → Call F
  set : Metric → Bytes → Bytes → F → Call F

module _ {F : Type 0} ⦃f : Float F⦄ where
  open f use {of_nat, div}

  -- `float64(e.LatencyNS) / 1e9`
  abbrev pub in_seconds : Event → F
  in_seconds e = div (of_nat e.latency_ns) (of_nat 1_000_000_000)

  abbrev observe_then_set : Metric → Event → List (Call F)
  observe_then_set m e =
      observe m (type_string e) e.process_name (in_seconds e)
      ∷ set m (type_string e) e.process_name (in_seconds e)
      ∷ []

  abbrev set_then_observe : Metric → Event → List (Call F)
  set_then_observe m e =
      set m (type_string e) e.process_name (in_seconds e)
      ∷ observe m (type_string e) e.process_name (in_seconds e)
      ∷ []

  unfoldable pub export_rtt_metric : Event → List (Call F)
  export_rtt_metric = observe_then_set rtt

  unfoldable pub export_tcp_metric : Event → List (Call F)
  export_tcp_metric = observe_then_set latency

  unfoldable pub export_dns_metric : Event → List (Call F)
  export_dns_metric = set_then_observe dns

  unfoldable pub export_file_system_metric : Event → List (Call F)
  export_file_system_metric = set_then_observe fs

  unfoldable pub export_sched_switch_metric : Event → List (Call F)
  export_sched_switch_metric = set_then_observe cpu

  -- The `switch` of `HandleEvents`.
  unfoldable pub handle_event : Event → List (Call F)
  handle_event e =
      if e.type == Kind.connect
      then export_tcp_metric e
      else if e.type == Kind.tcp_send
      then export_rtt_metric e
      else if e.type == Kind.tcp_recv
      then export_rtt_metric e
      else if e.type == Kind.dns
      then export_dns_metric e
      else if e.type == Kind.write
      then export_file_system_metric e
      else if e.type == Kind.fsync
      then export_file_system_metric e
      else if e.type == Kind.sched_switch
      then export_sched_switch_metric e
      else []

  -- The loop over the channel; `none` is a nil event.
  unfoldable pub handle_events : List (Option Event) → List (Call F)
  handle_events [] = []
  handle_events (none ∷ es) = handle_events es
  handle_events (some e ∷ es) = handle_event e ++ handle_events es
