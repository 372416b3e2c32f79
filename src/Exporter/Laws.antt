-- ===== src/Exporter/Laws.antt =====
-- What is exported, and under which labels.
use podtrace.Prelude.{
  ◌≡◌, refl, Bool, true, false, ◌&&◌, not, Option, none, some, List, [], ◌∷◌, ◌==◌, ltb,
  if◌then◌else◌, All, All-append, count_if, count_if-append, arith,
}
use podtrace.Strings.{Bytes, codes}
use podtrace.Float.{Float}
use podtrace.Event.{Event, type_string}
use podtrace.Event.Kind
use podtrace.Exporter.{
  Metric, rtt, latency, dns, fs, cpu, Call, observe, set, handle_event, handle_events,
  export_rtt_metric, export_tcp_metric, export_dns_metric, export_file_system_metric,
  export_sched_switch_metric,
}

-- An event that is there and is of one of the eight types but `EventRead`.
abbrev pub is_exported : Option Event → Bool
is_exported none = false
is_exported (some e) = ltb e.type 8 && not (e.type == Kind.read)

abbrev pub is_observe : {F : Type 0} → Call F → Bool
is_observe (observe m t n x) = true
is_observe (set m t n x) = false

-- The value of the label "type" that belongs to a metric.
abbrev pub label_of : Metric → Bytes
label_of rtt = codes "NET"
label_of latency = codes "NET"
label_of dns = codes "DNS"
label_of fs = codes "FS"
label_of cpu = codes "CPU"

abbrev pub IsLabelled : {F : Type 0} → Call F → Type 0
IsLabelled (observe m t n x) = t ≡ label_of m
IsLabelled (set m t n x) = t ≡ label_of m

module _ (F : Type 0) ⦃f : Float F⦄ where
  one_each :
      (e : Event)
      → (count_if is_observe (handle_event {F = F} e) ≡ (if is_exported (some e) then 1 else 0))
        × (count_if (λ c. not (is_observe c)) (handle_event {F = F} e)
            ≡ (if is_exported (some e) then 1 else 0))
  unfolding handle_event export_rtt_metric export_tcp_metric export_dns_metric
      export_file_system_metric export_sched_switch_metric
  one_each e = ground arith

  -- HandleEvents makes one observation and sets one gauge for each exported event, and neither for
  -- any other: nil events, reads and unknown types.
  pub handle_events_counts :
      (es : List (Option Event))
      → (count_if is_observe (handle_events {F = F} es) ≡ count_if is_exported es)
        × (count_if (λ c. not (is_observe c)) (handle_events {F = F} es) ≡ count_if is_exported es)
  unfolding handle_events
  handle_events_counts [] = (refl, refl)
  handle_events_counts (none ∷ es) = omega (arith, handle_events_counts es)
  handle_events_counts (some e ∷ es) = ground (
    arith,
    one_each e,
    count_if-append is_observe (handle_event {F = F} e) (handle_events es),
    count_if-append (λ c. not (is_observe c)) (handle_event {F = F} e) (handle_events es),
    handle_events_counts es,
  )

  event-IsLabelled : (e : Event) → All IsLabelled (handle_event {F = F} e)
  unfolding handle_event type_string export_rtt_metric export_tcp_metric export_dns_metric
      export_file_system_metric export_sched_switch_metric
  event-IsLabelled e = ground arith

  -- Every call of HandleEvents carries the type label that belongs to its metric.
  pub handle_events-IsLabelled :
      (es : List (Option Event)) → All IsLabelled (handle_events {F = F} es)
  unfolding handle_events
  handle_events-IsLabelled [] = tt
  handle_events-IsLabelled (none ∷ es) = handle_events-IsLabelled es
  handle_events-IsLabelled (some e ∷ es) =
      All-append IsLabelled (handle_event {F = F} e) (handle_events es) (event-IsLabelled e)
        (handle_events-IsLabelled es)
