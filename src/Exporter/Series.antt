-- ===== src/Exporter/Series.antt =====
-- What each time series is given: a metric with a type and a process name.
use podtrace.Prelude.{
  ℕ, ◌≡◌, refl, ◌∙◌, ap, Bool, false, ◌&&◌, Option, none, some, List, [], ◌∷◌, ◌++◌, ◌==◌,
  if◌then◌else◌, arith,
}
use podtrace.Strings.{Bytes, bytes_eq}
use podtrace.Float.{Float}
use podtrace.Event.{Event, type_string}
use podtrace.Event.Kind
use podtrace.Exporter.{
  Metric, rtt, latency, dns, fs, cpu, Call, observe, set, in_seconds, handle_event, handle_events,
  export_rtt_metric, export_tcp_metric, export_dns_metric, export_file_system_metric,
  export_sched_switch_metric,
}

abbrev pub number_of : Metric → ℕ
number_of rtt = 0
number_of latency = 1
number_of dns = 2
number_of fs = 3
number_of cpu = 4

-- The metric that an event type is exported under.
abbrev pub metric_of : Kind.EventType → Option Metric
metric_of t =
    if t == Kind.dns
    then some dns
    else if t == Kind.connect
    then some latency
    else if t == Kind.tcp_send
    then some rtt
    else if t == Kind.tcp_recv
    then some rtt
    else if t == Kind.write
    then some fs
    else if t == Kind.fsync
    then some fs
    else if t == Kind.sched_switch
    then some cpu
    else none

-- A series: its metric and its two labels.
pub record Series : Type 0 where
  pub metric : Metric
  pub type : Bytes
  pub process_name : Bytes

abbrev pub is_series : Series → Metric → Bytes → Bytes → Bool
is_series s m t p =
    number_of s.metric == number_of m && (bytes_eq s.type t && bytes_eq s.process_name p)

abbrev pub is_metric : Series → Option Metric → Event → Bool
is_metric s none e = false
is_metric s (some m) e = is_series s m (type_string e) e.process_name

-- An event belongs to the series of its type's metric with its labels.
abbrev pub belongs : Series → Event → Bool
belongs s e = is_metric s (metric_of e.type) e

module _ {F : Type 0} ⦃f : Float F⦄ where
  -- The latencies of the events that belong to a series, in order.
  abbrev pub latencies_for : Series → List (Option Event) → List F
  latencies_for s [] = []
  latencies_for s (none ∷ es) = latencies_for s es
  latencies_for s (some e ∷ es) =
      if belongs s e then in_seconds e ∷ latencies_for s es else latencies_for s es

module _ {F : Type 0} where
  -- The values that the calls observe in a series' histogram, and those they set its gauge to.
  abbrev pub observed : Series → List (Call F) → List F
  observed s [] = []
  observed s (observe m t p x ∷ cs) = if is_series s m t p then x ∷ observed s cs else observed s cs
  observed s (set m t p x ∷ cs) = observed s cs

  abbrev pub gauged : Series → List (Call F) → List F
  gauged s [] = []
  gauged s (observe m t p x ∷ cs) = gauged s cs
  gauged s (set m t p x ∷ cs) = if is_series s m t p then x ∷ gauged s cs else gauged s cs

module _ (F : Type 0) ⦃f : Float F⦄ where
  -- One event in front of other calls.
  one_event :
      (s : Series) (e : Event) (cs : List (Call F))
      → (observed s (handle_event e ++ cs)
          ≡ (if belongs s e then in_seconds e ∷ observed s cs else observed s cs))
        × (gauged s (handle_event e ++ cs)
            ≡ (if belongs s e then in_seconds e ∷ gauged s cs else gauged s cs))
  unfolding handle_event export_rtt_metric export_tcp_metric export_dns_metric
      export_file_system_metric export_sched_switch_metric
  one_event s e cs = ground arith

  -- The values that each time series is given, observed by its histogram and set on its gauge, are
  -- the latencies in seconds of the events whose type belongs to the metric and whose labels are
  -- those of the series, in their order: connects belong to the latency metric, TCP sends and
  -- receives to the RTT metric, lookups to the DNS metric, writes and fsyncs to the metric of the
  -- file system, and waits for a CPU to that of the CPU.
  pub handle_events-series :
      (s : Series) (es : List (Option Event))
      → (observed s (handle_events es) ≡ latencies_for {F = F} s es)
        × (gauged s (handle_events es) ≡ latencies_for {F = F} s es)
  unfolding handle_events
  handle_events-series s [] = (refl, refl)
  handle_events-series s (none ∷ es) = handle_events-series s es
  handle_events-series s (some e ∷ es) =
      let first = one_event s e (handle_events es) in
      let rest = handle_events-series s es in
      (
        first.0 ∙ ap (λ l. if belongs s e then in_seconds e ∷ l else l) rest.0,
        first.1 ∙ ap (λ l. if belongs s e then in_seconds e ∷ l else l) rest.1,
      )
