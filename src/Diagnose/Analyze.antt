-- ===== src/Diagnose/Analyze.antt =====
-- The analyses of internal/diagnose/diagnose.go, one for each group of event types. Each loops over
-- its events, with the variables of the loop as a record, and ends in `summarize`.
pub mod Loops
pub mod Correct
pub mod Top
use podtrace.Prelude.{
  ℕ, ◌+◌, Bool, true, false, ◌&&◌, not, Option, none, some, List, [], ◌∷◌, if◌then◌else◌, length,
}
use podtrace.Prelude.Int.{ℤ, pos, negsuc}
use podtrace.Strings.{Bytes, codes, is_empty, bytes_eq}
use podtrace.Float.{Float, millis}
use podtrace.Runtime.{Runtime}
use podtrace.Runtime.Order.{more}
use podtrace.Counts.{Eq, bytes_keys, int_keys, Entry, Counts, increment}
use podtrace.Event.{Event, is_error, is_tcp_error}
use podtrace.Diagnose.Latency.{Timing, Latency, no_timing, observe, summarize, ◌>>=◌}

-- `e.Target != "" && e.Target != "?"`
abbrev pub is_lookup_target : Bytes → Bool
is_lookup_target t = not (is_empty t) && not (bytes_eq t (codes "?"))

-- The same, and neither `"unknown"` nor `"file"`.
abbrev pub is_named_target : Bytes → Bool
is_named_target t =
    is_lookup_target t && (not (bytes_eq t (codes "unknown")) && not (bytes_eq t (codes "file")))

pub record DnsLoop (F : Type 0) : Type 0 where
  pub timing : Timing F
  pub errors : ℕ
  pub targets : Counts Bytes

pub record DnsStats (F : Type 0) : Type 0 where
  pub latency : Latency F
  pub errors : ℕ
  pub top_targets : List (Entry Bytes)

pub record TcpLoop (F : Type 0) : Type 0 where
  pub timing : Timing F
  pub spikes : ℕ
  pub errors : ℕ

pub record TcpStats (F : Type 0) : Type 0 where
  pub latency : Latency F
  pub spikes : ℕ
  pub errors : ℕ

pub record ConnectLoop (F : Type 0) : Type 0 where
  pub timing : Timing F
  pub errors : ℕ
  pub targets : Counts Bytes
  pub breakdown : Counts ℤ

pub record ConnectStats (F : Type 0) : Type 0 where
  pub latency : Latency F
  pub errors : ℕ
  pub top_targets : List (Entry Bytes)
  pub breakdown : Counts ℤ

pub record FsLoop (F : Type 0) : Type 0 where
  pub timing : Timing F
  pub slow_ops : ℕ

pub record FsStats (F : Type 0) : Type 0 where
  pub latency : Latency F
  pub slow_ops : ℕ

module _ (F : Type 0) ⦃f : Float F⦄ where
  open f use {of_nat, lt}

  -- `float64(e.LatencyNS) / 1e6 > ms`
  abbrev pub is_above : ℕ → Event → Bool
  is_above ms e = let x : F = millis e.latency_ns in lt (of_nat ms) x

module _ {F : Type 0} ⦃f : Float F⦄ where
  unfoldable pub dns_loop : List Event → DnsLoop F → DnsLoop F
  dns_loop [] s = s
  dns_loop (e ∷ es) s = dns_loop es (record {
    timing = observe s.timing e.latency_ns;
    errors = if is_error e.error then s.errors + 1 else s.errors;
    targets = if is_lookup_target e.target then increment e.target s.targets else s.targets;
  })

  unfoldable pub tcp_loop : List Event → TcpLoop F → TcpLoop F
  tcp_loop [] s = s
  tcp_loop (e ∷ es) s = tcp_loop es (record {
    timing = observe s.timing e.latency_ns;
    spikes = if is_above F 100 e then s.spikes + 1 else s.spikes;
    errors = if is_tcp_error e.error then s.errors + 1 else s.errors;
  })

  unfoldable pub connect_loop : List Event → ConnectLoop F → ConnectLoop F
  connect_loop [] s = s
  connect_loop (e ∷ es) s = connect_loop es (record {
    timing = observe s.timing e.latency_ns;
    errors = if is_error e.error then s.errors + 1 else s.errors;
    targets = if is_named_target e.target then increment e.target s.targets else s.targets;
    breakdown = if is_error e.error then increment e.error s.breakdown else s.breakdown;
  })

  unfoldable pub fs_loop : List Event → FsLoop F → FsLoop F
  fs_loop [] s = s
  fs_loop (e ∷ es) s = fs_loop es (record {
    timing = observe s.timing e.latency_ns;
    slow_ops = if is_above F 10 e then s.slow_ops + 1 else s.slow_ops;
  })

  unfoldable pub cpu_loop : List Event → Timing F → Timing F
  cpu_loop [] t = t
  cpu_loop (e ∷ es) t = cpu_loop es (observe t e.latency_ns)

  module _ (r : Runtime F) where
    -- The entries of a map, in the order of a `range`, sorted by their counts.
    unfoldable pub top_entries : (K : Type 0) → Counts K → List (Entry K)
    top_entries K m = r.sort_slice (Entry K) (more (λ j. j.count)) (r.iterate (Entry K) m)

    unfoldable pub analyze_dns : List Event → Option (DnsStats F)
    analyze_dns events =
        let s : DnsLoop F =
          dns_loop events (record { timing = no_timing; errors = 0; targets = [] }) in
        do
          latency ← summarize r s.timing (length events)
          some (record {
            latency = latency;
            errors = s.errors;
            top_targets = top_entries Bytes s.targets;
          })

    unfoldable pub analyze_tcp : List Event → Option (TcpStats F)
    analyze_tcp events =
        let s : TcpLoop F =
          tcp_loop events (record { timing = no_timing; spikes = 0; errors = 0 }) in
        do
          latency ← summarize r s.timing (length events)
          some (record { latency = latency; spikes = s.spikes; errors = s.errors })

    unfoldable pub analyze_connections : List Event → Option (ConnectStats F)
    analyze_connections events =
        let s : ConnectLoop F =
          connect_loop events
            (record { timing = no_timing; errors = 0; targets = []; breakdown = [] }) in
        do
          latency ← summarize r s.timing (length events)
          some (record {
            latency = latency;
            errors = s.errors;
            top_targets = top_entries Bytes s.targets;
            breakdown = s.breakdown;
          })

    unfoldable pub analyze_fs : List Event → Option (FsStats F)
    analyze_fs events =
        let s : FsLoop F = fs_loop events (record { timing = no_timing; slow_ops = 0 }) in
        do
          latency ← summarize r s.timing (length events)
          some (record { latency = latency; slow_ops = s.slow_ops })

    unfoldable pub analyze_cpu : List Event → Option (Latency F)
    analyze_cpu events = summarize r (cpu_loop events no_timing) (length events)
