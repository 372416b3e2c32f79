-- ===== src/Diagnose/Analyze/Loops.antt =====
-- The loops of the analyses: what their variables hold after all events.
use podtrace.Prelude.{
  ℕ, ◌+◌, ◌*◌, ◌≡◌, refl, Bool, List, [], ◌∷◌, ltb, length, count_if, arith, ◌∙◌,
}
use podtrace.Float.{Float, IsExact}
use podtrace.Counts.{bytes_keys, int_keys}
use podtrace.Counts.Laws.{tally}
use podtrace.Event.{Event, is_error, is_tcp_error}
use podtrace.Diagnose.Latency.{Timing, observe}
use podtrace.Diagnose.Latency.Summary.{observe_all}
use podtrace.Diagnose.Analyze.{
  DnsLoop, TcpLoop, ConnectLoop, FsLoop, is_lookup_target, is_named_target, dns_loop, tcp_loop,
  connect_loop, fs_loop, cpu_loop,
}

abbrev pub latencies_of : List Event → List ℕ
latencies_of [] = []
latencies_of (e ∷ es) = e.latency_ns ∷ latencies_of es

pub length-latencies_of : (es : List Event) → length (latencies_of es) ≡ length es
length-latencies_of [] = refl
length-latencies_of (e ∷ es) = omega (arith, length-latencies_of es)

-- More nanoseconds than so many milliseconds.
abbrev pub slower : ℕ → Event → Bool
slower ms e = ltb (ms * 1_000_000) e.latency_ns

module _ {F : Type 0} ⦃f : Float F⦄ where
  -- The variables of each loop after its events.
  pub dns_loop_lem :
      (es : List Event) (s : DnsLoop F)
      → ((dns_loop es s).timing ≡ observe_all (latencies_of es) s.timing)
        × ((dns_loop es s).errors ≡ count_if (λ e. is_error e.error) es + s.errors)
        × ((dns_loop es s).targets
            ≡ tally (λ e. is_lookup_target e.target) (λ e. e.target) es s.targets)
  unfolding dns_loop observe_all tally
  dns_loop_lem [] s = (refl, omega arith, refl)
  dns_loop_lem (e ∷ es) s = let (a, b, c) = dns_loop_lem es _ in (a, b ∙ ground arith, c)

  pub connect_loop_lem :
      (es : List Event) (s : ConnectLoop F)
      → ((connect_loop es s).timing ≡ observe_all (latencies_of es) s.timing)
        × ((connect_loop es s).errors ≡ count_if (λ e. is_error e.error) es + s.errors)
        × ((connect_loop es s).targets
            ≡ tally (λ e. is_named_target e.target) (λ e. e.target) es s.targets)
        × ((connect_loop es s).breakdown
            ≡ tally (λ e. is_error e.error) (λ e. e.error) es s.breakdown)
  unfolding connect_loop observe_all tally
  connect_loop_lem [] s = (refl, omega arith, refl, refl)
  connect_loop_lem (e ∷ es) s =
      let (a, b, c, d) = connect_loop_lem es _ in (a, b ∙ ground arith, c, d)

  pub cpu_loop_lem :
      (es : List Event) (t : Timing F) → cpu_loop es t ≡ observe_all (latencies_of es) t
  unfolding cpu_loop observe_all
  cpu_loop_lem [] t = refl
  cpu_loop_lem (e ∷ es) t = cpu_loop_lem es (observe t e.latency_ns)

  module _ (exact : IsExact F) where
    pub tcp_loop_lem :
        (es : List Event) (s : TcpLoop F)
        → ((tcp_loop es s).timing ≡ observe_all (latencies_of es) s.timing)
          × ((tcp_loop es s).spikes ≡ count_if (slower 100) es + s.spikes)
          × ((tcp_loop es s).errors ≡ count_if (λ e. is_tcp_error e.error) es + s.errors)
    unfolding tcp_loop observe_all
    tcp_loop_lem [] s = (refl, omega arith, omega arith)
    tcp_loop_lem (e ∷ es) s =
        let (a, b, c) = tcp_loop_lem es _ in
        (a, b ∙ ground (arith, exact.lt_millis 100 e.latency_ns), c ∙ ground arith)

    pub fs_loop_lem :
        (es : List Event) (s : FsLoop F)
        → ((fs_loop es s).timing ≡ observe_all (latencies_of es) s.timing)
          × ((fs_loop es s).slow_ops ≡ count_if (slower 10) es + s.slow_ops)
    unfolding fs_loop observe_all
    fs_loop_lem [] s = (refl, omega arith)
    fs_loop_lem (e ∷ es) s =
        let (a, b) = fs_loop_lem es _ in (a, b ∙ ground (arith, exact.lt_millis 10 e.latency_ns))
