-- ===== src/Event/Message/Silence.antt =====
-- When an event gives no message.
use podtrace.Prelude.{◌≤◌, ◌≡◌, ◌≢◌, ◌↔◌, ◌⊎◌, [], arith}
use podtrace.Prelude.Int.{ℤ, pos, negsuc}
use podtrace.Float.{Float, IsExact}
use podtrace.Event.{Event}
use podtrace.Event.Kind
use podtrace.Event.Message.{format_message, format_realtime_message}

-- `-11` is `EAGAIN`, which the code does not count.
abbrev pub IsTcp : Event → Type 0
IsTcp e = (e.type ≡ Kind.tcp_send) ⊎ (e.type ≡ Kind.tcp_recv)

abbrev pub IsTcpFine : ℤ → Type 0
IsTcpFine (pos n) = Unit {0}
IsTcpFine (negsuc n) = n ≡ 10

-- A connect without error in a millisecond at most, or a TCP operation without error other than
-- `EAGAIN` in a tenth of a second at most.
abbrev pub IsQuiet : Event → Type 0
IsQuiet e =
    ((e.type ≡ Kind.connect) × (e.error ≡ pos 0) × (e.latency_ns ≤ 1_000_000))
    ⊎ (IsTcp e × IsTcpFine e.error × (e.latency_ns ≤ 100_000_000))

module _ (F : Type 0) ⦃f : Float F⦄ (exact : IsExact F) where
  -- FormatMessage is empty exactly for connects without error in at most 1 ms and TCP operations
  -- without error other than EAGAIN in at most 100 ms. The laws of Float are assumed.
  pub format_message_silent_iff : (e : Event) → (format_message F e ≡ []) ↔ IsQuiet e
  unfolding format_message
  format_message_silent_iff e =
      ground (arith, exact.lt_millis 1 e.latency_ns, exact.lt_millis 100 e.latency_ns)

  -- FormatRealtimeMessage is empty exactly for TCP operations without error other than EAGAIN in at
  -- most 10 ms. The laws of Float are assumed.
  pub format_realtime_message_silent_iff :
      (e : Event)
      → (format_realtime_message F e ≡ [])
        ↔ (IsTcp e × IsTcpFine e.error × (e.latency_ns ≤ 10_000_000))
  unfolding format_realtime_message
  format_realtime_message_silent_iff e = ground (arith, exact.lt_millis 10 e.latency_ns)

  -- The real-time messages leave out nothing that the other messages report.
  pub realtime_reports : (e : Event) → format_message F e ≢ [] → format_realtime_message F e ≢ []
  realtime_reports e h q =
      ground (arith, h, (format_message_silent_iff e).1, (format_realtime_message_silent_iff e).0 q)
