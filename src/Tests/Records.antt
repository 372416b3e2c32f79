-- ===== src/Tests/Records.antt =====
-- Runs of the parser and of the messages.
use podtrace.Prelude.{ℕ, ◌≡◌, ◌↔◌, refl, ◌≤◌, ◌++◌, some, [], ◌∷◌, arith}
use podtrace.Strings.{has_suffix_byte}
use podtrace.Float.Fixed.{fixed_float, Fixed-IsExact}
use podtrace.Event.Message.{format_message, format_realtime_message}
use podtrace.Event.Message.Silence.{
  IsQuiet, IsTcp, IsTcpFine, format_message_silent_iff, format_realtime_message_silent_iff,
}
use podtrace.Wire.{parse_event, write_event}
use podtrace.Wire.RoundTrip.{IsKernelEvent, parse_event-write_event}
use podtrace.Tests.Data.{lookup, again}

lookup-IsKernelEvent : IsKernelEvent lookup
unfolding has_suffix_byte
lookup-IsKernelEvent = record {
  timestamp_lt = omega arith;
  pid_lt = omega arith;
  type_lt = omega arith;
  latency_lt = omega arith;
  error_int32 = (omega arith, omega arith);
  target_text = (omega arith, refl);
  details_text = (omega arith, refl);
  unnamed = refl;
}

parse_event-write_event_example : parse_event (write_event lookup ++ (0 ∷ 0 ∷ [])) ≡ some lookup
parse_event-write_event_example = parse_event-write_event lookup (0 ∷ 0 ∷ []) lookup-IsKernelEvent

format_message_silent_iff_example : (format_message ℕ again ≡ []) ↔ IsQuiet again
format_message_silent_iff_example = format_message_silent_iff ℕ Fixed-IsExact again

format_realtime_message_silent_iff_example :
    (format_realtime_message ℕ again ≡ [])
    ↔ (IsTcp again × IsTcpFine again.error × (again.latency_ns ≤ 10_000_000))
format_realtime_message_silent_iff_example =
    format_realtime_message_silent_iff ℕ Fixed-IsExact again
