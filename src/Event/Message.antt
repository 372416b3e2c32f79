-- ===== src/Event/Message.antt =====
-- `FormatMessage` and `FormatRealtimeMessage`; `sprintf` puts its arguments between the words.
pub mod Silence
use podtrace.Prelude.{ℕ, Bool, ◌&&◌, ◌||◌, List, [], ◌∷◌, ◌++◌, ◌==◌, if◌then◌else◌}
use podtrace.Prelude.Int.{ℤ, pos}
use podtrace.Strings.{Bytes, codes, is_empty, bytes_eq}
use podtrace.Float.{Float, millis}
use podtrace.Event.{Event, is_error, is_tcp_error}
use podtrace.Event.Kind

-- `if target == "" || target == "?" { target = "file" }`
abbrev pub or_file : Bytes → Bytes
or_file target = if is_empty target || bytes_eq target (codes "?") then codes "file" else target

module _ (F : Type 0) ⦃f : Float F⦄ where
  open f use {of_nat, lt, print, print_int}

  -- words, a text, words, a number of milliseconds with two digits, and the end
  abbrev timed : Bytes → Bytes → Bytes → F → Bytes → Bytes
  timed before what between ms after = before ++ (what ++ (between ++ (print 2 ms ++ after)))

  abbrev failed : Bytes → Bytes → ℤ → Bytes
  failed before what error = before ++ (what ++ (codes " failed: error " ++ print_int error))

  -- the cases that both functions share, behind `EventTCPRecv`
  abbrev file_or_cpu : Event → F → Bytes
  file_or_cpu e ms =
      if e.type == Kind.write
      then timed (codes "[FS] write() to ") (or_file e.target) (codes " took ") ms (codes "ms")
      else if e.type == Kind.read
      then timed (codes "[FS] read() from ") (or_file e.target) (codes " took ") ms (codes "ms")
      else if e.type == Kind.fsync
      then timed (codes "[FS] fsync() to ") (if is_empty e.target then codes "file" else e.target)
          (codes " took ") ms (codes "ms")
      else if e.type == Kind.sched_switch
      then codes "[CPU] thread blocked " ++ (print 2 ms ++ codes "ms")
      else codes "[UNKNOWN] event type " ++ print_int (pos e.type)

  abbrev dns_message : Event → F → Bytes
  dns_message e ms =
      if is_error e.error
      then failed (codes "[DNS] lookup ") e.target e.error
      else timed (codes "[DNS] lookup ") e.target (codes " took ") ms (codes "ms")

  unfoldable pub format_message : Event → Bytes
  format_message e =
      let ms : F = millis e.latency_ns in
      if e.type == Kind.dns
      then dns_message e ms
      else if e.type == Kind.connect
      then if is_error e.error
        then failed (codes "[NET] connect to ") (or_file e.target) e.error
        else if lt (of_nat 1) ms
        then timed (codes "[NET] connect to ") (or_file e.target) (codes " took ") ms (codes "ms")
        else []
      else if e.type == Kind.tcp_send
      then if is_tcp_error e.error
        then codes "[NET] TCP send error: " ++ print_int e.error
        else if lt (of_nat 100) ms
        then codes "[NET] TCP send latency spike: " ++ (print 2 ms ++ codes "ms")
        else []
      else if e.type == Kind.tcp_recv
      then if is_tcp_error e.error
        then codes "[NET] TCP recv error: " ++ print_int e.error
        else if lt (of_nat 100) ms
        then codes "[NET] TCP recv RTT spike: " ++ (print 2 ms ++ codes "ms")
        else []
      else file_or_cpu e ms

  unfoldable pub format_realtime_message : Event → Bytes
  format_realtime_message e =
      let ms : F = millis e.latency_ns in
      if e.type == Kind.dns
      then dns_message e ms
      else if e.type == Kind.connect
      then if is_error e.error
        then failed (codes "[NET] connect to ") (or_file e.target) e.error
        else timed (codes "[NET] connect to ") (or_file e.target) (codes " (") ms (codes "ms)")
      else if e.type == Kind.tcp_send
      then if is_tcp_error e.error
        then codes "[NET] TCP send error: " ++ print_int e.error
        else if lt (of_nat 10) ms
        then codes "[NET] TCP send latency: " ++ (print 2 ms ++ codes "ms")
        else []
      else if e.type == Kind.tcp_recv
      then if is_tcp_error e.error
        then codes "[NET] TCP recv error: " ++ print_int e.error
        else if lt (of_nat 10) ms
        then codes "[NET] TCP recv RTT: " ++ (print 2 ms ++ codes "ms")
        else []
      else file_or_cpu e ms
