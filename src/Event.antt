-- ===== src/Event.antt =====
-- internal/events/events.go: an event, its types and its labels. The messages are in the child.
pub mod Kind
pub mod Message
use podtrace.Prelude.{
  ℕ, ◌^◌, ◌<◌, ◌≤◌, ◌≡◌, Bool, true, false, ◌&&◌, ◌||◌, not, ◌==◌, ltb, if◌then◌else◌,
}
use podtrace.Prelude.Int.{ℤ, pos, negsuc}
use podtrace.Event.Kind
use podtrace.Event.Kind.{EventType}
use podtrace.Strings.{Bytes, codes}

pub record Event : Type 0 where
  pub timestamp : ℕ
  pub pid : ℕ
  pub process_name : Bytes
  pub type : EventType
  pub latency_ns : ℕ
  pub error : ℤ
  pub target : Bytes
  pub details : Bytes

-- `e.Error != 0`
abbrev pub is_error : ℤ → Bool
is_error (pos n) = not (n == 0)
is_error (negsuc n) = true

-- `e.Error < 0 && e.Error != -11`: an `EAGAIN` is no error.
abbrev pub is_tcp_error : ℤ → Bool
is_tcp_error (pos n) = false
is_tcp_error (negsuc n) = not (n == 10)

unfoldable pub type_string : Event → Bytes
type_string e =
    if e.type == Kind.dns
    then codes "DNS"
    else if e.type == Kind.connect
    then codes "NET"
    else if e.type == Kind.tcp_send || e.type == Kind.tcp_recv
    then codes "NET"
    else if e.type == Kind.write || e.type == Kind.read
    then codes "FS"
    else if e.type == Kind.fsync
    then codes "FS"
    else if e.type == Kind.sched_switch
    then codes "CPU"
    else codes "UNKNOWN"
