-- ===== src/Event/Kind.antt =====
-- The names of the event types, `EventDNS` and the seven that follow it.
use podtrace.Prelude.{ℕ}

-- `EventType` is a `uint32`: the kernel may send a number that has no name.
abbrev pub EventType : Type 0
EventType = ℕ

abbrev pub dns : EventType
dns = 0

abbrev pub connect : EventType
connect = 1

abbrev pub tcp_send : EventType
tcp_send = 2

abbrev pub tcp_recv : EventType
tcp_recv = 3

abbrev pub write : EventType
write = 4

abbrev pub read : EventType
read = 5

abbrev pub fsync : EventType
fsync = 6

abbrev pub sched_switch : EventType
sched_switch = 7
