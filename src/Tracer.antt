-- ===== src/Tracer.antt =====
-- `Start` of internal/ebpf/tracer.go: the loop that reads records, names their processes, filters
-- them by cgroup and sends them.
pub mod Stream
pub mod Attach
pub mod Memlock
use podtrace.Prelude.{ℕ, Bool, true, false, Option, none, some, List, [], ◌∷◌, if◌then◌else◌}
use podtrace.Strings.{Bytes}
use podtrace.Event.{Event}
use podtrace.Wire.{parse_event}
use podtrace.Cgroup.{is_pid_in_cgroup}
use podtrace.ProcName.{ProcFs, Cache, get_process_name_quick}

-- The files of `/proc` when a record is handled.
pub record Proc : Type 0 where
  pub names : ProcFs
  pub cgroup : ℕ → Option Bytes

-- What `reader.Read` gives: an error whose text says "closed", another error, or a record.
pub data Read : Type 0 where
  closed : Read
  failed : Read
  sample : Proc → Bytes → Read

-- The events that are sent, and whether the loop has returned.
pub record Sent : Type 0 where
  pub events : List Event
  pub returned : Bool

abbrev pub send : Event → Sent → Sent
send e s = record s { events = e ∷ s.events }

-- One record that was read and parsed: the event with its name, if its process is in the cgroup,
-- and the cache of names.
unfoldable pub name_and_filter : Bytes → Cache → Proc → Event → Option Event × Cache
name_and_filter cgroup_path c proc event =
    let (name, c') = get_process_name_quick proc.names c event.pid in
    let named = record event { process_name = name } in
    (if is_pid_in_cgroup cgroup_path proc.cgroup event.pid then some named else none, c')

abbrev pub send_if : Option Event → Sent → Sent
send_if none s = s
send_if (some e) s = send e s

unfoldable pub start_loop : Bytes → Cache → List Read → Sent
start_loop cgroup_path c [] = record { events = []; returned = false }
start_loop cgroup_path c (closed ∷ rs) = record { events = []; returned = true }
start_loop cgroup_path c (failed ∷ rs) = start_loop cgroup_path c rs
start_loop cgroup_path c (sample proc raw ∷ rs) = elim (parse_event raw) [
  | none ↦ start_loop cgroup_path c rs
  | some event ↦
      let (sent, c') = name_and_filter cgroup_path c proc event in
      send_if sent (start_loop cgroup_path c' rs)
]
