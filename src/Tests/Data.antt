-- ===== src/Tests/Data.antt =====
-- Events, processes and collectors for the runs.
use podtrace.Prelude.{ℕ, replicate, Option, none, some, [], ◌∷◌, ◌==◌, if◌then◌else◌}
use podtrace.Prelude.Int.{pos, negsuc}
use podtrace.Strings.{Bytes, codes}
use podtrace.Event.{Event}
use podtrace.Event.Kind
use podtrace.ProcName.{ProcFs}
use podtrace.Diagnose.{Diagnostician}

-- A lookup that failed.
abbrev pub lookup : Event
lookup = record {
  timestamp = 5_000_000_000;
  pid = 1234;
  process_name = [];
  type = Kind.dns;
  latency_ns = 12_000_000;
  error = negsuc 1;
  target = codes "example.com";
  details = [];
}

abbrev pub quick_lookup : Event
quick_lookup = record lookup {
  timestamp = 6_500_000_000;
  latency_ns = 300_000;
  error = pos 0;
  pid = 77;
}

-- A connect that was refused, and one that was not.
abbrev pub refused : Event
refused = record lookup { type = Kind.connect; error = negsuc 110; target = codes "10.0.0.7:5432" }

abbrev pub accepted : Event
accepted = record lookup {
  type = Kind.connect;
  error = pos 0;
  target = codes "10.0.0.8:443";
  pid = 77;
}

abbrev pub slow_send : Event
slow_send = record lookup { type = Kind.tcp_send; error = pos 512; latency_ns = 150_000_000 }

-- The socket was not ready.
abbrev pub again : Event
again = record lookup { type = Kind.tcp_recv; error = negsuc 10; latency_ns = 20_000 }

abbrev pub slow_write : Event
slow_write = record lookup { type = Kind.write; error = pos 0; target = codes "wal" }

abbrev pub blocked : Event
blocked = record lookup { type = Kind.sched_switch; error = pos 0; target = [] }

-- A period of ten seconds that begins at second 4.
abbrev pub collector : Diagnostician
collector = record {
  events =
      lookup ∷ refused ∷ accepted ∷ slow_send ∷ again ∷ slow_write ∷ quick_lookup ∷ blocked ∷ [];
  start_time = 4_000_000_000;
  end_time = 14_000_000_000;
}

-- The same period with twelve quick lookups in its first second.
abbrev pub busy_collector : Diagnostician
busy_collector = record collector {
  events = replicate 12 (record quick_lookup { timestamp = 4_500_000_000 });
}

-- The same events on a machine whose clock reads a date of 2023.
abbrev pub late_collector : Diagnostician
late_collector = record collector {
  start_time = 1_700_000_000_000_000_000;
  end_time = 1_700_000_010_000_000_000;
}

-- Process 1234 is known, no other.
abbrev pub proc_fs : ProcFs
proc_fs = record {
  cmdline = λ pid. if pid == 1234 then some (codes "/usr/bin/postgres") else none;
  stat = λ pid. none;
  comm = λ pid. if pid == 1234 then some (codes "postgres") else none;
  exe = λ pid. none;
  status = λ pid. none;
}

abbrev pub other_fs : ProcFs
other_fs = record proc_fs { cmdline = λ pid. some (codes "/bin/sh") }

abbrev pub pod_cgroup : Bytes
pod_cgroup = codes "/sys/fs/cgroup/kubepods.slice/pod1"

abbrev pub read_cgroup : ℕ → Option Bytes
read_cgroup pid = if pid == 1234 then some (codes "0::/kubepods.slice/pod1/app") else none
