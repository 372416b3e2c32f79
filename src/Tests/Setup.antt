-- ===== src/Tests/Setup.antt =====
-- Runs of the set-up, of the channel's readers, and of the goroutines that wait for a signal.
use podtrace.Prelude.{
  ◌≡◌, refl, true, false, none, some, [], ◌∷◌, ◌++◌, if◌then◌else◌, All, length, ◌<◌, arith,
}
use podtrace.Strings.{codes, bytes_eq}
use podtrace.Tracer.Memlock.{
  Rlimit, Limits, prepare, is_allowed, IsSound, prepare-IsSound, prepare_refused,
}
use podtrace.Kubernetes.Config.{Environment, ClientLibrary, new_pod_resolver}
use podtrace.Kubernetes.Config.Places.{IsRight, new_pod_resolver-IsRight}
use podtrace.Session.{interrupt}
use podtrace.Session.Order.{IsOrdered, Reach-IsOrdered}
use podtrace.Session.Signals
use podtrace.Session.Signals.{Loop, starting, listening, first_select, IsDeaf, Reach-IsDeaf}
use podtrace.Session.Setup.{World, run_podtrace}
use podtrace.Session.Setup.Exits.{IsClean, run_podtrace-IsClean}
use podtrace.Tests.Modes.{exported_one, exported_one-Reach, inputs, inputs_go_on, parse_minute}
use podtrace.Tests.Tracing.{kernel}
use podtrace.Tests.Reports.{file_system, pod}

Reach-IsOrdered_example : IsOrdered exported_one
Reach-IsOrdered_example = Reach-IsOrdered exported_one-Reach

-- The usual limits of an account without privileges, which cannot raise the hard one.
abbrev usual_limit : Rlimit
usual_limit = record { cur = 65_536; max = 8_388_608 }

abbrev unprivileged : Limits
unprivileged = record {
  set_dumpable = true;
  get_rlimit = some usual_limit;
  set_rlimit = is_allowed usual_limit;
  remove_memlock = false;
}

prepare-IsSound_example : All (IsSound usual_limit) (prepare unprivileged).requests
prepare-IsSound_example = prepare-IsSound unprivileged usual_limit refl

prepare_refused_example :
    All (λ q. unprivileged.set_rlimit q ≡ false) (prepare unprivileged).requests
    × (0 < length (prepare unprivileged).requests)
    × (unprivileged.set_rlimit (record { cur = usual_limit.max; max = usual_limit.max }) ≡ true)
prepare_refused_example =
    prepare_refused unprivileged usual_limit refl (λ q. refl) (omega arith) (omega arith)

-- Outside a cluster, with a home folder.
abbrev environment : Environment
environment = record {
  getenv = λ name. if bytes_eq name (codes "HOME") then codes "/home/ada" else [];
  stat_ok = λ path. true;
}

abbrev library : ClientLibrary
library = record {
  in_cluster_config = none;
  client_config = λ path. some 1;
  new_for_config = λ config. some 7;
}

new_pod_resolver-IsRight_example :
    IsRight library environment (new_pod_resolver library environment)
new_pod_resolver-IsRight_example = new_pod_resolver-IsRight library environment

abbrev pub world : World
world = record {
  library = library;
  environment = environment;
  get_pod = λ clientset namespace name. some pod;
  files = file_system;
  kernel = kernel;
  iterate = λ xs. xs;
  parse_duration = parse_minute;
  print_duration = λ d. codes "1m0s";
  pod_name = codes "db-0";
  namespace = codes "default";
  diagnose_duration = codes "1m";
}

run_podtrace-IsClean_example : IsClean (run_podtrace world 0 (inputs ++ interrupt 12 ∷ []))
run_podtrace-IsClean_example = run_podtrace-IsClean world 0 inputs 12 [] inputs_go_on

-- An event has been taken, and the second `select` waits.
abbrev second_select : Loop
second_select = record first_select { abandoned = listening ∷ []; registered = true; taken = 1 }

Reach-IsDeaf_example : (s : Loop) × Signals.Reach s × IsDeaf 2 s
Reach-IsDeaf_example = Reach-IsDeaf 2
