-- ===== src/Tests/Tracing.antt =====
-- Runs of the tracer: its stream, its filter, its names and its resources.
use podtrace.Prelude.{
  ℕ, ◌≡◌, ◌≢◌, ◌↔◌, ◌⊎◌, refl, Bool, true, not, ◌&&◌, arith, Option, none, some, List, [], ◌∷◌,
  ◌++◌, ◌==◌,
}
use podtrace.Strings.{Bytes, codes, has_prefix, trim_space}
use podtrace.Strings.Laws.{Lacks}
use podtrace.Runtime.Insertion.{same_list}
use podtrace.Wire.{write_event}
use podtrace.Cgroup.{normalize_cgroup_path, is_pid_in_cgroup}
use podtrace.Cgroup.Filter.{Related, proc_path, is_pid_in_cgroup_iff, is_pid_in_cgroup_root}
use podtrace.ProcName.{from_stat, get_process_name_quick}
use podtrace.ProcName.Parse.{from_stat_lem}
use podtrace.ProcName.Cache.{after_lookups, get_process_name_quick_sticky}
use podtrace.Tracer.{Proc, Read, closed, failed, sample, start_loop}
use podtrace.Tracer.Stream.{all_nameless, wanted, start_loop-wanted, start_loop-closed}
use podtrace.Tracer.Attach.{Probe, Kernel, load_podtrace, new_tracer}
use podtrace.Tracer.Attach.Resources.{IsBalanced}
use podtrace.Tracer.Attach.Shutdown.{stop_of, new_tracer-IsBalanced}
use podtrace.Tracer.Attach.Outcome.{IsUsable, new_tracer_iff}
use podtrace.Tests.Data.{lookup, quick_lookup, proc_fs, other_fs, pod_cgroup, read_cgroup}

-- Whether a text is free of a byte, as a test.
abbrev pub is_free : ℕ → Bytes → Bool
is_free b [] = true
is_free b (c ∷ s) = not (c == b) && is_free b s

pub is_free-Lacks : (b : ℕ) (s : Bytes) → is_free b s ≡ true → Lacks b s
is_free-Lacks b [] h = tt
is_free-Lacks b (c ∷ s) h = (ground arith, is_free-Lacks b s (ground arith))

abbrev proc : Proc
proc = record { names = proc_fs; cgroup = read_cgroup }

-- An error, an event of the pod, one of another process, and a record that is cut off.
abbrev records : List Read
records =
    failed
    ∷ sample proc (write_event lookup)
    ∷ sample proc (write_event quick_lookup)
    ∷ sample proc (codes "cut off")
    ∷ []

start_loop-wanted_example :
    all_nameless (start_loop pod_cgroup [] records).events ≡ wanted pod_cgroup records
start_loop-wanted_example = start_loop-wanted pod_cgroup [] records

start_loop-closed_example :
    ((start_loop pod_cgroup [] (records ++ closed ∷ failed ∷ [])).returned ≡ true)
    × (start_loop pod_cgroup [] (records ++ closed ∷ failed ∷ [])
        ≡ start_loop pod_cgroup [] (records ++ closed ∷ []))
start_loop-closed_example =
    start_loop-closed pod_cgroup [] records (failed ∷ []) (tt, (tt, (tt, (tt, tt))))

is_pid_in_cgroup_iff_example : (is_pid_in_cgroup pod_cgroup read_cgroup 1234 ≡ true) ↔ (
    (pod_cgroup ≡ [])
    ⊎ ((raw : Bytes) × (read_cgroup 1234 ≡ some raw)
        × (proc_path raw ≢ [])
        × Related (normalize_cgroup_path (proc_path raw)) (normalize_cgroup_path pod_cgroup)))
is_pid_in_cgroup_iff_example = is_pid_in_cgroup_iff pod_cgroup read_cgroup 1234

abbrev root_cgroup : ℕ → Option Bytes
root_cgroup pid = some (codes "0::/")

root_line : trim_space (codes "0::/") ≡ codes "0::/"
unfolding trim_space
root_line = refl

is_pid_in_cgroup_root_example : is_pid_in_cgroup pod_cgroup root_cgroup 1 ≡ true
is_pid_in_cgroup_root_example =
    is_pid_in_cgroup_root pod_cgroup root_cgroup 1 (codes "0::/") refl root_line

from_stat_lem_example :
    from_stat (codes "1234 " ++ b'(' ∷ (codes "tmux: (1)" ++ b')' ∷ codes " S 1 1234"))
    ≡ codes "tmux: (1)"
from_stat_lem_example =
    from_stat_lem (codes "1234 ") (codes "tmux: (1)") (codes " S 1 1234")
      (is_free-Lacks b'(' (codes "1234 ") refl) (is_free-Lacks b')' (codes " S 1 1234") refl)

get_process_name_quick_sticky_example :
    get_process_name_quick other_fs
      (after_lookups
        ((other_fs, 77) ∷ (other_fs, 1234) ∷ [])
        (get_process_name_quick proc_fs [] 1234).1)
      1234
    ≡ (
      (get_process_name_quick proc_fs [] 1234).0,
      after_lookups
          ((other_fs, 77) ∷ (other_fs, 1234) ∷ [])
          (get_process_name_quick proc_fs [] 1234).1,
    )
get_process_name_quick_sticky_example =
    get_process_name_quick_sticky proc_fs other_fs [] 1234 ((other_fs, 77) ∷ (other_fs, 1234) ∷ [])

-- A kernel without libc, on which everything else works.
abbrev pub kernel : Kernel
kernel = record {
  load_spec = λ path. some 1;
  new_collection = λ spec. some 2;
  has_program = λ program. true;
  attach = λ hook program. some 3;
  is_file = has_prefix (codes "/usr");
  is_executable = λ path. true;
  new_reader = λ coll. some 4;
}

-- On this one the ring buffer does not open.
abbrev readerless : Kernel
readerless = record kernel { new_reader = λ coll. none }

new_tracer-IsBalanced_example :
    IsBalanced
      ((new_tracer readerless (λ xs. xs)).0 ++ stop_of (new_tracer readerless (λ xs. xs)).1)
new_tracer-IsBalanced_example = new_tracer-IsBalanced readerless (λ xs. xs)

new_tracer_iff_example : ((new_tracer kernel (λ xs. xs)).1 ≢ none) ↔ (
    (spec coll : ℕ) × (load_podtrace kernel ≡ some spec)
    × (kernel.new_collection spec ≡ some coll)
    × IsUsable kernel coll)
new_tracer_iff_example = new_tracer_iff kernel (λ xs. xs) (same_list Probe)
