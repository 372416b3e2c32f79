-- ===== src/Cgroup.antt =====
-- The cgroup filter of internal/ebpf/tracer.go: `isPIDInCgroup`, `normalizeCgroupPath` and
-- `extractCgroupPathFromProc`.
pub mod Extract
pub mod Filter
use mathlib.Core.List.{reverse}
use podtrace.Prelude.{
  ℕ, Bool, true, false, Option, none, some, List, [], ◌∷◌, ◌++◌, if◌then◌else◌, length, drop,
  get_elem?, ◌||◌,
}
use podtrace.Strings.{
  Bytes, codes, bytes_eq, is_empty, has_prefix, trim_prefix, trim_suffix_byte, trim_space,
  split_byte,
}

-- `strings.TrimPrefix`, then a leading slash, then `strings.TrimSuffix`.
unfoldable pub normalize_cgroup_path : Bytes → Bytes
normalize_cgroup_path path =
    let short = trim_prefix (codes "/sys/fs/cgroup") path in
    let rooted = if has_prefix (codes "/") short then short else codes "/" ++ short in
    trim_suffix_byte b'/' rooted

-- The loop over the lines, the last one first: the third field of the first line that has one.
unfoldable pub scan_lines : List Bytes → Bytes
scan_lines [] = []
scan_lines (l ∷ ls) =
    let line = trim_space l in
    let rest = scan_lines ls in
    if is_empty line
    then rest
    else elim (get_elem? (split_byte b':' line) 2) [ some path ↦ path | none ↦ rest ]

unfoldable pub extract_cgroup_path_from_proc : Bytes → Bytes
extract_cgroup_path_from_proc content =
    if has_prefix (codes "0::") content
    then trim_prefix (codes "0::") content
    else scan_lines (reverse (split_byte b'\n' content))

-- The three tests at the end, on normalised paths.
unfoldable pub paths_match : Bytes → Bytes → Bool
paths_match pid_path target =
    bytes_eq pid_path target
    || (has_prefix (target ++ codes "/") pid_path || has_prefix (pid_path ++ codes "/") target)

-- `read_cgroup` is `os.ReadFile` of `/proc/<pid>/cgroup`, with `none` for an error.
unfoldable pub is_pid_in_cgroup : Bytes → (ℕ → Option Bytes) → ℕ → Bool
is_pid_in_cgroup cgroup_path read_cgroup pid =
    if is_empty cgroup_path then true else elim (read_cgroup pid) [
      | none ↦ false
      | some raw ↦
          let pid_path = extract_cgroup_path_from_proc (trim_space raw) in
          if is_empty pid_path
          then false
          else paths_match (normalize_cgroup_path pid_path) (normalize_cgroup_path cgroup_path)
    ]
