-- ===== src/ProcName.antt =====
-- The names of processes: `getProcessNameQuick` of internal/ebpf/tracer.go and `getProcessName` of
-- internal/diagnose/diagnose.go. Each package has a cache of its own.
pub mod Parse
pub mod Cache
use podtrace.Prelude.{
  ℕ, zero, suc, ◌+◌, ◌-◌, Bool, ◌&&◌, Option, none, some, List, [], ◌∷◌, ◌==◌, ltb, if◌then◌else◌,
  take, drop, get_elem?,
}
use podtrace.Strings.{
  Bytes, codes, is_empty, has_prefix, trim_space, split_byte, index_byte, last_index_byte, fields,
}

-- The files of `/proc/<pid>`, with `none` where reading fails.
pub record ProcFs : Type 0 where
  pub cmdline : ℕ → Option Bytes
  pub stat : ℕ → Option Bytes
  pub comm : ℕ → Option Bytes
  pub exe : ℕ → Option Bytes
  pub status : ℕ → Option Bytes

-- What stands behind the last slash, or all of it.
unfoldable pub base_name : Bytes → Bytes
base_name s = elim (last_index_byte b'/' s) [ some i ↦ drop (suc i) s | none ↦ s ]

-- `s[start+1 : end]`, if both were found in this order.
unfoldable pub between : Bytes → Option ℕ → Option ℕ → Bytes
between s (some start) (some end) =
    if ltb start end then take (end - suc start) (drop (suc start) s) else []
between s (some start) none = []
between s none end = []

-- The text between the first `(` and the last `)`, if they stand in this order.
unfoldable pub from_stat : Bytes → Bytes
from_stat s = between s (index_byte b'(' s) (last_index_byte b')' s)

-- The base name of the first argument.
unfoldable pub from_cmdline : Bytes → Bytes
from_cmdline s = elim (split_byte 0 s) [
  | [] ↦ []
  | ◌∷◌ first rest ↦ if is_empty first then [] else base_name first
]

-- The second word of the first line that begins with `Name:` and has two.
unfoldable pub from_status : List Bytes → Bytes
from_status [] = []
from_status (line ∷ lines) =
    let rest = from_status lines in
    if has_prefix (codes "Name:") line
    then elim (get_elem? (fields line) 1) [ some name ↦ name | none ↦ rest ]
    else rest

-- A file that could not be read gives no name.
abbrev pub from_file : (Bytes → Bytes) → Option Bytes → Bytes
from_file parse none = []
from_file parse (some raw) = parse raw

-- `if name == "" { name = next }`
abbrev pub or_else : Bytes → Bytes → Bytes
or_else [] next = next
or_else (c ∷ s) next = c ∷ s

-- The sources of `getProcessNameQuick`, in their order.
unfoldable pub read_name_quick : ProcFs → ℕ → Bytes
read_name_quick fs pid =
    or_else (from_file from_cmdline (fs.cmdline pid))
      (or_else (from_file from_stat (fs.stat pid)) (from_file trim_space (fs.comm pid)))

-- The sources of `getProcessName`, in their order.
unfoldable pub read_name : ProcFs → ℕ → Bytes
read_name fs pid = or_else (from_file from_stat (fs.stat pid)) (
    or_else (from_file trim_space (fs.comm pid)) (
      or_else (from_file from_cmdline (fs.cmdline pid)) (
        or_else (from_file base_name (fs.exe pid))
          (from_file (λ raw. from_status (split_byte b'\n' raw)) (fs.status pid)))))

-- `processNameCache`, the newest entry first.
abbrev pub Cache : Type 0
Cache = List (ℕ × Bytes)

unfoldable pub cached : Cache → ℕ → Option Bytes
cached [] pid = none
cached ((p, name) ∷ c) pid = if p == pid then some name else cached c pid

-- The lookup, and the read and the store where there is no entry; the result is the name and the
-- cache. The name is stored also if it is empty.
abbrev pub through_cache : (ℕ → Bytes) → Cache → ℕ → Bytes × Cache
through_cache read c pid = elim (cached c pid) [
  | some name ↦ (name, c)
  | none ↦ (read pid, (pid, read pid) ∷ c)
]

unfoldable pub get_process_name_quick : ProcFs → Cache → ℕ → Bytes × Cache
get_process_name_quick fs = through_cache (read_name_quick fs)

unfoldable pub get_process_name : ProcFs → Cache → ℕ → Bytes × Cache
get_process_name fs = through_cache (read_name fs)
