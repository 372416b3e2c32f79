-- ===== src/Cgroup/Extract.antt =====
-- What `extractCgroupPathFromProc` finds in the two formats of `/proc/<pid>/cgroup`.
use mathlib.Core.List.{reverse-append}
use podtrace.Prelude.{
  ℕ, ◌≡◌, ◌≢◌, refl, false, List, [], ◌∷◌, ◌++◌, arith, Bool-cases, ◌==◌, inl, inr,
}
use podtrace.Strings.{
  Bytes, codes, is_empty, has_prefix, trim_prefix, trim_space, split_byte, cons_head,
}
use podtrace.Strings.Laws.{Lacks, split_byte-Lacks', split_byte-append, split_byte-ne-nil}
use podtrace.Cgroup.{scan_lines, extract_cgroup_path_from_proc}

-- The unified hierarchy: all that stands behind `0::` is the path.
pub extract_unified : (path : Bytes) → extract_cgroup_path_from_proc (codes "0::" ++ path) ≡ path
unfolding extract_cgroup_path_from_proc trim_prefix has_prefix
extract_unified path = refl

cons_head-append :
    (c : ℕ) (ps qs : List Bytes) → ps ≢ [] → cons_head c (ps ++ qs) ≡ cons_head c ps ++ qs
cons_head-append c [] qs h = absurd (h refl)
cons_head-append c (p ∷ ps) qs h = refl

split_byte_last :
    (b : ℕ) (s line : Bytes)
    → Lacks b line
    → split_byte b (s ++ b ∷ line) ≡ split_byte b s ++ line ∷ []
unfolding split_byte
split_byte_last b [] line h = ground (arith, split_byte-Lacks' b line h)
split_byte_last b (c ∷ s) line h = elim (Bool-cases (c == b)) [
  | inl e ↦ rw (e, split_byte_last b s line h) refl
  | inr e ↦
      rw (e, split_byte_last b s line h)
        (cons_head-append c (split_byte b s) (line ∷ []) (split_byte-ne-nil b s))
]

-- A text without line feeds that is no prefix of a line is none of the line and what follows it.
has_prefix_line :
    (p line rest : Bytes)
    → Lacks b'\n' p
    → has_prefix p line ≡ false
    → has_prefix p (line ++ b'\n' ∷ rest) ≡ false
unfolding has_prefix
has_prefix_line [] line rest no_feed h = cc
has_prefix_line (c ∷ p) [] rest no_feed h = ground arith
has_prefix_line (c ∷ p) (d ∷ line) rest no_feed h =
    ground (arith, has_prefix_line p line rest no_feed.1)

scan_lines_fields :
    (line id controllers path : Bytes) (lines : List Bytes)
    → is_empty line ≡ false
    → trim_space line ≡ line
    → split_byte b':' line ≡ id ∷ controllers ∷ path ∷ []
    → scan_lines (line ∷ lines) ≡ path
unfolding scan_lines
scan_lines_fields line id controllers path lines some_text trimmed fields =
    rw (trimmed, some_text, fields)

is_empty-append : (s : Bytes) (c : ℕ) (rest : Bytes) → is_empty (s ++ c ∷ rest) ≡ false
is_empty-append [] c rest = refl
is_empty-append (d ∷ s) c rest = refl

-- With separate hierarchies, the path of the last line counts, if it has three fields without colon
-- and line feed and no white space around it.
pub extract_last_line :
    (front id controllers path : Bytes)
    → has_prefix (codes "0::") front ≡ false
    → Lacks b':' id
    → Lacks b':' controllers
    → Lacks b':' path
    → let line = id ++ b':' ∷ (controllers ++ b':' ∷ path) in
      Lacks b'\n' line
      → trim_space line ≡ line
      → extract_cgroup_path_from_proc (front ++ b'\n' ∷ line) ≡ path
unfolding extract_cgroup_path_from_proc
extract_last_line front id controllers path no_zero h1 h2 h3 one_line trimmed =
    let line = id ++ b':' ∷ (controllers ++ b':' ∷ path) in
    let fields : split_byte b':' line ≡ id ∷ controllers ∷ path ∷ [] =
      rw
        (
          split_byte-append b':' id _ h1,
          split_byte-append b':' controllers path h2,
          split_byte-Lacks' b':' path h3,
        )
        refl in
    rw
      (
        has_prefix_line (codes "0::") front line (omega arith) no_zero,
        split_byte_last b'\n' front line one_line,
        reverse-append (split_byte b'\n' front) (line ∷ []),
      )
      (scan_lines_fields line id controllers path _ (is_empty-append id b':' _) trimmed fields)
