-- ===== src/Cgroup/Filter.antt =====
-- Which processes the cgroup filter lets through.
use mathlib.Core.List.{cons-ne-nil}
use podtrace.Prelude.{
  ℕ, ◌≡◌, ◌≢◌, refl, ◌∙◌, sym, ◌↔◌, ◌⊎◌, inl, inr, true, Option, some, [], ◌∷◌, ◌++◌, append_assoc,
  arith, Option-cases, Bool-cases, if◌then◌else◌,
}
use podtrace.Strings.{Bytes, codes, has_prefix, trim_prefix, trim_space, trim_suffix_byte}
use podtrace.Strings.Laws.{bytes_eq_iff, has_prefix_iff}
use podtrace.Cgroup.{
  normalize_cgroup_path, extract_cgroup_path_from_proc, paths_match, is_pid_in_cgroup,
}

-- A path lies below another: the other, a slash, and some more.
abbrev pub IsBelow : Bytes → Bytes → Type 0
IsBelow a b = (rest : Bytes) × (a ≡ b ++ b'/' ∷ rest)

-- On one line of the tree: the same path, or one below the other.
abbrev pub Related : Bytes → Bytes → Type 0
Related a b = (a ≡ b) ⊎ (IsBelow a b ⊎ IsBelow b a)

has_prefix-IsBelow : (a b : Bytes) → (has_prefix (b ++ codes "/") a ≡ true) ↔ IsBelow a b
has_prefix-IsBelow a b = (
  λ h.
      let (rest, e) = (has_prefix_iff (b ++ codes "/") a).0 h in
      (rest, e ∙ append_assoc b (codes "/") rest),
  λ p. (has_prefix_iff (b ++ codes "/") a).1 (p.0, p.1 ∙ sym (append_assoc b (codes "/") p.0)),
)

paths_match_iff : (a b : Bytes) → (paths_match a b ≡ true) ↔ Related a b
unfolding paths_match
paths_match_iff a b =
    ground (arith, bytes_eq_iff a b, has_prefix-IsBelow a b, has_prefix-IsBelow b a)

-- The path that the filter reads for a process.
abbrev pub proc_path : Bytes → Bytes
proc_path raw = extract_cgroup_path_from_proc (trim_space raw)

-- A process passes the filter exactly when no target is set, or its cgroup file can be read and
-- names a path that, normalised, is the target, lies below it or lies above it.
pub is_pid_in_cgroup_iff :
    (target : Bytes) (read_cgroup : ℕ → Option Bytes) (pid : ℕ)
    → (is_pid_in_cgroup target read_cgroup pid ≡ true) ↔ (
        (target ≡ [])
        ⊎ ((raw : Bytes) × (read_cgroup pid ≡ some raw)
            × (proc_path raw ≢ [])
            × Related (normalize_cgroup_path (proc_path raw)) (normalize_cgroup_path target)))
unfolding is_pid_in_cgroup
is_pid_in_cgroup_iff [] read_cgroup pid = (λ _. inl refl, λ _. refl)
is_pid_in_cgroup_iff (c ∷ target) read_cgroup pid = (passes→, passes←)
  where
    passes→ :
        is_pid_in_cgroup (c ∷ target) read_cgroup pid ≡ true
        → (c ∷ target ≡ [])
          ⊎ ((raw : Bytes) × (read_cgroup pid ≡ some raw)
              × (proc_path raw ≢ [])
              × Related
                  (normalize_cgroup_path (proc_path raw))
                  (normalize_cgroup_path (c ∷ target)))
    passes→ h = elim (Option-cases (read_cgroup pid)) [
      | inl e ↦ absurd (ground arith)
      | inr (raw, e) ↦ inr (
        raw,
        e,
        ground arith,
        (paths_match_iff (normalize_cgroup_path (proc_path raw))
              (normalize_cgroup_path (c ∷ target))).0
            (ground arith),
      )
    ]

    passes← :
        (c ∷ target ≡ [])
          ⊎ ((raw : Bytes) × (read_cgroup pid ≡ some raw)
              × (proc_path raw ≢ [])
              × Related
                  (normalize_cgroup_path (proc_path raw))
                  (normalize_cgroup_path (c ∷ target)))
        → is_pid_in_cgroup (c ∷ target) read_cgroup pid ≡ true
    passes← (inl e) = cc
    passes← (inr (raw, e, some_path, related)) = ground (
      arith,
      (paths_match_iff (normalize_cgroup_path (proc_path raw))
            (normalize_cgroup_path (c ∷ target))).1
          related,
    )

trim_suffix-rooted :
    (s : Bytes)
    → (trim_suffix_byte b'/' (b'/' ∷ s) ≡ [])
      ⊎ ((rest : Bytes) × (trim_suffix_byte b'/' (b'/' ∷ s) ≡ b'/' ∷ rest))
unfolding trim_suffix_byte
trim_suffix-rooted [] = inl refl
trim_suffix-rooted (c ∷ s) = inr (trim_suffix_byte b'/' (c ∷ s), refl)

-- With the slash that is put in front where it is missing.
rooted_cases :
    (s : Bytes)
    → let rooted = if has_prefix (codes "/") s then s else codes "/" ++ s in
      (trim_suffix_byte b'/' rooted ≡ [])
      ⊎ ((rest : Bytes) × (trim_suffix_byte b'/' rooted ≡ b'/' ∷ rest))
rooted_cases s = elim (Bool-cases (has_prefix (codes "/") s)) [
  | inl e ↦
      let (rest, q) = (has_prefix_iff (codes "/") s).0 e in rw (e, q) (trim_suffix-rooted rest)
  | inr e ↦ rw e (trim_suffix-rooted s)
]

-- A normalised path is empty or begins with a slash.
pub normalize_cgroup_path_rooted :
    (path : Bytes)
    → (normalize_cgroup_path path ≡ [])
      ⊎ ((rest : Bytes) × (normalize_cgroup_path path ≡ b'/' ∷ rest))
unfolding normalize_cgroup_path
normalize_cgroup_path_rooted path = rooted_cases (trim_prefix (codes "/sys/fs/cgroup") path)

root_path : extract_cgroup_path_from_proc (codes "0::/") ≡ codes "/"
unfolding extract_cgroup_path_from_proc trim_prefix has_prefix
root_path = refl

normalize-root : normalize_cgroup_path (codes "/") ≡ []
unfolding normalize_cgroup_path trim_prefix has_prefix trim_suffix_byte
normalize-root = refl

-- A process of the root cgroup passes the filter, whatever pod is traced.
pub is_pid_in_cgroup_root :
    (target : Bytes) (read_cgroup : ℕ → Option Bytes) (pid : ℕ) (raw : Bytes)
    → read_cgroup pid ≡ some raw
    → trim_space raw ≡ codes "0::/"
    → is_pid_in_cgroup target read_cgroup pid ≡ true
is_pid_in_cgroup_root target read_cgroup pid raw readable root =
    (is_pid_in_cgroup_iff target read_cgroup pid).1 (
      inr (
        raw,
        readable,
        rw (root, root_path) (cons-ne-nil b'/' []),
        rw (root, root_path, normalize-root) root_related,
      ))
  where
    root_related : Related [] (normalize_cgroup_path target)
    root_related = elim (normalize_cgroup_path_rooted target) [
      | inl e ↦ inl (sym e)
      | inr below ↦ inr (inr below)
    ]
