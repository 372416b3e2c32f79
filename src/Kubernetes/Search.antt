-- ===== src/Kubernetes/Search.antt =====
-- Which path the search finds.
use podtrace.Prelude.{
  ℕ, zero, suc, ◌≤◌, ◌≡◌, ◌≢◌, refl, sym, ◌∙◌, ap, subst, Bool, true, false, Option, none, some,
  List, [], ◌∷◌, ◌++◌, append_assoc, leb, if◌then◌else◌, length, take, drop, All, arith, Bool-cases,
  inl, inr,
}
use podtrace.Strings.{Bytes, contains, has_prefix, is_empty}
use podtrace.Strings.Laws.{contains→append, has_prefix_iff}
use podtrace.Kubernetes.{
  Visit, FileSystem, is_match, walk_for, cgroup_bases, or_search, search, find_cgroup_path,
}

has_prefix→contains : (p s : Bytes) → has_prefix p s ≡ true → contains p s ≡ true
unfolding contains
has_prefix→contains p [] h = h
has_prefix→contains p (c ∷ s) h = ground arith

append→contains : (p before after : Bytes) → contains p (before ++ (p ++ after)) ≡ true
unfolding contains
append→contains p [] after =
    has_prefix→contains p (p ++ after) ((has_prefix_iff p (p ++ after)).1 (after, refl))
append→contains p (c ∷ before) after = ground (arith, append→contains p before after)

take-drop : (n : ℕ) (s : Bytes) → take n s ++ drop n s ≡ s
take-drop zero s = refl
take-drop (suc n) [] = refl
take-drop (suc n) (c ∷ s) = ap (◌∷◌ c) (take-drop n s)

take_all : (n : ℕ) (s : Bytes) → length s ≤ n → take n s ≡ s
take_all zero [] h = refl
take_all zero (c ∷ s) h = absurd (omega arith)
take_all (suc n) [] h = refl
take_all (suc n) (c ∷ s) h = ap (◌∷◌ c) (take_all n s (omega arith))

contains-take :
    (n : ℕ) (id path : Bytes) → contains id path ≡ true → contains (take n id) path ≡ true
contains-take n id path h =
    let (before, after, e) = contains→append id path h in
    let q : path ≡ before ++ (take n id ++ (drop n id ++ after)) =
      e
      ∙ ap (λ s. before ++ s)
          (ap (λ s. s ++ after) (sym (take-drop n id))
            ∙ append_assoc (take n id) (drop n id) after) in
    subst (λ s. contains (take n id) s ≡ true) (sym q)
      (append→contains (take n id) before (drop n id ++ after))

-- A path matches exactly when it contains the first twelve bytes of the identifier.
is_match-contains : (id path : Bytes) → is_match id path ≡ contains (take 12 id) path
unfolding is_match
is_match-contains id path = elim (Bool-cases (leb 12 (length id))) [
  | inl e ↦ elim (Bool-cases (contains id path)) [
    | inl h ↦ rw (e, h) (sym (contains-take 12 id path h))
    | inr h ↦ rw (e, h)
  ]
  | inr e ↦ rw (take_all 12 id (ground arith)) (ground arith)
]

-- The paths that are visited without error, one walk after the other.
abbrev pub readable_paths : List Visit → List Bytes → List Bytes
readable_paths [] rest = rest
readable_paths (v ∷ vs) rest =
    if v.readable then v.path ∷ readable_paths vs rest else readable_paths vs rest

abbrev pub visited : FileSystem → List Bytes → List Bytes
visited fs [] = []
visited fs (base ∷ bases) =
    if fs.exists base then readable_paths (fs.walk base) (visited fs bases) else visited fs bases

abbrev pub first : (Bytes → Bool) → List Bytes → Option Bytes
first test [] = none
first test (p ∷ ps) = if test p then some p else first test ps

is_empty-false : (s : Bytes) → s ≢ [] → is_empty s ≡ false
is_empty-false [] h = absurd (h refl)
is_empty-false (c ∷ s) h = refl

walk_for-first :
    (id : Bytes) (vs : List Visit) (ps : List Bytes)
    → All (λ v. v.path ≢ []) vs
    → or_search (walk_for id vs) (first (contains (take 12 id)) ps)
      ≡ first (contains (take 12 id)) (readable_paths vs ps)
unfolding walk_for
walk_for-first id [] ps h = refl
walk_for-first id (v ∷ vs) ps h = elim (Bool-cases v.readable) [
  | inr e ↦ rw (e, walk_for) (walk_for-first id vs ps h.1)
  | inl e ↦ elim (Bool-cases (contains (take 12 id) v.path)) [
    | inl q ↦ rw (e, is_match-contains id v.path, q, is_empty-false v.path h.0)
    | inr q ↦ rw (e, is_match-contains id v.path, q, walk_for) (walk_for-first id vs ps h.1)
  ]
]

search-first :
    (fs : FileSystem) (id : Bytes)
    → ((base : Bytes) → All (λ v. v.path ≢ []) (fs.walk base))
    → (bases : List Bytes) → search fs id bases ≡ first (contains (take 12 id)) (visited fs bases)
unfolding search
search-first fs id h [] = refl
search-first fs id h (base ∷ bases) = elim (Bool-cases (fs.exists base)) [
  | inl e ↦
      rw (e, search-first fs id h bases)
        (walk_for-first id (fs.walk base) (visited fs bases) (h base))
  | inr e ↦ rw (e, search) (search-first fs id h bases)
]

-- The search finds, of the paths of the three slices that are visited without error, the first that
-- contains the first twelve bytes of the identifier (all of a shorter one), if no path of a walk is
-- empty.
pub find_cgroup_path-first :
    (fs : FileSystem) (id : Bytes)
    → ((base : Bytes) → All (λ v. v.path ≢ []) (fs.walk base))
    → find_cgroup_path fs id ≡ first (contains (take 12 id)) (visited fs cgroup_bases)
unfolding find_cgroup_path
find_cgroup_path-first fs id h = search-first fs id h cgroup_bases
