-- ===== src/ProcName/Parse.antt =====
-- What is read from the files of a process.
use podtrace.Prelude.{
  ℕ, suc, ◌≡◌, ◌≢◌, refl, ap, ◌∙◌, true, false, none, some, [], ◌∷◌, ◌++◌, ltb, length, drop,
  take-append, length-append, All-append, append_assoc, sym, arith, Option-cases, inl, inr,
}
use podtrace.Strings.{Bytes, is_empty, index_byte, last_index_byte}
use podtrace.Strings.Laws.{Lacks, last_index_byte-none, last_index_byte-drop, split_byte-append}
use podtrace.ProcName.{base_name, between, from_stat, from_cmdline}

-- No base name holds a slash.
pub base_name-Lacks : (s : Bytes) → Lacks b'/' (base_name s)
unfolding base_name
base_name-Lacks s = elim (Option-cases (last_index_byte b'/' s)) [
  | inl e ↦ rw (e, base_name) (last_index_byte-none b'/' s e)
  | inr (i, e) ↦ rw (e, base_name) (last_index_byte-drop b'/' s i e)
]

index_byte-append :
    (b : ℕ) (front rest : Bytes)
    → Lacks b front
    → index_byte b (front ++ b ∷ rest) ≡ some (length front)
unfolding index_byte
index_byte-append b [] rest h = ground arith
index_byte-append b (c ∷ front) rest h = ground (arith, index_byte-append b front rest h.1)

last_index_byte-Lacks : (b : ℕ) (s : Bytes) → Lacks b s → last_index_byte b s ≡ none
unfolding last_index_byte
last_index_byte-Lacks b [] h = refl
last_index_byte-Lacks b (c ∷ s) h = ground (arith, last_index_byte-Lacks b s h.1)

last_index_byte-append :
    (b : ℕ) (front rest : Bytes)
    → Lacks b rest
    → last_index_byte b (front ++ b ∷ rest) ≡ some (length front)
unfolding last_index_byte
last_index_byte-append b [] rest h = ground (arith, last_index_byte-Lacks b rest h)
last_index_byte-append b (c ∷ front) rest h = ground (arith, last_index_byte-append b front rest h)

drop_behind : (b : ℕ) (front rest : Bytes) → drop (suc (length front)) (front ++ b ∷ rest) ≡ rest
drop_behind b [] rest = refl
drop_behind b (c ∷ front) rest = drop_behind b front rest

between_lem :
    (front name rest : Bytes)
    → between
        (front ++ b'(' ∷ (name ++ b')' ∷ rest))
        (some (length front))
        (some (length (front ++ b'(' ∷ name)))
      ≡ name
unfolding between
between_lem front name rest =
    let len = length-append front (b'(' ∷ name) in
    let order : ltb (length front) (length (front ++ b'(' ∷ name)) ≡ true = ground arith in
    rw (order, drop_behind b'(' front (name ++ b')' ∷ rest))
      (take-append name (b')' ∷ rest) _ (omega arith))

is_empty-append : (s : Bytes) (c : ℕ) (rest : Bytes) → is_empty (s ++ c ∷ rest) ≡ false
is_empty-append [] c rest = refl
is_empty-append (d ∷ s) c rest = refl

base_name-append :
    (folder name : Bytes) → Lacks b'/' name → base_name (folder ++ b'/' ∷ name) ≡ name
unfolding base_name
base_name-append folder name h =
    rw (last_index_byte-append b'/' folder name h, base_name) (drop_behind b'/' folder name)

-- The name in a stat line is found whole, parentheses of its own included, if nothing before it
-- holds an opening one and nothing after it a closing one.
pub from_stat_lem :
    (front name rest : Bytes)
    → Lacks b'(' front
    → Lacks b')' rest
    → from_stat (front ++ b'(' ∷ (name ++ b')' ∷ rest)) ≡ name
unfolding from_stat
from_stat_lem front name rest h k =
    let regroup = append_assoc front (b'(' ∷ name) (b')' ∷ rest) in
    rw
      (
        index_byte-append b'(' front (name ++ b')' ∷ rest) h,
        ap (last_index_byte b')') (sym regroup)
            ∙ last_index_byte-append b')' (front ++ b'(' ∷ name) rest k,
      )
      (between_lem front name rest)

-- A command line whose first argument is a path gives the last part of the path, whatever arguments
-- follow.
pub from_cmdline_lem :
    (folder name rest : Bytes)
    → Lacks 0 folder
    → Lacks 0 name
    → Lacks b'/' name
    → from_cmdline (folder ++ b'/' ∷ (name ++ 0 ∷ rest)) ≡ name
unfolding from_cmdline
from_cmdline_lem folder name rest h k l =
    let first = folder ++ b'/' ∷ name in
    let whole : Lacks 0 first = All-append (λ c. c ≢ 0) folder (b'/' ∷ name) h (omega arith, k) in
    let regroup : folder ++ b'/' ∷ (name ++ 0 ∷ rest) ≡ first ++ 0 ∷ rest =
      sym (append_assoc folder (b'/' ∷ name) (0 ∷ rest)) in
    rw
      (
        regroup,
        split_byte-append 0 first rest whole,
        from_cmdline,
        is_empty-append folder b'/' name,
      )
      (base_name-append folder name l)
