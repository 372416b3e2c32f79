-- ===== src/Diagnose/Report/Text/Outline.antt =====
-- The outline of a text: its headings, which are the strings that begin with neither a space nor a
-- line feed, and a bound on the number of its strings.
use podtrace.Prelude.{
  ℕ, suc, ◌+◌, ◌≤◌, ◌≡◌, refl, ◌∙◌, Bool, true, false, not, ◌||◌, ◌==◌, Option, none, some, List,
  [], ◌∷◌, ◌++◌, map, length, length-append, length-take, take, if◌then◌else◌, arith,
}
use podtrace.Strings.{Bytes}
use podtrace.Diagnose.Report.Text.Lines.{when, when_any}

abbrev pub is_heading : Bytes → Bool
is_heading [] = false
is_heading (c ∷ s) = not (c == b' ' || c == b'\n')

abbrev pub headings : List Bytes → List Bytes
headings [] = []
headings (l ∷ ls) = if is_heading l then l ∷ headings ls else headings ls

pub record Outline (titles : List Bytes) (n : ℕ) (text : List Bytes) : Type 0 where
  pub names : headings text ≡ titles
  pub bound : length text ≤ n

headings-append : (xs ys : List Bytes) → headings (xs ++ ys) ≡ headings xs ++ headings ys
headings-append [] ys = refl
headings-append (x ∷ xs) ys = ground (arith, headings-append xs ys)

pub empty : Outline [] 0 []
empty = record { names = refl; bound = omega arith }

pub title :
    {titles : List Bytes} {n : ℕ} {text : List Bytes} (l : Bytes)
    → is_heading l ≡ true
    → Outline titles n text
    → Outline (l ∷ titles) (suc n) (l ∷ text)
title l h o = record { names = rw (h, o.names); bound = omega (arith, o.bound) }

pub line :
    {titles : List Bytes} {n : ℕ} {text : List Bytes} (l : Bytes)
    → is_heading l ≡ false
    → Outline titles n text
    → Outline titles (suc n) (l ∷ text)
line l h o = record { names = rw (h, o.names); bound = omega (arith, o.bound) }

pub joined :
    {ts us : List Bytes} {m n : ℕ} {xs ys : List Bytes}
    → Outline ts m xs
    → Outline us n ys
    → Outline (ts ++ us) (m + n) (xs ++ ys)
joined {xs = xs} {ys} o q = record {
  names = headings-append xs ys ∙ rw (o.names, q.names);
  bound = omega (arith, o.bound, q.bound, length-append xs ys);
}

pub rows :
    {A : Type 0} (row : A → Bytes) (items : List A)
    → ((a : A) → is_heading (row a) ≡ false)
    → Outline [] (length items) (map row items)
rows row [] h = empty
rows row (a ∷ items) h = line (row a) (h a) (rows row items h)

pub at_most :
    {titles : List Bytes} (m n : ℕ) {text : List Bytes}
    → m ≤ n
    → Outline titles m text
    → Outline titles n text
at_most m n h o = record { names = o.names; bound = omega (arith, o.bound) }

pub rows_taken :
    {A : Type 0} (row : A → Bytes) (n : ℕ) (items : List A)
    → ((a : A) → is_heading (row a) ≡ false)
    → Outline [] n (map row (take n items))
rows_taken row n items h =
    at_most (length (take n items)) n (omega (arith, length-take n items))
      (rows row (take n items) h)

-- Text that stands only for a list that is not empty.
pub any_lines :
    {A : Type 0} (items : List A) {n : ℕ} {text : List Bytes}
    → Outline [] n text
    → Outline [] n (when_any items text)
any_lines [] o = record { names = refl; bound = omega arith }
any_lines (a ∷ items) o = o

-- The titles of such text.
abbrev pub any_title : {A : Type 0} → List A → List Bytes → List Bytes
any_title [] titles = []
any_title (a ∷ items) titles = titles

pub any_part :
    {A : Type 0} (items : List A) {titles : List Bytes} {n : ℕ} {text : List Bytes}
    → Outline titles n text
    → Outline (any_title items titles) n (when_any items text)
any_part [] o = record { names = refl; bound = omega arith }
any_part (a ∷ items) o = o

abbrev pub some_title : {A : Type 0} → Option A → List Bytes → List Bytes
some_title none titles = []
some_title (some a) titles = titles

pub some_part :
    {A : Type 0} (o : Option A) (text : A → List Bytes) {titles : List Bytes} {n : ℕ}
    → ((a : A) → Outline titles n (text a))
    → Outline (some_title o titles) n (when o text)
some_part none text h = record { names = refl; bound = omega arith }
some_part (some a) text h = h a

pub if_lines :
    (b : Bool) {n : ℕ} {text : List Bytes}
    → Outline [] n text
    → Outline [] n (if b then text else [])
if_lines true o = o
if_lines false o = record { names = refl; bound = omega arith }
