-- ===== src/Strings/FilePath.antt =====
-- `filepath.Join` of Go on a system with slashes.
use mathlib.Core.List.{reverse}
use podtrace.Prelude.{Bool, ◌≢◌, ◌||◌, List, [], ◌∷◌, ◌++◌, if◌then◌else◌, arith}
use podtrace.Strings.{Bytes, codes, bytes_eq, has_prefix, is_empty, split_byte}

-- Parts with slashes between them.
abbrev pub join_slash : List Bytes → Bytes
join_slash [] = []
join_slash (p ∷ []) = p
join_slash (p ∷ q ∷ ps) = p ++ b'/' ∷ join_slash (q ∷ ps)

-- `..`: back to the folder above, if there is one to leave; the last part stands first.
abbrev pub go_back : Bool → List Bytes → List Bytes
go_back rooted [] = if rooted then [] else codes ".." ∷ []
go_back rooted (p ∷ ps) = if bytes_eq p (codes "..") then codes ".." ∷ p ∷ ps else ps

-- The parts that count, the last one first: empty parts and `.` do not.
unfoldable pub clean_onto : Bool → List Bytes → List Bytes → List Bytes
clean_onto rooted acc [] = acc
clean_onto rooted acc (p ∷ ps) =
    let next =
      if is_empty p || bytes_eq p (codes ".")
      then acc
      else if bytes_eq p (codes "..")
      then go_back rooted acc
      else p ∷ acc in
    clean_onto rooted next ps

-- `filepath.Clean`
unfoldable pub clean : Bytes → Bytes
clean path =
    let rooted = has_prefix (codes "/") path in
    let short = join_slash (reverse (clean_onto rooted [] (split_byte b'/' path))) in
    if rooted then b'/' ∷ short else if is_empty short then codes "." else short

unfoldable pub not_empty : List Bytes → List Bytes
not_empty [] = []
not_empty (p ∷ ps) = let rest = not_empty ps in if is_empty p then rest else p ∷ rest

-- `filepath.Join`
unfoldable pub join : List Bytes → Bytes
join elems = let path = join_slash (not_empty elems) in if is_empty path then [] else clean path

-- A cleaned path is never empty.
pub clean-ne-nil : (path : Bytes) → clean path ≢ []
unfolding clean
clean-ne-nil path = ground arith
