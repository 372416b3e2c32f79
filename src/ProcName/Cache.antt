-- ===== src/ProcName/Cache.antt =====
-- What the cache of process names keeps.
use podtrace.Prelude.{ℕ, ◌≡◌, ◌∙◌, some, List, [], ◌∷◌, ◌==◌, if◌then◌else◌, arith}
use podtrace.Strings.{Bytes}
use podtrace.ProcName.{ProcFs, Cache, cached, get_process_name_quick}

-- A lookup of a name changes the cache entry of no other process, and stores what it returns.
pub get_process_name_quick_entry :
    (fs : ProcFs) (c : Cache) (pid other : ℕ)
    → let (name, c') = get_process_name_quick fs c pid in
      cached c' other ≡ (if pid == other then some name else cached c other)
unfolding get_process_name_quick cached
get_process_name_quick_entry fs c pid other = ground arith

-- The cache after some lookups, each with the files as they then are.
unfoldable pub after_lookups : List (ProcFs × ℕ) → Cache → Cache
after_lookups [] c = c
after_lookups ((fs, pid) ∷ ls) c = after_lookups ls (get_process_name_quick fs c pid).1

cached_stays :
    (fs : ProcFs) (c : Cache) (pid other : ℕ) (name : Bytes)
    → cached c pid ≡ some name
    → cached (get_process_name_quick fs c other).1 pid ≡ some name
unfolding get_process_name_quick cached
cached_stays fs c pid other name h = ground arith

after_lookups-cached :
    (ls : List (ProcFs × ℕ)) (c : Cache) (pid : ℕ) (name : Bytes)
    → cached c pid ≡ some name
    → cached (after_lookups ls c) pid ≡ some name
unfolding after_lookups
after_lookups-cached [] c pid name h = h
after_lookups-cached ((fs, other) ∷ ls) c pid name h =
    after_lookups-cached ls (get_process_name_quick fs c other).1 pid name
      (cached_stays fs c pid other name h)

from_cache :
    (fs : ProcFs) (c : Cache) (pid : ℕ) (name : Bytes)
    → cached c pid ≡ some name
    → get_process_name_quick fs c pid ≡ (name, c)
unfolding get_process_name_quick
from_cache fs c pid name h = ground arith

stored :
    (fs : ProcFs) (c : Cache) (pid : ℕ)
    → cached (get_process_name_quick fs c pid).1 pid ≡ some (get_process_name_quick fs c pid).0
stored fs c pid = get_process_name_quick_entry fs c pid pid ∙ ground arith

-- The first name found for a process number stays, after any lookups of any process numbers and
-- whatever the files say later.
pub get_process_name_quick_sticky :
    (fs fs' : ProcFs) (c : Cache) (pid : ℕ) (ls : List (ProcFs × ℕ))
    → let (name, c') = get_process_name_quick fs c pid in
      get_process_name_quick fs' (after_lookups ls c') pid ≡ (name, after_lookups ls c')
get_process_name_quick_sticky fs fs' c pid ls =
    let (name, c') = get_process_name_quick fs c pid in
    from_cache fs' (after_lookups ls c') pid name
      (after_lookups-cached ls c' pid name (stored fs c pid))
