-- ===== src/Tracer/Memlock.antt =====
-- The beginning of `NewTracer` in internal/ebpf/tracer.go: the dumpable flag and the limit on locked
-- memory. No failure here ends it.
use podtrace.Prelude.{
  ℕ, ◌*◌, ◌≤◌, ◌<◌, ◌≡◌, ◌∙◌, Bool, true, false, ◌&&◌, Option, none, some, List, [], ◌∷◌, ◌++◌, ltb,
  leb, if◌then◌else◌, length, All, arith, Bool-cases, inl, inr,
}

-- `unix.Rlimit`: the soft limit and the hard one.
pub record Rlimit : Type 0 where
  pub cur : ℕ
  pub max : ℕ

-- The answers of the kernel, and of `rlimit.RemoveMemlock`: whether a call succeeds.
pub record Limits : Type 0 where
  pub set_dumpable : Bool
  pub get_rlimit : Option Rlimit
  pub set_rlimit : Rlimit → Bool
  pub remove_memlock : Bool

pub data Warning : Type 0 where
  not_dumpable : Warning
  not_raised : Warning
  not_removed : Warning

-- The limits that are asked for, the one that `Setrlimit` has set, whether `rlimit.RemoveMemlock` has
-- been called and has succeeded, and the warnings.
pub record Preparation : Type 0 where
  pub requests : List Rlimit
  pub set : Option Rlimit
  pub removed : Bool
  pub warnings : List Warning

-- 512 MB
abbrev pub wanted_memlock : ℕ
wanted_memlock = 512 * 1024 * 1024

abbrev pub warn_unless : Bool → Warning → List Warning
warn_unless ok w = if ok then [] else w ∷ []

abbrev pub raised_max : ℕ → ℕ
raised_max max = if ltb max wanted_memlock then wanted_memlock else max

-- The two attempts for a soft limit that is too low. The second one asks for the hard limit as it
-- was raised for the first.
unfoldable pub raise_limit : Limits → Rlimit → Preparation
raise_limit k rlim =
    let max = raised_max rlim.max in
    let first : Rlimit = record { cur = wanted_memlock; max = max } in
    let second : Rlimit = record { cur = max; max = max } in
    if k.set_rlimit first
    then record { requests = first ∷ []; set = some first; removed = false; warnings = [] }
    else if k.set_rlimit second
    then record {
      requests = first ∷ second ∷ [];
      set = some second;
      removed = false;
      warnings = [];
    }
    else record {
      requests = first ∷ second ∷ [];
      set = none;
      removed = k.remove_memlock;
      warnings = warn_unless k.remove_memlock not_raised;
    }

unfoldable pub raise_memlock : Limits → Preparation
raise_memlock k = elim k.get_rlimit [
  | none ↦ record {
    requests = [];
    set = none;
    removed = k.remove_memlock;
    warnings = warn_unless k.remove_memlock not_removed;
  }
  | some rlim ↦
      if ltb rlim.cur wanted_memlock
      then raise_limit k rlim
      else record { requests = []; set = none; removed = false; warnings = [] }
]

unfoldable pub prepare : Limits → Preparation
prepare k =
    let p = raise_memlock k in
    record p { warnings = warn_unless k.set_dumpable not_dumpable ++ p.warnings }

-- A request that the code may make: enough memory, a soft limit within the hard one, and a hard
-- limit that is not lowered.
abbrev pub IsSound : Rlimit → Rlimit → Type 0
IsSound old q = (wanted_memlock ≤ q.cur) × (q.cur ≤ q.max) × (old.max ≤ q.max)

raise_limit-IsSound : (k : Limits) (old : Rlimit) → All (IsSound old) (raise_limit k old).requests
unfolding raise_limit
raise_limit-IsSound k old = elim (Bool-cases (k.set_rlimit first)) [
  | inl e ↦ rw (e, raise_limit) (sound_first, tt)
  | inr e ↦ elim (Bool-cases (k.set_rlimit second)) [
    | inl f ↦ rw (e, f, raise_limit) (sound_first, (sound_second, tt))
    | inr f ↦ rw (e, f, raise_limit) (sound_first, (sound_second, tt))
  ]
]
  where
    first : Rlimit
    first = record { cur = wanted_memlock; max = raised_max old.max }

    second : Rlimit
    second = record { cur = raised_max old.max; max = raised_max old.max }

    sound_first : IsSound old first
    sound_first = (ground arith, ground arith, ground arith)

    sound_second : IsSound old second
    sound_second = (ground arith, ground arith, ground arith)

-- If the limit on locked memory can be read, every limit that is asked for has a soft limit of at
-- least 512 MB that is within its hard limit, and the hard limit is never lowered.
pub prepare-IsSound :
    (k : Limits) (old : Rlimit) → k.get_rlimit ≡ some old → All (IsSound old) (prepare k).requests
unfolding prepare raise_memlock raise_limit
prepare-IsSound k old e = elim (Bool-cases (ltb old.cur wanted_memlock)) [
  | inl low ↦ rw (e, low, raise_memlock) (raise_limit-IsSound k old)
  | inr low ↦ rw (e, low, raise_memlock) tt
]

-- The answer to a process without privileges: the hard limit cannot be raised, the soft limit not
-- above the hard one.
abbrev pub is_allowed : Rlimit → Rlimit → Bool
is_allowed old q = leb q.cur q.max && leb q.max old.max

all_refused :
    (k : Limits) (old : Rlimit) (qs : List Rlimit)
    → ((q : Rlimit) → k.set_rlimit q ≡ is_allowed old q)
    → old.max < wanted_memlock
    → All (IsSound old) qs
    → All (λ q. k.set_rlimit q ≡ false) qs
all_refused k old [] rule low h = tt
all_refused k old (q ∷ qs) rule low h =
    (rule q ∙ ground (arith, h.0.0, h.0.1), all_refused k old qs rule low h.1)

raise_limit-some : (k : Limits) (old : Rlimit) → 0 < length (raise_limit k old).requests
unfolding raise_limit
raise_limit-some k old = ground arith

-- If both limits on locked memory are below 512 MB, the soft one below the hard one, and the kernel
-- grants just the limits whose hard part is not raised and whose soft part is within it, then
-- requests are made and all of them are refused, although the kernel would grant the old hard limit
-- as the soft one.
pub prepare_refused :
    (k : Limits) (old : Rlimit)
    → k.get_rlimit ≡ some old
    → ((q : Rlimit) → k.set_rlimit q ≡ is_allowed old q)
    → old.cur < old.max
    → old.max < wanted_memlock
    → All (λ q. k.set_rlimit q ≡ false) (prepare k).requests
      × (0 < length (prepare k).requests)
      × (k.set_rlimit (record { cur = old.max; max = old.max }) ≡ true)
unfolding prepare raise_memlock raise_limit
prepare_refused k old e rule low hard =
    let is_low : ltb old.cur wanted_memlock ≡ true = ground arith in
    (
      all_refused k old (prepare k).requests rule hard (prepare-IsSound k old e),
      rw (e, is_low) (raise_limit-some k old),
      rule (record { cur = old.max; max = old.max }) ∙ ground arith,
    )
