-- ===== src/Diagnose/Report/There.antt =====
-- Which parts of a report are there.
use podtrace.Prelude.{
  ℕ, ◌<◌, ◌≡◌, refl, Bool, true, false, not, Option, none, some, List, [], ◌∷◌, ◌==◌, length, arith,
}
use podtrace.Float.{Float}
use podtrace.Event.{Event}
use podtrace.Diagnose.Window.Bursts.{rate_of}
use podtrace.Diagnose.Report.{Section, section_of}

-- The events of a part; one that is missing has none.
abbrev pub events_in : {F S : Type 0} → Option (Section F S) → ℕ
events_in none = 0
events_in (some s) = s.count

abbrev pub is_there : {A : Type 0} → Option A → Bool
is_there none = false
is_there (some a) = true

-- A part is there if some events are.
abbrev pub IsThere : {A : Type 0} → Option A → List Event → Type 0
IsThere o es = is_there o ≡ not (length es == 0)

-- A part on events: it is there if they are, and on all of them.
abbrev pub IsOn : {F S : Type 0} → Option (Section F S) → List Event → Type 0
IsOn o es = (events_in o ≡ length es) × IsThere o es

pub some_event : (e : Event) (es : List Event) → (length (e ∷ es) == 0) ≡ false
some_event e es = ground arith

-- What is known of the figures of a part.
abbrev pub Has : {F S : Type 0} → (S → Type 0) → Option (Section F S) → Type 0
Has P none = Unit {0}
Has P (some s) = P s.stats

-- Nothing is recorded of them.
abbrev pub Any : {S : Type 0} → S → Type 0
Any s = Unit {0}

module _ {F : Type 0} ⦃f : Float F⦄ where
  pub section_of-some :
      {S : Type 0} (P : S → Type 0) (analyze : List Event → Option S) (duration : ℕ)
      (es : List Event)
      → (0 < length es → (s : S) × (analyze es ≡ some s) × P s)
      → (o : Option (Section F S)) × (section_of analyze duration es ≡ some o) × IsOn o es × Has P o
  unfolding section_of
  section_of-some P analyze duration [] h = (none, refl, (refl, refl), tt)
  section_of-some P analyze duration (e ∷ es) h =
      let (s, q, known) = h (omega arith) in
      (
        some (record {
          count = length (e ∷ es);
          per_sec = rate_of (length (e ∷ es)) duration;
          stats = s;
        }),
        rw (q, some_event e es),
        (refl, rw (some_event e es)),
        known,
      )
