-- ===== src/Diagnose/Window/Bursts/Laws.antt =====
-- The seconds that `detectBursts` of internal/diagnose/diagnose.go looks at, and windows of any
-- length.
use podtrace.Prelude.{
  ℕ, zero, suc, ◌+◌, ◌≤◌, ◌≡◌, refl, false, List, [], ◌∷◌, length, arith, Bool-cases, inl, inr,
}
use podtrace.Prelude.Int.{pos, ltb_ℤ}
use podtrace.Event.{Event}
use podtrace.Diagnose.Window.Time.{event_time, is_inside, count_inside}

-- The events inside the windows of a length that follow one another from a start.
abbrev pub windows_total : List Event → ℕ → ℕ → ℕ → ℕ
windows_total es window zero start = 0
windows_total es window (suc left) start =
    count_inside start (start + window) es + windows_total es window left (start + window)

-- An event that is not behind the start is inside none of them.
no_window :
    (e : Event) (window left start : ℕ)
    → ltb_ℤ (pos start) (event_time e) ≡ false
    → windows_total (e ∷ []) window left start ≡ 0
no_window e window zero start h = refl
no_window e window (suc left) start h =
    ground (arith, no_window e window left (start + window) (ground arith))

one_window : (e : Event) (window left start : ℕ) → windows_total (e ∷ []) window left start ≤ 1
one_window e window zero start = omega arith
one_window e window (suc left) start = elim (Bool-cases (is_inside start (start + window) e)) [
  | inl q ↦ rw q (omega (arith, no_window e window left (start + window) (ground arith)))
  | inr q ↦ rw q (omega (arith, one_window e window left (start + window)))
]

windows_total-cons :
    (e : Event) (es : List Event) (window left start : ℕ)
    → windows_total (e ∷ es) window left start
      ≡ windows_total (e ∷ []) window left start + windows_total es window left start
windows_total-cons e es window zero start = omega arith
windows_total-cons e es window (suc left) start =
    omega (arith, windows_total-cons e es window left (start + window))

-- However many windows of whatever length are counted, no event is counted twice.
pub windows_total-le :
    (es : List Event) (window left start : ℕ) → windows_total es window left start ≤ length es
windows_total-le [] window zero start = omega arith
windows_total-le [] window (suc left) start =
    omega (arith, windows_total-le [] window left (start + window))
windows_total-le (e ∷ es) window left start = omega (
  arith,
  windows_total-cons e es window left start,
  one_window e window left start,
  windows_total-le es window left start,
)
