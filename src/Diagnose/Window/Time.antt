-- ===== src/Diagnose/Window/Time.antt =====
-- Times and durations, in nanoseconds. The start and the end of the period are readings of the
-- clock, an event's time comes from a `uint64`, and differences are saturated `int64`s.
use podtrace.Prelude.{
  ℕ, ◌-◌, ◌^◌, ◌≤◌, ◌≡◌, refl, Bool, ◌&&◌, List, [], ◌∷◌, ltb, if◌then◌else◌, count_if, All, arith,
}
use podtrace.Prelude.Int.{ℤ, pos, negsuc, pos_part, ◌-ℤ◌, ltb_ℤ}
use podtrace.Event.{Event}

-- `time.Unix(0, int64(e.Timestamp))`
unfoldable pub event_time : Event → ℤ
event_time e =
    if ltb e.timestamp (2 ^ 63) then pos e.timestamp else negsuc (2 ^ 64 - 1 - e.timestamp)

-- `t.Sub(u)`: saturated at the ends of `int64`.
unfoldable pub sub_time : ℤ → ℤ → ℤ
sub_time t u =
    let d = t -ℤ u in
    if ltb_ℤ d (negsuc (2 ^ 63 - 1))
    then negsuc (2 ^ 63 - 1)
    else if ltb_ℤ (pos (2 ^ 63 - 1)) d
    then pos (2 ^ 63 - 1)
    else d

-- `t.After(start) && t.Before(end)`, for readings of the clock
abbrev pub is_inside : ℕ → ℕ → Event → Bool
is_inside start end e = ltb_ℤ (pos start) (event_time e) && ltb_ℤ (event_time e) (pos end)

-- The loop that counts the events inside a window.
abbrev pub count_inside : ℕ → ℕ → List Event → ℕ
count_inside start end = count_if (is_inside start end)

abbrev pub one_second : ℕ
one_second = 1_000_000_000

-- The event's time does not lie behind a reading of the clock.
abbrev pub IsBefore : ℕ → Event → Type 0
IsBefore now e = pos_part (event_time e) ≤ now

-- A timestamp that counts from the boot, as the kernel's does, lies before every reading.
pub IsBefore-of_small : (now : ℕ) (e : Event) → e.timestamp ≤ now → IsBefore now e
unfolding event_time
IsBefore-of_small now e h = ground arith

pub count_inside_before :
    (start end : ℕ) (es : List Event) → All (IsBefore start) es → count_inside start end es ≡ 0
count_inside_before start end [] h = refl
count_inside_before start end (e ∷ es) h = ground (arith, count_inside_before start end es h.1)
