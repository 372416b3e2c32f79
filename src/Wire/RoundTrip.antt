-- ===== src/Wire/RoundTrip.antt =====
-- Reading back what the kernel program writes, and which data are refused.
use native.Mathlib.Nat.{pow-suc}
use podtrace.Prelude.{
  ℕ, zero, suc, ◌-◌, ◌/◌, ◌^◌, ◌≤◌, ◌<◌, ◌≡◌, refl, false, some, [], ◌++◌, length, replicate,
  take-append, drop-append, length-append, length-replicate, append_assoc, arith, ◌∙◌, sym, ap,
}
use podtrace.Prelude.Int.{ℤ, pos, negsuc, pos_part, neg_part}
use podtrace.Strings.{Bytes, has_suffix_byte}
use podtrace.Strings.Laws.{trim_right_keeps, trim_right-append}
use podtrace.Event.{Event}
use podtrace.Wire.{
  read_uint, to_int32, text_field, read_record, binary_read, parse_event, write_uint, of_int32,
  write_text, write_event,
}

read_uint-write_uint : (w n : ℕ) → n < 256 ^ w → read_uint (write_uint w n) ≡ n
unfolding read_uint write_uint
read_uint-write_uint zero n h = omega arith
read_uint-write_uint (suc w) n h =
    omega (arith, pow-suc 256 w, read_uint-write_uint w (n / 256) (omega (arith, pow-suc 256 w)))

length-write_uint : (w n : ℕ) → length (write_uint w n) ≡ w
unfolding write_uint
length-write_uint zero n = refl
length-write_uint (suc w) n = omega (arith, length-write_uint w (n / 256))

-- An `int32`.
abbrev pub IsInt32 : ℤ → Type 0
IsInt32 z = (pos_part z < 2 ^ 31) × (neg_part z ≤ 2 ^ 31)

to_int32-of_int32 : (z : ℤ) → IsInt32 z → to_int32 (of_int32 z) ≡ z
unfolding to_int32 of_int32
to_int32-of_int32 (pos n) h = ground arith
to_int32-of_int32 (negsuc n) h = ground arith

of_int32-lt : (z : ℤ) → IsInt32 z → of_int32 z < 2 ^ 32
unfolding of_int32
of_int32-lt (pos n) h = omega arith
of_int32-lt (negsuc n) h = omega arith

-- A text that fits the array and does not end in a NUL.
abbrev pub IsText : Bytes → Type 0
IsText s = (length s ≤ 64) × (has_suffix_byte 0 s ≡ false)

length-write_text : (s : Bytes) → length s ≤ 64 → length (write_text s) ≡ 64
unfolding write_text
length-write_text s h = omega (
  arith,
  length-append {0} s (replicate (64 - length s) 0),
  length-replicate {0} {A = ℕ} (64 - length s) 0,
)

text_field-write_text : (s : Bytes) → IsText s → text_field (write_text s) ≡ s
unfolding write_text
text_field-write_text s h = trim_right-append 0 (64 - length s) s ∙ trim_right_keeps 0 s h.1

-- Seven fields of the right widths, and anything behind them.
read_record-append :
    (a b c d e f g rest : Bytes)
    → length a ≡ 8
    → length b ≡ 4
    → length c ≡ 4
    → length d ≡ 8
    → length e ≡ 4
    → length f ≡ 64
    → length g ≡ 64
    → read_record (a ++ (b ++ (c ++ (d ++ (e ++ (f ++ (g ++ rest))))))) ≡ record {
      timestamp = read_uint a;
      pid = read_uint b;
      process_name = [];
      type = read_uint c;
      latency_ns = read_uint d;
      error = to_int32 (read_uint e);
      target = text_field f;
      details = text_field g;
    }
unfolding read_record
read_record-append a b c d e f g rest ha hb hc hd he hf hg = rw (
  drop-append a _ 8 ha,
  take-append a _ 8 ha,
  drop-append b _ 4 hb,
  take-append b _ 4 hb,
  drop-append c _ 4 hc,
  take-append c _ 4 hc,
  drop-append d _ 8 hd,
  take-append d _ 8 hd,
  drop-append e _ 4 he,
  take-append e _ 4 he,
  drop-append f _ 64 hf,
  take-append f _ 64 hf,
  take-append g rest 64 hg,
)

-- The widths of the fields of `struct event`. The kernel writes no process name.
pub record IsKernelEvent (e : Event) : Type 0 where
  pub timestamp_lt : e.timestamp < 2 ^ 64
  pub pid_lt : e.pid < 2 ^ 32
  pub type_lt : e.type < 2 ^ 32
  pub latency_lt : e.latency_ns < 2 ^ 64
  pub error_int32 : IsInt32 e.error
  pub target_text : IsText e.target
  pub details_text : IsText e.details
  pub unnamed : e.process_name ≡ []

read_record-write_event :
    (e : Event) (rest : Bytes) → IsKernelEvent e → read_record (write_event e ++ rest) ≡ e
unfolding write_event
read_record-write_event e rest w = simp append_assoc (
    read_record-append (write_uint 8 e.timestamp) (write_uint 4 e.pid) (write_uint 4 e.type)
      (write_uint 8 e.latency_ns) (write_uint 4 (of_int32 e.error)) (write_text e.target)
      (write_text e.details) rest (length-write_uint 8 _) (length-write_uint 4 _)
      (length-write_uint 4 _) (length-write_uint 8 _) (length-write_uint 4 _)
      (length-write_text e.target w.target_text.0) (length-write_text e.details w.details_text.0)
    ∙ fields)
  where
    fields :
        ◌≡◌ {A = Event}
          (record {
            timestamp = read_uint (write_uint 8 e.timestamp);
            pid = read_uint (write_uint 4 e.pid);
            process_name = [];
            type = read_uint (write_uint 4 e.type);
            latency_ns = read_uint (write_uint 8 e.latency_ns);
            error = to_int32 (read_uint (write_uint 4 (of_int32 e.error)));
            target = text_field (write_text e.target);
            details = text_field (write_text e.details);
          })
          e
    fields = λ i. record {
      timestamp = read_uint-write_uint 8 e.timestamp w.timestamp_lt i;
      pid = read_uint-write_uint 4 e.pid w.pid_lt i;
      process_name = sym w.unnamed i;
      type = read_uint-write_uint 4 e.type w.type_lt i;
      latency_ns = read_uint-write_uint 8 e.latency_ns w.latency_lt i;
      error =
          (ap to_int32
                (read_uint-write_uint 4 (of_int32 e.error) (of_int32-lt e.error w.error_int32))
              ∙ to_int32-of_int32 e.error w.error_int32)
            i;
      target = text_field-write_text e.target w.target_text i;
      details = text_field-write_text e.details w.details_text i;
    }

length-write_event : (e : Event) → IsKernelEvent e → length (write_event e) ≡ 156
unfolding write_event
length-write_event e w = omega (
  arith,
  length-append {0} {A = ℕ},
  length-write_uint,
  length-write_text e.target w.target_text.0,
  length-write_text e.details w.details_text.0,
)

-- An event that the kernel program wrote, with fields of their widths and texts that fit and end in
-- no NUL, is parsed back whole, whatever stands behind the struct.
pub parse_event-write_event :
    (e : Event) (rest : Bytes) → IsKernelEvent e → parse_event (write_event e ++ rest) ≡ some e
unfolding parse_event binary_read
parse_event-write_event e rest w = ground (
  arith,
  length-append (write_event e) rest,
  length-write_event e w,
  read_record-write_event e rest w,
)
