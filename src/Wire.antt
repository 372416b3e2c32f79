-- ===== src/Wire.antt =====
-- `parseEvent` of internal/ebpf/tracer.go, and the layout of `struct event` in bpf/podtrace.bpf.c.
pub mod RoundTrip
use podtrace.Prelude.{
  ℕ, zero, suc, ◌+◌, ◌-◌, ◌*◌, ◌/◌, ◌%◌, ◌^◌, Option, none, some, List, [], ◌∷◌, ◌++◌, ltb,
  if◌then◌else◌, length, take, drop, replicate,
}
use podtrace.Prelude.Int.{ℤ, pos, negsuc}
use podtrace.Strings.{Bytes, trim_right}
use podtrace.Strings.Laws.{is_byte}
use podtrace.Event.{Event}

-- A little-endian number of as many bytes as the list has.
unfoldable pub read_uint : Bytes → ℕ
read_uint [] = 0
read_uint (b ∷ bs) = b + 256 * read_uint bs

-- Two's complement of 32 bits.
unfoldable pub to_int32 : ℕ → ℤ
to_int32 n = if ltb n (2 ^ 31) then pos n else negsuc (2 ^ 32 - 1 - n)

-- `binary.Size` of the struct that `parseEvent` reads: 8 + 4 + 4 + 8 + 4 + 64 + 64.
abbrev pub record_size : ℕ
record_size = 156

-- `string(bytes.TrimRight(field, "\x00"))`
abbrev pub text_field : Bytes → Bytes
text_field = trim_right (is_byte 0)

-- The fields in their order; `binary.Read` has made sure that the bytes are there.
unfoldable pub read_record : Bytes → Event
read_record raw =
    let at_pid = drop 8 raw in
    let at_type = drop 4 at_pid in
    let at_latency = drop 4 at_type in
    let at_error = drop 8 at_latency in
    let at_target = drop 4 at_error in
    let at_details = drop 64 at_target in
    record {
      timestamp = read_uint (take 8 raw);
      pid = read_uint (take 4 at_pid);
      process_name = [];
      type = read_uint (take 4 at_type);
      latency_ns = read_uint (take 8 at_latency);
      error = to_int32 (read_uint (take 4 at_error));
      target = text_field (take 64 at_target);
      details = text_field (take 64 at_details);
    }

-- `binary.Read` refuses data that is shorter than the struct.
unfoldable pub binary_read : Bytes → Option Event
binary_read raw = if ltb (length raw) record_size then none else some (read_record raw)

-- `none` is the nil event.
unfoldable pub parse_event : Bytes → Option Event
parse_event raw = if ltb (length raw) 32 then none else binary_read raw

-- A number in `w` bytes, the lowest first.
unfoldable pub write_uint : ℕ → ℕ → Bytes
write_uint zero n = []
write_uint (suc w) n = (n % 256) ∷ write_uint w (n / 256)

unfoldable pub of_int32 : ℤ → ℕ
of_int32 (pos n) = n
of_int32 (negsuc n) = 2 ^ 32 - 1 - n

-- A text in an array of 64 bytes that was zeroed before.
unfoldable pub write_text : Bytes → Bytes
write_text s = s ++ replicate (64 - length s) 0

-- `struct event` as the kernel program writes it, without the padding behind it.
unfoldable pub write_event : Event → Bytes
write_event e =
    write_uint 8 e.timestamp
    ++ (write_uint 4 e.pid
        ++ (write_uint 4 e.type
            ++ (write_uint 8 e.latency_ns
                ++ (write_uint 4 (of_int32 e.error)
                    ++ (write_text e.target ++ write_text e.details)))))
