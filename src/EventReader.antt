-- ===== src/EventReader.antt =====
-- sdiol.c, `first_newline` and the buffer of `main_read`, which reads the lines of a server. `sscanf` is the C
-- library's: a parameter that is given the format and the bytes of the buffer in use, and gives the numbers that
-- it found, in their order.
pub mod Scanning
pub mod Laws
pub mod RoundTrip
pub mod Cut
pub mod Stream
use mathlib.Core.Option
use keytap.Base.{
  ℕ, zero, suc, ◌+◌, Bool, true, false, ◌==◌, ltb, if◌then◌else◌, Option, some, none, List, [], ◌∷◌,
  ◌++◌, length, drop, pos, to_int, to_long, ◌%◌,
}
use keytap.Input.{InputEvent}
use keytap.Config.Lua.{Bytes}
use keytap.Names.Tables.{codes}

abbrev pub reader_size : ℕ
reader_size = 1024

-- The numbers that were read by this format from these bytes.
abbrev pub Sscanf : Type 0
Sscanf = Bytes → Bytes → List ℕ

abbrev pub line_format : Bytes
line_format = codes "%lu:%lu:%lu:%lu:%lu\n"

-- The event of five numbers. Its fields are narrower than the `unsigned long` that were read.
unfoldable pub build_event : List ℕ → Option InputEvent
build_event (type ∷ value ∷ code ∷ sec ∷ usec ∷ []) = some (record {
  time = record { tv_sec = to_long sec; tv_usec = to_long usec };
  type = type % 65536;
  code = code % 65536;
  value = to_int (pos value);
})
build_event _ = none

unfoldable pub scan_event : Sscanf → Bytes → Option InputEvent
unfolding build_event
scan_event sscanf buffer = build_event (sscanf line_format buffer)

abbrev pub one_further : Option ℕ → Option ℕ
one_further none = none
one_further (some i) = some (i + 1)

-- The index of the first newline.
unfoldable pub first_newline : Bytes → Option ℕ
first_newline [] = none
first_newline (c ∷ cs) = if c == b'\n' then some 0 else one_further (first_newline cs)

-- The events sent on, and the bytes that stay in the buffer.
abbrev pub Lines : Type 0
Lines = List InputEvent × Bytes

abbrev pub with_event : Option InputEvent → Lines → Lines
with_event none lines = lines
with_event (some ev) (evs, left) = (ev ∷ evs, left)

-- A line that ends at index `idx`: the event, if it is one, and the rest of the buffer.
abbrev pub take_line : Sscanf → (Bytes → Option Lines) → Bytes → Option ℕ → Option Lines
take_line sscanf again buffer none = some ([], buffer)
take_line sscanf again buffer (some idx) =
    Option.map (with_event (scan_event sscanf buffer)) (again (drop (idx + 1) buffer))

-- The inner loop, on fuel.
unfoldable pub read_lines : Sscanf → ℕ → Bytes → Option Lines
unfolding first_newline scan_event
read_lines sscanf zero buffer = none
read_lines sscanf (suc fuel) buffer =
    take_line sscanf (read_lines sscanf fuel) buffer (first_newline buffer)

-- A buffer that is more than half full is emptied before reading.
abbrev pub before_read : Bytes → Bytes
before_read buffer = if ltb 512 (length buffer) then [] else buffer

-- A round of the outer loop with the bytes that `read` gave. Every line takes a byte at least.
unfoldable pub read_chunk : Sscanf → Bytes → Bytes → Option Lines
unfolding read_lines
read_chunk sscanf buffer chunk =
    let filled = before_read buffer ++ chunk in read_lines sscanf (suc (length filled)) filled
