-- ===== src/EventReader/Laws.antt =====
-- The reader takes complete lines off the buffer, and reads back what the server writes.
use mathlib.Core.Option
use keytap.Base.{
  ltb→le, if-cases, ltb, length-append, ◌≤◌, ℕ, zero, suc, ◌+◌, ◌<◌, ◌≡◌, refl, arith, ap, false,
  ◌==◌, Bool-cases, inl, inr, Option, some, none, [], ◌∷◌, ◌++◌, length, drop, All, length-drop,
}
use keytap.Input.{InputEvent}
use keytap.Config.Lua.{Bytes}
use keytap.EventReader.{
  Sscanf, scan_event, one_further, first_newline, Lines, with_event, take_line, read_lines,
  before_read, read_chunk, reader_size,
}

abbrev pub NoNewline : Bytes → Type 0
NoNewline cs = All (λ (c : ℕ). (c == b'\n') ≡ false) cs

pub first_newline-append :
    (line rest : Bytes)
    → NoNewline line
    → first_newline (line ++ (b'\n' ∷ rest)) ≡ some (length line)
unfolding first_newline
first_newline-append [] rest h = refl
first_newline-append (c ∷ line) rest h =
    rw (h.0, first_newline-append line rest h.1) (ap some (omega arith))

pub first_newline-NoNewline : (cs : Bytes) → NoNewline cs → first_newline cs ≡ none
unfolding first_newline
first_newline-NoNewline [] h = refl
first_newline-NoNewline (c ∷ cs) h = rw (h.0, first_newline-NoNewline cs h.1) refl

first_newline-none : (cs : Bytes) → first_newline cs ≡ none → NoNewline cs
unfolding first_newline
first_newline-none [] e = tt
first_newline-none (c ∷ cs) e = elim (Bool-cases (c == b'\n')) [
  | inl newline ↦ let bad = rw newline at e in cc
  | inr other ↦ (other, first_newline-none cs (nothing (first_newline cs) (rw other at e)))
]
  where
    nothing : (m : Option ℕ) → one_further m ≡ none → m ≡ none
    nothing none e = refl
    nothing (some i) e = cc

first_newline-lt : (cs : Bytes) (i : ℕ) → first_newline cs ≡ some i → i < length cs
unfolding first_newline
first_newline-lt [] i e = cc
first_newline-lt (c ∷ cs) i e = elim (Bool-cases (c == b'\n')) [
  | inl newline ↦ let here = rw newline at e in let same : 0 ≡ i = cc in omega (arith, same)
  | inr other ↦ further (first_newline cs) (first_newline-lt cs) (rw other at e)
]
  where
    further :
        (m : Option ℕ)
        → ((j : ℕ) → m ≡ some j → j < length cs)
        → one_further m ≡ some i
        → i < suc (length cs)
    further none ih e = cc
    further (some j) ih e =
        let less = ih j refl in let same : j + 1 ≡ i = cc in omega (arith, less, same)

-- The loop returns, with no line left.
abbrev pub LeavesNoLine : Option Lines → Type 0
LeavesNoLine none = ⊥
LeavesNoLine (some (evs, left)) = NoNewline left

with_event-LeavesNoLine :
    (ev : Option InputEvent) (m : Option Lines)
    → LeavesNoLine m
    → LeavesNoLine (Option.map (with_event ev) m)
with_event-LeavesNoLine none (some (evs, left)) h = h
with_event-LeavesNoLine (some ev) (some (evs, left)) h = h
with_event-LeavesNoLine ev none h = h

read_lines-LeavesNoLine :
    (sscanf : Sscanf) (fuel : ℕ) (buffer : Bytes)
    → length buffer < fuel
    → LeavesNoLine (read_lines sscanf fuel buffer)
unfolding read_lines
read_lines-LeavesNoLine sscanf zero buffer h = absurd (omega (arith, h))
read_lines-LeavesNoLine sscanf (suc fuel) buffer h = taken (first_newline buffer) refl (λ i less.
    read_lines-LeavesNoLine sscanf fuel (drop (i + 1) buffer)
      (omega (arith, less, h, length-drop (i + 1) buffer)))
  where
    taken :
        (m : Option ℕ)
        → first_newline buffer ≡ m
        → ((i : ℕ)
            → i < length buffer
            → LeavesNoLine (read_lines sscanf fuel (drop (i + 1) buffer)))
        → LeavesNoLine (take_line sscanf (read_lines sscanf fuel) buffer m)
    taken none e ih = first_newline-none buffer e
    taken (some i) e ih =
        with_event-LeavesNoLine (scan_event sscanf buffer) _ (ih i (first_newline-lt buffer i e))

-- Whatever is read and whatever `sscanf` makes of it, the inner loop of the reader ends, and leaves no newline in
-- the buffer.
pub read_chunk-LeavesNoLine :
    (sscanf : Sscanf) (buffer chunk : Bytes) → LeavesNoLine (read_chunk sscanf buffer chunk)
unfolding read_chunk
read_chunk-LeavesNoLine sscanf buffer chunk =
    read_lines-LeavesNoLine sscanf (suc (length (before_read buffer ++ chunk)))
      (before_read buffer ++ chunk) (omega arith)

-- A read of at most half the buffer never writes past its end.
pub before_read-le :
    (buffer chunk : Bytes) → length chunk ≤ 512 → length (before_read buffer ++ chunk) ≤ reader_size
before_read-le buffer chunk h =
    if-cases (λ b. length (b ++ chunk) ≤ reader_size) (ltb 512 (length buffer)) [] buffer
      (λ full. omega (arith, h))
      (λ room. omega (arith, h, length-append buffer chunk, ltb→le 512 (length buffer) room))
