-- ===== src/EventReader/RoundTrip.antt =====
-- What the server writes (server.c, `server_send_event`), the reader reads back.
use keytap.Base.{
  ℕ, zero, suc, ◌+◌, ◌/◌, ◌≤◌, ◌<◌, ◌≡◌, refl, arith, ap, sym, ◌∙◌, append_assoc, ltb, le→ltb,
  if-cases, some, List, [], ◌∷◌, ◌++◌, length, drop, All, All-append, length-append,
}
use keytap.Input.{InputEvent}
use keytap.Config.Lua.{Bytes}
use keytap.Server.{format_event, to_ulong}
use keytap.Server.Decimal.{digits_from, decimal}
use keytap.EventReader.{Sscanf, scan_event, first_newline, read_lines, read_chunk}
use keytap.EventReader.Laws.{NoNewline, first_newline-append, first_newline-NoNewline}

digits_from-NoNewline : (rounds n : ℕ) → NoNewline (digits_from rounds n)
unfolding digits_from
digits_from-NoNewline zero n = tt
digits_from-NoNewline (suc rounds) n =
    if-cases NoNewline (ltb n 10) _ _ (λ small. (ground arith, tt))
      (λ large.
        All-append _ (digits_from rounds (n / 10)) _ (digits_from-NoNewline rounds (n / 10))
          (ground arith, tt))

-- A text that is one line.
pub record OneLine (cs : Bytes) : Type 0 where
  pub line : Bytes
  pub ends : cs ≡ line ++ (b'\n' ∷ [])
  pub clean : NoNewline line

decimal-OneLine : (n : ℕ) {cs : Bytes} → OneLine cs → OneLine (decimal n ++ cs)
unfolding decimal
decimal-OneLine n {cs} o = record {
  line = digits_from 64 n ++ o.line;
  ends =
      ap (λ x. digits_from 64 n ++ x) o.ends
      ∙ sym (append_assoc (digits_from 64 n) o.line (b'\n' ∷ []));
  clean = All-append _ (digits_from 64 n) o.line (digits_from-NoNewline 64 n) o.clean;
}

colon-OneLine : {cs : Bytes} → OneLine cs → OneLine (b':' ∷ cs)
colon-OneLine o = record {
  line = b':' ∷ o.line;
  ends = ap (◌∷◌ b':') o.ends;
  clean = (refl, o.clean);
}

pub format_event-OneLine : (ev : InputEvent) → OneLine (format_event ev)
unfolding format_event
format_event-OneLine ev = decimal-OneLine ev.type (
    colon-OneLine (
      decimal-OneLine (to_ulong ev.value) (
        colon-OneLine (
          decimal-OneLine ev.code (
            colon-OneLine (
              decimal-OneLine (to_ulong ev.time.tv_sec) (
                colon-OneLine (
                  decimal-OneLine (to_ulong ev.time.tv_usec)
                    (record { line = []; ends = refl; clean = tt })))))))))

-- The text that the server writes for some events.
abbrev pub text_of : List InputEvent → Bytes
text_of [] = []
text_of (ev ∷ evs) = format_event ev ++ text_of evs

drop-line : (line rest : Bytes) → drop (length line + 1) (line ++ (b'\n' ∷ rest)) ≡ rest
drop-line line rest = at line _ (omega arith)
  where
    at : (line : Bytes) (k : ℕ) → k ≡ suc (length line) → drop k (line ++ (b'\n' ∷ rest)) ≡ rest
    at line zero e = absurd (omega (arith, e))
    at [] (suc zero) e = refl
    at [] (suc (suc k)) e = absurd (omega (arith, e))
    at (c ∷ line) (suc k) e = at line k (omega (arith, e))

-- `sscanf` reads a line of this event back, whatever follows.
abbrev pub ReadsBack : Sscanf → InputEvent → Type 0
ReadsBack sscanf ev = (rest : Bytes) → scan_event sscanf (format_event ev ++ rest) ≡ some ev

read_lines-text_of :
    (sscanf : Sscanf) (evs : List InputEvent) (tail : Bytes) (fuel : ℕ)
    → All (ReadsBack sscanf) evs
    → NoNewline tail
    → length evs < fuel
    → read_lines sscanf fuel (text_of evs ++ tail) ≡ some (evs, tail)
unfolding read_lines
read_lines-text_of sscanf evs tail zero h clean enough = absurd (omega (arith, enough))
read_lines-text_of sscanf [] tail (suc fuel) h clean enough =
    rw (first_newline-NoNewline tail clean) refl
read_lines-text_of sscanf (ev ∷ evs) tail (suc fuel) h clean enough =
    let o = format_event-OneLine ev in
    let rest : Bytes = text_of evs ++ tail in
    let whole : (format_event ev ++ text_of evs) ++ tail ≡ format_event ev ++ rest =
      append_assoc (format_event ev) (text_of evs) tail in
    let split : format_event ev ++ rest ≡ o.line ++ (b'\n' ∷ rest) =
      ap (λ x. x ++ rest) o.ends ∙ append_assoc o.line (b'\n' ∷ []) rest in
    let found : first_newline (format_event ev ++ rest) ≡ some (length o.line) =
      ap first_newline split ∙ first_newline-append o.line rest o.clean in
    let left : drop (length o.line + 1) (format_event ev ++ rest) ≡ rest =
      ap (drop (length o.line + 1)) split ∙ drop-line o.line rest in
    rw
      (
        whole,
        found,
        left,
        h.0 rest,
        read_lines-text_of sscanf evs tail fuel h.1 clean (omega (arith, enough)),
      )
      refl

events-le-text : (evs : List InputEvent) → length evs ≤ length (text_of evs)
events-le-text [] = omega arith
events-le-text (ev ∷ evs) =
    let o = format_event-OneLine ev in
    let some_bytes : length (format_event ev) ≡ length o.line + 1 =
      ap length o.ends ∙ length-append o.line (b'\n' ∷ []) in
    omega (arith, length-append (format_event ev) (text_of evs), some_bytes, events-le-text evs)

-- The buffer, not more than half full, and the bytes read are together what the server writes for some events
-- and the beginning of a line, and `sscanf` reads the lines of these events back: then the reader sends on
-- these events in order, and keeps the beginning of the line.
pub read_chunk-text_of :
    (sscanf : Sscanf) (buffer chunk : Bytes) (evs : List InputEvent) (tail : Bytes)
    → All (ReadsBack sscanf) evs
    → NoNewline tail
    → length buffer ≤ 512
    → buffer ++ chunk ≡ text_of evs ++ tail
    → read_chunk sscanf buffer chunk ≡ some (evs, tail)
unfolding read_chunk
read_chunk-text_of sscanf buffer chunk evs tail h clean half e =
    rw (le→ltb 512 (length buffer) half, e)
      (read_lines-text_of sscanf evs tail (suc (length (text_of evs ++ tail))) h clean
        (omega (arith, length-append (text_of evs) tail, events-le-text evs)))
