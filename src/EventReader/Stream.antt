-- ===== src/EventReader/Stream.antt =====
-- sdiol.c, `main_read`: the loop over the reads, and the stream of a server cut into reads anywhere.
use keytap.Base.{
  ◌==◌, false, ℕ, ◌≤◌, ◌≡◌, refl, arith, ap, sym, ◌∙◌, subst, List, [], ◌∷◌, ◌++◌, append_assoc,
  append-nil, Option, some, none, length, All, All-append_left, ◌==◌, false,
}
use keytap.Input.{InputEvent}
use keytap.Config.Lua.{Bytes}
use keytap.Server.{format_event}
use keytap.EventReader.{Sscanf, Lines, before_read, read_chunk}
use keytap.EventReader.Laws.{NoNewline}
use keytap.EventReader.RoundTrip.{format_event-OneLine, text_of, ReadsBack, read_chunk-text_of}
use keytap.EventReader.Cut.{cut}

-- A round of the loop: it was told to stop; the read was interrupted, failed, found the end, or gave bytes.
pub data Got : Type 0 where
  stopped interrupted failed ended : Got
  bytes : Bytes → Got

-- The return value, or `none` while the loop runs; the events sent on; and the bytes in the buffer.
pub record Reading : Type 0 where
  pub retval : Option ℕ
  pub sent : List InputEvent
  pub buffer : Bytes

abbrev pub sent_then : List InputEvent → Option Reading → Option Reading
sent_then evs none = none
sent_then evs (some r) = some (record r { sent = evs ++ r.sent })

abbrev pub read_on : (Bytes → Option Reading) → Option Lines → Option Reading
read_on again none = none
read_on again (some (evs, left)) = sent_then evs (again left)

abbrev pub ends_with : ℕ → Bytes → Option Reading
ends_with retval buffer = some (record { retval = some retval; sent = []; buffer = buffer })

unfoldable pub read_loop : Sscanf → List Got → Bytes → Option Reading
unfolding read_chunk
read_loop sscanf [] buffer = some (record { retval = none; sent = []; buffer = buffer })
read_loop sscanf (stopped ∷ gs) buffer = ends_with 0 buffer
read_loop sscanf (interrupted ∷ gs) buffer = read_loop sscanf gs (before_read buffer)
read_loop sscanf (failed ∷ gs) buffer = ends_with 2 (before_read buffer)
read_loop sscanf (ended ∷ gs) buffer = ends_with 0 (before_read buffer)
read_loop sscanf (bytes chunk ∷ gs) buffer =
    read_on (read_loop sscanf gs) (read_chunk sscanf buffer chunk)

All-append_right {ℓ} : {A : Type ℓ} (P : A → Type 0) (xs ys : List A) → All P (xs ++ ys) → All P ys
All-append_right P [] ys h = h
All-append_right P (x ∷ xs) ys h = All-append_right P xs ys h.1

-- The bytes of the reads, one after the other.
abbrev pub all_bytes : List Bytes → Bytes
all_bytes [] = []
all_bytes (c ∷ cs) = c ++ all_bytes cs

abbrev pub reads_of : List Bytes → List Got
reads_of [] = []
reads_of (c ∷ cs) = bytes c ∷ reads_of cs

no_line :
    (evs : List InputEvent) (buffer : Bytes)
    → buffer ++ [] ≡ text_of evs
    → NoNewline buffer
    → (evs ≡ []) × (buffer ≡ [])
no_line [] buffer e c = (refl, sym (append-nil buffer) ∙ e)
no_line (ev ∷ evs) buffer e c =
    let o = format_event-OneLine ev in
    let all : NoNewline (text_of (ev ∷ evs)) = subst NoNewline (sym (append-nil buffer) ∙ e) c in
    let line : NoNewline (o.line ++ (b'\n' ∷ [])) =
      subst NoNewline o.ends (All-append_left _ (format_event ev) (text_of evs) all) in
    let bad = All-append_right (λ (k : ℕ). (k == b'\n') ≡ false) o.line (b'\n' ∷ []) line in
    cc (bad.0)

read_loop-stream :
    (sscanf : Sscanf) (chunks : List Bytes) (buffer : Bytes) (evs : List InputEvent)
    → All (ReadsBack sscanf) evs
    → NoNewline buffer
    → length buffer ≤ 325
    → buffer ++ all_bytes chunks ≡ text_of evs
    → read_loop sscanf (reads_of chunks) buffer
      ≡ some (record { retval = none; sent = evs; buffer = [] })
unfolding read_loop
read_loop-stream sscanf [] buffer evs h clean short e =
    let (no_events, no_bytes) = no_line evs buffer e clean in rw (no_events, no_bytes) refl
read_loop-stream sscanf (chunk ∷ chunks) buffer evs h clean short e =
    let c =
      cut evs (buffer ++ chunk) (all_bytes chunks)
        (append_assoc buffer chunk (all_bytes chunks) ∙ e) in
    let both : All (ReadsBack sscanf) (c.whole ++ c.later) =
      subst (All (ReadsBack sscanf)) c.events h in
    let read : read_chunk sscanf buffer chunk ≡ some (c.whole, c.tail) =
      read_chunk-text_of sscanf buffer chunk c.whole c.tail (All-append_left _ c.whole c.later both)
        c.clean (omega (arith, short)) c.beginning in
    let rest =
      read_loop-stream sscanf chunks c.tail c.later
        (All-append_right (ReadsBack sscanf) c.whole c.later both) c.clean c.short c.remainder in
    rw (read, rest)
      (ap (λ x. some (record { retval = none; sent = x; buffer = [] })) (sym c.events))

-- However the stream of a server is cut into reads: when all that the server wrote for some events has been read,
-- and `sscanf` reads their lines back, the reader has sent on exactly these events, in order, and its buffer is
-- empty.
pub read_loop-text_of :
    (sscanf : Sscanf) (chunks : List Bytes) (evs : List InputEvent)
    → All (ReadsBack sscanf) evs
    → all_bytes chunks ≡ text_of evs
    → read_loop sscanf (reads_of chunks) []
      ≡ some (record { retval = none; sent = evs; buffer = [] })
read_loop-text_of sscanf chunks evs h e = read_loop-stream sscanf chunks [] evs h tt (omega arith) e
