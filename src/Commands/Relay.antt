-- ===== src/Commands/Relay.antt =====
-- From the server to the reader: what one sends, the other sends on.
use keytap.Base.{
  ℕ, ◌+◌, ◌≡◌, ◌≢◌, ◌≤◌, refl, arith, ap, sym, ◌∙◌, append_assoc, append-nil, subst, Option, some,
  none, List, [], ◌∷◌, ◌++◌, length, length-append, All, pos,
}
use keytap.Input.{InputEvent}
use keytap.Config.Lua.{Bytes}
use keytap.Server.{Server, server_send_event, format_event, buffer_size}
use keytap.Server.Watch.{server_app}
use keytap.ServeLoop.Rounds.{send_out}
use keytap.EventReader.{Sscanf, read_chunk, Lines}
use keytap.EventReader.RoundTrip.{text_of}
use keytap.EventReader.Scanning.{ReadsNumbers, FitsFields, each-ReadsBack}
use keytap.EventReader.Stream.{
  Got, ended, Reading, read_loop, read_on, sent_then, all_bytes, reads_of, read_loop-text_of,
}
use keytap.Commands.Remote.{main_read, read_ended}

-- An event for a client is buffered as its line, if there is room.
server_send_event-text :
    (s : Server) (ev : InputEvent)
    → s.nclients ≢ 0
    → length s.for_client + length (format_event ev) ≤ buffer_size
    → (server_send_event s ev).1 ≡ record s { for_client = s.for_client ++ format_event ev }
unfolding server_send_event
server_send_event-text s ev some_client room = ground arith

send_out-text_of :
    (evs : List InputEvent) (s : Server)
    → s.nclients ≢ 0
    → length s.for_client + length (text_of evs) ≤ buffer_size
    → (send_out server_app s evs).for_client ≡ s.for_client ++ text_of evs
send_out-text_of [] s some_client room = sym (append-nil s.for_client)
send_out-text_of (ev ∷ evs) s some_client room =
    ap (λ (x : Server). (send_out server_app x evs).for_client) buffered
    ∙ send_out-text_of evs (record s { for_client = s.for_client ++ format_event ev }) some_client
        (omega (
          arith,
          room,
          length-append s.for_client (format_event ev),
          length-append (format_event ev) (text_of evs),
        ))
    ∙ append_assoc s.for_client (format_event ev) (text_of evs)
  where
    buffered :
        (server_send_event s ev).1 ≡ record s { for_client = s.for_client ++ format_event ev }
    buffered =
        server_send_event-text s ev some_client
          (omega (arith, room, length-append (format_event ev) (text_of evs)))

sent_then-append :
    (xs ys : List InputEvent) (m : Option Reading)
    → sent_then (xs ++ ys) m ≡ sent_then xs (sent_then ys m)
sent_then-append xs ys none = refl
sent_then-append xs ys (some r) = ap (λ x. some (record r { sent = x })) (append_assoc xs ys r.sent)

sent_then-nil : (m : Option Reading) → sent_then [] m ≡ m
sent_then-nil none = refl
sent_then-nil (some r) = refl

-- A loop that is still running goes on with what follows.
read_loop-append :
    (sscanf : Sscanf) (chunks : List Bytes) (gs : List Got) (buffer : Bytes) (r : Reading)
    → read_loop sscanf (reads_of chunks) buffer ≡ some r
    → read_loop sscanf (reads_of chunks ++ gs) buffer
      ≡ sent_then r.sent (read_loop sscanf gs r.buffer)
unfolding read_loop
read_loop-append sscanf [] gs buffer r e =
    let same : record { retval = none; sent = []; buffer = buffer } ≡ r = cc in
    subst
      (λ (x : Reading).
        read_loop sscanf gs buffer ≡ sent_then x.sent (read_loop sscanf gs x.buffer))
      same (sym (sent_then-nil (read_loop sscanf gs buffer)))
read_loop-append sscanf (chunk ∷ chunks) gs buffer r e =
    lines (read_chunk sscanf buffer chunk) e
      (λ left r' e'. read_loop-append sscanf chunks gs left r' e')
  where
    Continues : Bytes → Reading → Type 0
    Continues left r' =
        read_loop sscanf (reads_of chunks ++ gs) left
        ≡ sent_then r'.sent (read_loop sscanf gs r'.buffer)

    sent :
        (evs : List InputEvent) (left : Bytes) (m : Option Reading)
        → sent_then evs m ≡ some r
        → ((r' : Reading) → m ≡ some r' → Continues left r')
        → sent_then evs (read_loop sscanf (reads_of chunks ++ gs) left)
          ≡ sent_then r.sent (read_loop sscanf gs r.buffer)
    sent evs left none e ih = cc
    sent evs left (some r') e ih =
        let same : record r' { sent = evs ++ r'.sent } ≡ r = cc in
        ap (sent_then evs) (ih r' refl)
        ∙ sym (sent_then-append evs r'.sent (read_loop sscanf gs r'.buffer))
        ∙ ap (λ (x : Reading). sent_then x.sent (read_loop sscanf gs x.buffer)) same

    lines :
        (m : Option Lines)
        → read_on (read_loop sscanf (reads_of chunks)) m ≡ some r
        → ((left : Bytes) (r' : Reading)
            → read_loop sscanf (reads_of chunks) left ≡ some r'
            → Continues left r')
        → read_on (read_loop sscanf (reads_of chunks ++ gs)) m
          ≡ sent_then r.sent (read_loop sscanf gs r.buffer)
    lines none e ih = cc
    lines (some (evs, left)) e ih =
        sent evs left (read_loop sscanf (reads_of chunks) left) e (ih left)

-- A server with a client and an empty buffer is given some events whose lines fit the buffer, and whose numbers
-- fit the fields of `struct input_event`. When these bytes reach the reader, in reads cut anywhere, and the stream
-- ends, then `main_read` has sent on exactly these events, in order and with every field, returns 0, and has closed
-- its output. The `sscanf` reads back, by the reader's format, any five numbers that are printed so.
pub main_read-send_out :
    (sscanf : Sscanf) (out_fd : ℕ) (s : Server) (evs : List InputEvent) (chunks : List Bytes)
    → s.nclients ≢ 0
    → s.for_client ≡ []
    → length (text_of evs) ≤ buffer_size
    → ReadsNumbers sscanf
    → All FitsFields evs
    → all_bytes chunks ≡ (send_out server_app s evs).for_client
    → main_read (some out_fd) sscanf (reads_of chunks ++ (ended ∷ []))
      ≡ some (record { retval = some 0; sent = evs; closed = pos out_fd ∷ [] })
unfolding main_read read_loop
main_read-send_out sscanf out_fd s evs chunks some_client empty room reads fields e =
    ap (read_ended out_fd) (
      read_loop-append sscanf chunks (ended ∷ []) []
        (record { retval = none; sent = evs; buffer = [] })
        (read_loop-text_of sscanf chunks evs (each-ReadsBack sscanf evs reads fields) (
          e
          ∙ send_out-text_of evs s some_client (omega (arith, room, ap length empty))
          ∙ ap (λ x. x ++ text_of evs) empty)))
    ∙ ap (λ x. some (record { retval = some 0; sent = x; closed = pos out_fd ∷ [] }))
        (append-nil evs)
