-- ===== src/Examples/Reading.antt =====
-- The reader of the line format at work.
use keytap.Base.{
  ◌≡◌, if◌then◌else◌, refl, some, [], ◌∷◌, List, take, drop, ◌++◌, length, pos, ◌≤◌, ◌<◌, arith, ℕ,
  zero, suc, ◌+◌, ◌-◌, ◌*◌, ◌/◌, ◌%◌, leb, ◌&&◌, false, ◌∙◌, Bool-cases, ltb, inl, ltb→lt, inr, ap,
  append_assoc,
}
use keytap.Input.{InputEvent, key_press, key_release}
use keytap.Config.Lua.{Bytes}
use keytap.Server.{format_event}
use keytap.EventReader.{Sscanf}
use keytap.EventReader.RoundTrip.{text_of}
use keytap.EventReader.Scanning.{ReadsNumbers, FitsFields, max_ulong}
use keytap.Server.Decimal.{decimal, digits_from}
use keytap.EventReader.Stream.{all_bytes, reads_of}
use keytap.Server.{Server, buffer_size, server_send_event}
use keytap.Server.Watch.{server_app}
use keytap.ServeLoop.Rounds.{send_out}
use keytap.EventReader.Stream.{ended}
use keytap.Commands.Remote.{main_read}
use keytap.Commands.Relay.{main_read-send_out}
use keytap.Examples.Serving.{serving}
use keytap.Examples.{at_ms}

abbrev press : InputEvent
press = key_press 30 (at_ms 0)

abbrev release : InputEvent
release = key_release 30 (at_ms 9)

-- A reader of decimal numbers: the digits up to the first other byte, and what follows.
unfoldable scan_digits : ℕ → Bytes → ℕ × Bytes
scan_digits n [] = (n, [])
scan_digits n (c ∷ cs) =
    let rest = scan_digits (n * 10 + (c - b'0')) cs in
    if leb b'0' c && leb c b'9' then rest else (n, c ∷ cs)

-- So many numbers, each with a byte behind it.
unfoldable scan_numbers : ℕ → Bytes → List ℕ
unfolding scan_digits
scan_numbers zero cs = []
scan_numbers (suc k) cs = let (n, rest) = scan_digits 0 cs in n ∷ scan_numbers k (drop 1 rest)

-- The `sscanf` for formats of five numbers.
abbrev five_numbers : Sscanf
five_numbers format cs = scan_numbers 5 cs

-- A bound on the numbers of so many digits.
abbrev tenfold : ℕ → ℕ
tenfold zero = 10
tenfold (suc k) = 10 * tenfold k

scan_digits-last :
    (n : ℕ) (cs : Bytes) → scan_digits (n / 10) ((b'0' + n % 10) ∷ cs) ≡ scan_digits n cs
unfolding scan_digits
scan_digits-last n cs = ground arith

scan_digits-digits_from :
    (rounds n : ℕ) (cs : Bytes)
    → n < tenfold rounds
    → scan_digits 0 (digits_from (suc rounds) n ++ cs) ≡ scan_digits n cs
unfolding digits_from scan_digits
scan_digits-digits_from zero n cs h = ground (arith, h)
scan_digits-digits_from (suc rounds) n cs h =
    let before =
      scan_digits-digits_from rounds (n / 10) ((b'0' + n % 10) ∷ cs) (omega (arith, h)) in
    elim (Bool-cases (ltb n 10)) [
      | inl small ↦ rw small (ground (arith, ltb→lt _ _ small))
      | inr large ↦ rw large (
          ap (scan_digits 0)
            (append_assoc (digits_from (suc rounds) (n / 10)) ((b'0' + n % 10) ∷ []) cs)
          ∙ before
          ∙ scan_digits-last n cs)
    ]

scan_digits-decimal :
    (n c : ℕ) (cs : Bytes)
    → n ≤ max_ulong
    → (leb b'0' c && leb c b'9') ≡ false
    → scan_digits 0 (decimal n ++ (c ∷ cs)) ≡ (n, c ∷ cs)
unfolding decimal
scan_digits-decimal n c cs h e =
    scan_digits-digits_from 63 n (c ∷ cs) (omega (arith, h)) ∙ unfold scan_digits in rw e refl

five_numbers-ReadsNumbers : ReadsNumbers five_numbers
unfolding scan_numbers
five_numbers-ReadsNumbers a b c d e rest ha hb hc hd he =
    rw
      (
        scan_digits-decimal a b':' _ ha refl,
        scan_digits-decimal b b':' _ hb refl,
        scan_digits-decimal c b':' _ hc refl,
        scan_digits-decimal d b':' _ hd refl,
        scan_digits-decimal e b'\n' rest he refl,
      )
      refl

press-FitsFields : FitsFields press
press-FitsFields = record {
  type = omega arith;
  code = omega arith;
  value = omega arith;
  sec = omega arith;
  usec = omega arith;
}

release-FitsFields : FitsFields release
release-FitsFields = record {
  type = omega arith;
  code = omega arith;
  value = omega arith;
  sec = omega arith;
  usec = omega arith;
}

-- Two lines, cut in the middle of the first.
abbrev cut_lines : List Bytes
cut_lines = take 5 (text_of (press ∷ release ∷ [])) ∷ drop 5 (text_of (press ∷ release ∷ [])) ∷ []

-- A server with a client, and nothing buffered.
abbrev ready_server : Server
ready_server = record serving { for_client = [] }

ready_server-buffers :
    all_bytes cut_lines ≡ (send_out server_app ready_server (press ∷ release ∷ [])).for_client
unfolding format_event server_send_event
ready_server-buffers = refl

two_lines-fit : length (text_of (press ∷ release ∷ [])) ≤ buffer_size
unfolding format_event
two_lines-fit = omega arith

main_read-send_out_example :
    main_read (some 4) five_numbers (reads_of cut_lines ++ (ended ∷ []))
    ≡ some (record { retval = some 0; sent = press ∷ release ∷ []; closed = pos 4 ∷ [] })
main_read-send_out_example =
    main_read-send_out five_numbers 4 ready_server (press ∷ release ∷ []) cut_lines
      (λ e. omega (arith, e)) refl two_lines-fit five_numbers-ReadsNumbers
      (press-FitsFields, (release-FitsFields, tt)) ready_server-buffers
