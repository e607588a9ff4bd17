-- ===== src/Server.antt =====
-- server.h and server.c: the clients of the server and the text that waits for the active one. What the
-- system calls return is a `Poll`; the descriptors that are closed are returned in order.
pub mod Decimal
pub mod Laws
pub mod Watch
use keytap.Base.{
  ℕ, zero, suc, ◌+◌, ◌-◌, ◌*◌, ◌%◌, ◌^◌, ℤ, pos, negsuc, ltb_ℤ, pos_part, Bool, true, false, ◌&&◌,
  if◌then◌else◌, ltb, ◌==◌, Option, some, none, List, [], ◌∷◌, ◌++◌, length, take, Cells, update,
  Outcome, ok, halt, exit_with, ◌>>=◌, not,
}
use keytap.Input.{InputEvent}
use keytap.Server.Decimal.{decimal}

abbrev pub max_clients : ℕ
max_clients = 8

abbrev pub buffer_size : ℕ
buffer_size = 8192

pub record Server : Type 0 where
  -- an array of `max_clients` descriptors
  pub clients : Cells ℕ
  pub nclients : ℕ
  pub active_client : ℕ
  -- the first `fc_len` bytes of the buffer
  pub for_client : List ℕ
  pub accept_fd : ℕ

abbrev pub fc_len : Server → ℕ
fc_len s = length s.for_client

-- `(unsigned long)` of a signed number
abbrev pub to_ulong : ℤ → ℕ
to_ulong (pos n) = n % 2 ^ 64
to_ulong (negsuc n) = (2 ^ 64 - 1 - n) % 2 ^ 64

-- "%lu:%lu:%lu:%lu:%lu\n"
unfoldable pub format_event : InputEvent → List ℕ
unfolding decimal
format_event ev =
    decimal ev.type
    ++ (b':' ∷ decimal (to_ulong ev.value)
        ++ (b':' ∷ decimal ev.code
            ++ (b':' ∷ decimal (to_ulong ev.time.tv_sec)
                ++ (b':' ∷ decimal (to_ulong ev.time.tv_usec) ++ (b'\n' ∷ [])))))

-- The line of an event is buffered whole or not at all.
unfoldable pub server_send_event : Server → InputEvent → ℕ × Server
unfolding format_event
server_send_event s ev =
    if s.nclients == 0
    then (0, s)
    else (let line = format_event ev in
        if ltb buffer_size (fc_len s + length line)
        then (0, s)
        else (length line, record s { for_client = s.for_client ++ line }))

-- What `select`, `send`, `read` and `accept` give in one round: `send_len` and `read_len` are the results
-- of the calls on a descriptor.
pub record Poll : Type 0 where
  pub readable : ℕ → Bool
  pub writable : ℕ → Bool
  pub send_len : ℕ → ℤ
  pub read_len : ℕ → ℤ
  pub accepted : Option ℕ

unfoldable pub server_close_client : Server → ℕ → Server × List ℕ
server_close_client s i =
    let moved : Cells ℕ = (λ j.
      if ltb j i
      then s.clients j
      else if ltb j (max_clients - 1)
      then s.clients (j + 1)
      else s.clients j) in
    let gone = record s { clients = moved; nclients = s.nclients - 1 } in
    (
      if s.active_client == i
          then record gone { active_client = 0; for_client = [] }
          else if ltb i s.active_client
          then record gone { active_client = s.active_client - 1 }
          else gone,
      s.clients i ∷ [],
    )

-- Writing to the active client. What was sent is cut off the length, and the bytes stay where they are.
unfoldable pub write_active : Poll → Server → Server × List ℕ
unfolding server_close_client
write_active p s =
    let fd = s.clients s.active_client in
    if ltb 0 s.nclients && p.writable fd
    then (if ltb_ℤ (pos 0) (p.send_len fd)
        then (record s { for_client = take (fc_len s - pos_part (p.send_len fd)) s.for_client }, [])
        else server_close_client s s.active_client)
    else (s, [])

-- The loop over the clients from index `i`, with the rounds left. A round passes a client or closes it.
unfoldable pub check_clients : ℕ → Poll → ℕ → Server → Server × List ℕ
unfolding server_close_client
check_clients zero p i s = (s, [])
check_clients (suc rounds) p i s =
    let fd = s.clients i in
    let closed = server_close_client s i in
    let after = check_clients rounds p i closed.0 in
    let next = check_clients rounds p (i + 1) s in
    if p.readable fd && not (ltb_ℤ (pos 1) (p.read_len fd))
    then (after.0, closed.1 ++ after.1)
    else next

-- The new client, which takes the place of the one before.
unfoldable pub add_client : Server → ℕ → Server × List ℕ
add_client s client =
    if ltb max_clients (s.nclients + 1)
    then (s, client ∷ [])
    else (let s' = record s {
      clients = update s.clients s.nclients client;
      nclients = s.nclients + 1;
    } in
        if ltb 1 s'.nclients
        then (
          record s' { clients = update s'.clients 0 client; nclients = s'.nclients - 1 },
          s'.clients 0 ∷ [],
        )
        else (s', []))

abbrev pub accept_client : Server → Option ℕ → Outcome (Server × List ℕ)
accept_client s Option.none = halt (exit_with 7)
accept_client s (Option.some client) = ok (add_client s client)

-- The new state and the descriptors closed. The rounds of the client loop are as many as the clients.
unfoldable pub server_handle_select : Poll → Server → Outcome (Server × List ℕ)
unfolding write_active check_clients add_client
server_handle_select p s =
    let (s1, closed1) = write_active p s in
    let (s2, closed2) = check_clients s1.nclients p 0 s1 in
    if p.readable s.accept_fd
    then (do (s3, closed3) ← accept_client s2 p.accepted; ok (s3, closed1 ++ (closed2 ++ closed3)))
    else ok (s2, closed1 ++ closed2)
