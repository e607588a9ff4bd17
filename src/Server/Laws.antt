-- ===== src/Server/Laws.antt =====
-- The clients and the buffer of the server.
use keytap.Base.{
  ap, lt→ltb, ltb→le, ◌>>=◌, ◌++◌, ℕ, zero, suc, ◌+◌, ◌-◌, ◌≤◌, ◌<◌, ◌≡◌, refl, arith, pos,
  pos_part, true, ltb, ◌==◌, Option, List, [], ◌∷◌, length, take, length-append, length-take,
  Outcome, ok, halt, exit_with, if-cases,
}
use keytap.Input.{InputEvent}
use keytap.Server.{
  Server, Poll, buffer_size, fc_len, format_event, server_send_event, server_close_client,
  write_active, check_clients, add_client, accept_client, server_handle_select,
}

take-take : {A : Type 0} (xs : List A) (m n : ℕ) → m ≤ n → take m (take n xs) ≡ take m xs
take-take xs zero n h = refl
take-take xs (suc m) zero h = absurd (omega arith)
take-take [] (suc m) (suc n) h = refl
take-take (x ∷ xs) (suc m) (suc n) h = ap (◌∷◌ x) (take-take xs m n (omega arith))

-- At most one client, which is the active one, and the text for it fits the buffer.
pub record IsServing (s : Server) : Type 0 where
  pub single : s.nclients ≤ 1
  pub first : s.active_client ≡ 0
  pub fits : fc_len s ≤ buffer_size

-- From a server with at most one client, the active one, and text that fits, `server_send_event` leaves it so:
-- the text does not outgrow the buffer.
pub server_send_event-IsServing :
    (s : Server) (ev : InputEvent) → IsServing s → IsServing (server_send_event s ev).1
unfolding server_send_event
server_send_event-IsServing s ev v =
    if-cases P (s.nclients == 0) _ _ (λ nobody. v)
      λ somebody.
        if-cases P (ltb buffer_size (fc_len s + length (format_event ev))) _ _ (λ full. v)
          λ room. record {
            single = v.single;
            first = v.first;
            fits = rw (length-append s.for_client (format_event ev)) (ltb→le _ _ room);
          }
  where
    P : ℕ × Server → Type 0
    P x = IsServing x.1

server_close_client-IsServing :
    (s : Server) (i : ℕ) → IsServing s → IsServing (server_close_client s i).0
unfolding server_close_client
server_close_client-IsServing s i v = ground arith

write_active-IsServing : (p : Poll) (s : Server) → IsServing s → IsServing (write_active p s).0
unfolding write_active
write_active-IsServing p s v = ground (
  arith,
  server_close_client-IsServing s s.active_client v,
  length-take (fc_len s - pos_part (p.send_len (s.clients s.active_client))) s.for_client,
)

check_clients-IsServing :
    (rounds : ℕ) (p : Poll) (i : ℕ) (s : Server)
    → IsServing s
    → IsServing (check_clients rounds p i s).0
unfolding check_clients
check_clients-IsServing zero p i s v = v
check_clients-IsServing (suc rounds) p i s v = ground (
  arith,
  check_clients-IsServing rounds p i (server_close_client s i).0
      (server_close_client-IsServing s i v),
  check_clients-IsServing rounds p (i + 1) s v,
)

add_client-IsServing : (s : Server) (client : ℕ) → IsServing s → IsServing (add_client s client).0
unfolding add_client
add_client-IsServing s client v = ground arith

-- What a round of the server leaves.
abbrev pub Serves : Poll → Outcome (Server × List ℕ) → Type 0
Serves p (ok (s, closed)) = IsServing s
Serves p (halt h) = (h ≡ exit_with 7) × (p.accepted ≡ Option.none)

accept-Serves :
    (p : Poll) (s : Server) (closed1 closed2 : List ℕ) (o : Option ℕ)
    → p.accepted ≡ o
    → IsServing s
    → Serves p (accept_client s o >>= λ x. ok (x.0, closed1 ++ (closed2 ++ x.1)))
accept-Serves p s closed1 closed2 Option.none e v = (refl, e)
accept-Serves p s closed1 closed2 (Option.some client) e v = add_client-IsServing s client v

-- From a server with at most one client, the active one, and text that fits: after a round of the server,
-- whatever the system calls return, there is at most one client, it is the
-- active one, and the text for it fits the buffer; the server exits only where `accept` failed.
pub server_handle_select-Serves :
    (p : Poll) (s : Server) → IsServing s → Serves p (server_handle_select p s)
unfolding server_handle_select
server_handle_select-Serves p s v =
    if-cases (Serves p) (p.readable s.accept_fd) _ _
      (λ incoming.
        accept-Serves p s2 (write_active p s).1 (check_clients s1.nclients p 0 s1).1 p.accepted refl
          v2)
      (λ nobody. v2)
  where
    s1 : Server
    s1 = (write_active p s).0

    s2 : Server
    s2 = (check_clients s1.nclients p 0 s1).0

    v2 : IsServing s2
    v2 = check_clients-IsServing s1.nclients p 0 s1 (write_active-IsServing p s v)

-- When the active client takes `len` bytes, at most half of the text, the text that is kept begins with
-- those `len` bytes, which were sent already.
pub partial_send_repeats :
    (p : Poll) (s : Server) (len : ℕ)
    → 0 < s.nclients
    → p.writable (s.clients s.active_client) ≡ true
    → p.send_len (s.clients s.active_client) ≡ pos len
    → 0 < len
    → len + len ≤ fc_len s
    → take len (write_active p s).0.for_client ≡ take len s.for_client
unfolding write_active
partial_send_repeats p s len some w e positive half =
    rw (lt→ltb _ _ some, w, e)
      (rw (lt→ltb 0 (len + 0) (omega arith))
        (take-take s.for_client len (fc_len s - len) (omega arith)))
