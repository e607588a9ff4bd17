-- ===== src/Commands/Remote.antt =====
-- sdiol.c, `main_read`, `main_connect` and `main_serve_tcp`: the two ends of a connection.
use keytap.Base.{
  ℕ, ℤ, pos, negsuc, Outcome, ok, ◌>>=◌, List, [], ◌∷◌, ◌++◌, Option, some, none, true, false, map,
}
use keytap.Input.{InputEvent}
use keytap.KeyAction.{KeyAction}
use keytap.Server.Watch.{server_app}
use keytap.EventReader.{Sscanf}
use keytap.EventReader.Stream.{Got, Reading, read_loop}
use keytap.Networking.Addresses.{Address, gai_open}
use keytap.ServeLoop.Keyboards.{Kbd}
use keytap.ServeLoop.Rounds.{Turn, Ending, serve_loop}
use keytap.Commands.ServeUnix.{start_server, clients_from}

-- The return value, or `none` while the command runs; the events sent to the virtual keyboard; the descriptors closed.
pub record ReadRun : Type 0 where
  pub retval : Option ℕ
  pub sent : List InputEvent
  pub closed : List ℤ

abbrev pub close_read : ℕ → Reading → Option ℕ → ReadRun
close_read out_fd r none = record { retval = none; sent = r.sent; closed = [] }
close_read out_fd r (some n) = record { retval = some n; sent = r.sent; closed = pos out_fd ∷ [] }

abbrev pub read_ended : ℕ → Option Reading → Option ReadRun
read_ended out_fd none = none
read_ended out_fd (some r) = some (close_read out_fd r r.retval)

-- What `open_output` gives, `sscanf`, and what the rounds give.
unfoldable pub main_read : Option ℕ → Sscanf → List Got → Option ReadRun
unfolding read_loop
main_read none sscanf gots = some (record { retval = some 1; sent = []; closed = [] })
main_read (some out_fd) sscanf gots = read_ended out_fd (read_loop sscanf gots [])

abbrev pub close_sock : ℤ → List ℤ → ReadRun → Option ℕ → ReadRun
close_sock sock tried r none = record r { closed = tried ++ r.closed }
close_sock sock tried r (some n) = record r { closed = tried ++ (r.closed ++ (sock ∷ [])) }

abbrev pub connection_ended : ℤ → List ℤ → Option ReadRun → Option ReadRun
connection_ended sock tried none = none
connection_ended sock tried (some r) = some (close_sock sock tried r r.retval)

abbrev pub connected : ℤ × List ℤ → Option ℕ → Sscanf → List Got → Option ReadRun
connected (negsuc n, tried) output sscanf gots =
    some (record { retval = some 1; sent = []; closed = tried })
connected (pos sock, tried) output sscanf gots =
    connection_ended (pos sock) tried (main_read output sscanf gots)

-- The addresses of the host and port, if `getaddrinfo` gives them, and what `main_read` needs.
unfoldable pub main_connect : Option (List Address) → Option ℕ → Sscanf → List Got → Option ReadRun
unfolding gai_open main_read
main_connect addresses output sscanf gots = connected (gai_open false addresses) output sscanf gots

-- The return value, or `none` while the command runs, and the descriptors closed.
pub record TcpRun : Type 0 where
  pub retval : Option ℕ
  pub closed : List ℤ

abbrev pub close_server : ℕ → List ℤ → Ending server_app → Option ℕ → TcpRun
close_server accept_fd tried r none = record { retval = none; closed = tried ++ map pos r.closed }
close_server accept_fd tried r (some n) = record {
  retval = some n;
  closed =
      tried
      ++ map pos
          (r.closed ++ (clients_from r.state.clients 0 r.state.nclients ++ (accept_fd ∷ [])));
}

abbrev pub tcp_ended : ℕ → List ℤ → Option (Ending server_app) → Outcome (Option TcpRun)
tcp_ended accept_fd tried none = ok none
tcp_ended accept_fd tried (some r) = ok (some (close_server accept_fd tried r r.retval))

abbrev pub accepting :
    ℤ × List ℤ → (ℕ → KeyAction) → List Kbd → List (Turn server_app) → Outcome (Option TcpRun)
accepting (negsuc n, tried) keymaps kbs turns =
    ok (some (record { retval = some 1; closed = tried }))
accepting (pos fd, tried) keymaps kbs turns =
    serve_loop server_app keymaps kbs turns (start_server fd) >>= tcp_ended fd tried

unfoldable pub main_serve_tcp :
    Option (List Address)
    → (ℕ → KeyAction)
    → List Kbd
    → List (Turn server_app)
    → Outcome (Option TcpRun)
unfolding gai_open serve_loop
main_serve_tcp addresses keymaps kbs turns = accepting (gai_open true addresses) keymaps kbs turns
