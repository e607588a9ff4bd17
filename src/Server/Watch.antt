-- ===== src/Server/Watch.antt =====
-- server.c, `server_prep_select`, and the server as an application of the serve loop.
use keytap.Base.{
  ℕ, zero, suc, ◌+◌, ◌≡◌, ltb, ◌&&◌, if◌then◌else◌, if-cases, Outcome, ok, halt, Halt, exit_with,
  ◌>>=◌, List,
}
use keytap.App.{App, Watched, none_watched, watch_rd, watch_wr, InBound, Keeps}
use keytap.App.Watching.{none_watched-InBound, watch_rd-InBound, watch_wr-InBound}
use keytap.Server.{Server, Poll, fc_len, server_send_event, server_handle_select}
use keytap.Server.Laws.{IsServing, Serves, server_send_event-IsServing, server_handle_select-Serves}

-- The loop over the clients from index `i`, with the rounds left.
unfoldable pub watch_clients : ℕ → ℕ → Server → Watched → Watched
unfolding watch_rd
watch_clients zero i s w = w
watch_clients (suc rounds) i s w = watch_clients rounds (i + 1) s (watch_rd (s.clients i) w)

unfoldable pub server_prep_select : Server → Watched
unfolding watch_clients watch_rd watch_wr
server_prep_select s =
    let w = watch_clients s.nclients 0 s (watch_rd s.accept_fd none_watched) in
    if ltb 0 s.nclients && ltb 0 (fc_len s) then watch_wr (s.clients s.active_client) w else w

watch_clients-InBound :
    (rounds i : ℕ) (s : Server) (w : Watched) → InBound w → InBound (watch_clients rounds i s w)
unfolding watch_clients
watch_clients-InBound zero i s w h = h
watch_clients-InBound (suc rounds) i s w h =
    watch_clients-InBound rounds (i + 1) s (watch_rd (s.clients i) w)
      (watch_rd-InBound (s.clients i) w h)

pub server_prep_select-InBound : (s : Server) → InBound (server_prep_select s)
unfolding server_prep_select
server_prep_select-InBound s =
    if-cases InBound (ltb 0 s.nclients && ltb 0 (fc_len s)) _ _
      (λ writes. watch_wr-InBound (s.clients s.active_client) w watched) (λ quiet. watched)
  where
    w : Watched
    w = watch_clients s.nclients 0 s (watch_rd s.accept_fd none_watched)

    watched : InBound w
    watched =
        watch_clients-InBound s.nclients 0 s _
          (watch_rd-InBound s.accept_fd none_watched none_watched-InBound)

-- Of the result of a round the application keeps the server.
unfoldable pub handle : Poll → Server → Outcome Server
unfolding server_handle_select
handle p s = server_handle_select p s >>= λ x. ok x.0

pub handle-Keeps :
    (p : Poll) (s : Server) → IsServing s → Keeps IsServing (λ h. h ≡ exit_with 7) (handle p s)
unfolding handle
handle-Keeps p s v = kept (server_handle_select p s) (server_handle_select-Serves p s v)
  where
    kept :
        (m : Outcome (Server × List ℕ))
        → Serves p m
        → Keeps IsServing (λ (h : Halt). h ≡ exit_with 7) (m >>= λ x. ok x.0)
    kept (ok x) v = v
    kept (halt h) v = v.0

abbrev pub server_app : App
server_app = record {
  State = Server;
  Ready = Poll;
  send = λ s ev. (server_send_event s ev).1;
  prep_select = server_prep_select;
  handle_select = handle;
  IsGood = IsServing;
  Stops = λ h. h ≡ exit_with 7;
  send-IsGood = server_send_event-IsServing;
  handle_select-Keeps = handle-Keeps;
  prep_select-InBound = server_prep_select-InBound;
}
