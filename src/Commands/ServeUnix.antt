-- ===== src/Commands/ServeUnix.antt =====
-- sdiol.c, `main_serve_unix`.
use keytap.Base.{
  true, false, ℕ, zero, suc, ◌+◌, ℤ, pos, negsuc, Bool, if◌then◌else◌, Cells, Outcome, ok, ◌>>=◌,
  List, [], ◌∷◌, ◌++◌, Option, some, none,
}
use keytap.KeyAction.{KeyAction}
use keytap.Config.Lua.{Bytes}
use keytap.Server.{Server}
use keytap.Server.Watch.{server_app}
use keytap.Permissions.{System, Call, set_file_perms}
use keytap.Networking.{Act, UnixCalls, unix_socket_open, unix_socket_close}
use keytap.ServeLoop.Keyboards.{Kbd}
use keytap.ServeLoop.Rounds.{Turn, Ending, serve_loop}

-- What the system and the configuration give to the command.
pub record Surroundings : Type 0 where
  pub calls : UnixCalls
  pub sys : System
  pub listens : Bool
  pub keymaps : ℕ → KeyAction
  pub kbs : List Kbd
  pub turns : List (Turn server_app)

-- The return value, or `none` while the command runs; the calls on the socket and the lock file; those on the socket's
-- permissions; and the descriptors of keyboards and clients closed at the end.
pub record Run : Type 0 where
  pub retval : Option ℤ
  pub acts : List Act
  pub perms : List Call
  pub closed : List ℕ

-- "600"
abbrev pub mode_or_default : Option Bytes → Bytes
mode_or_default none = b'6' ∷ b'0' ∷ b'0' ∷ []
mode_or_default (some mode) = mode

abbrev pub start_server : ℕ → Server
start_server sockfd = record {
  clients = λ _. 0;
  nclients = 0;
  active_client = 0;
  for_client = [];
  accept_fd = sockfd;
}

-- The descriptors of the first `n` clients.
abbrev pub clients_from : Cells ℕ → ℕ → ℕ → List ℕ
clients_from clients i zero = []
clients_from clients i (suc n) = clients i ∷ clients_from clients (i + 1) n

-- The label `cu_socket`, with the calls made before.
abbrev pub clean_up : Surroundings → ℕ → ℕ → List Act → List Act
clean_up e sockfd lockfd acts = acts ++ unix_socket_close e.calls sockfd lockfd

abbrev pub returned :
    Surroundings → ℕ → ℕ → List Act → List Call → Ending server_app → Option ℕ → Run
returned e sockfd lockfd acts perms r none = record {
  retval = none;
  acts = acts;
  perms = perms;
  closed = r.closed;
}
returned e sockfd lockfd acts perms r (some n) = record {
  retval = some (pos n);
  acts = clean_up e sockfd lockfd acts;
  perms = perms;
  closed = r.closed ++ clients_from r.state.clients 0 r.state.nclients;
}

abbrev pub after_loop :
    Surroundings → ℕ → ℕ → List Act → List Call → Option (Ending server_app) → Outcome (Option Run)
after_loop e sockfd lockfd acts perms none = ok none
after_loop e sockfd lockfd acts perms (some r) =
    ok (some (returned e sockfd lockfd acts perms r r.retval))

-- The jump to `cu_socket` where the permissions or `listen` fail.
abbrev pub refused : Surroundings → ℕ → ℕ → List Act → List Call → Run
refused e sockfd lockfd acts perms = record {
  retval = some (negsuc 0);
  acts = clean_up e sockfd lockfd acts;
  perms = perms;
  closed = [];
}

abbrev pub with_perms : Surroundings → ℕ → ℕ → List Act → Bool × List Call → Outcome (Option Run)
with_perms e sockfd lockfd acts (false, perms) = ok (some (refused e sockfd lockfd acts perms))
with_perms e sockfd lockfd acts (true, perms) =
    if e.listens
    then serve_loop server_app e.keymaps e.kbs e.turns (start_server sockfd)
      >>= after_loop e sockfd lockfd acts perms
    else ok (some (refused e sockfd lockfd acts perms))

abbrev pub with_socket :
    Surroundings
    → Bytes
    → Option Bytes
    → Option Bytes
    → Option Bytes
    → Option (ℕ × ℕ) × List Act
    → Outcome (Option Run)
with_socket e socket user group mode (none, acts) =
    ok (some (record { retval = some (pos 1); acts = acts; perms = []; closed = [] }))
with_socket e socket user group mode (some (sockfd, lockfd), acts) =
    with_perms e sockfd lockfd acts
      (set_file_perms e.sys socket user group (some (mode_or_default mode)))

-- With the options that it reads from `runopts`: the user, the group and the mode.
unfoldable pub main_serve_unix :
    Surroundings → Option Bytes → Option Bytes → Option Bytes → Bytes → Outcome (Option Run)
unfolding unix_socket_open unix_socket_close set_file_perms serve_loop
main_serve_unix e user group mode socket =
    with_socket e socket user group mode (unix_socket_open e.calls socket)
