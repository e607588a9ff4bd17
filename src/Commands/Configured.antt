-- ===== src/Commands/Configured.antt =====
-- The program with the configuration and the devices in it: `main` on what running a configuration file makes, and on
-- the keyboards that open for it.
use keytap.Base.{ℕ, ℤ, ◌≡◌, ◌≢◌, Bool, List, [], ◌∷◌, map, Option, some, All, subst, arith}
use keytap.EventReader.{Sscanf}
use keytap.TimeUtil.{Timeval}
use keytap.Config.Lua.{Bytes, Names}
use keytap.Config.Copy.{BuiltValue}
use keytap.Config.Grabs.{Regexes, Grab, UsableGrab, UsableGrabs}
use keytap.Config.Loading.{Script, GrabCall, args_of, config_new, config_new-UsableGrabs}
use keytap.Devices.{Device}
use keytap.Devices.Places.{keymap_at, kbd_of, kbd_of-FoundUsable}
use keytap.Permissions.{System}
use keytap.Networking.{UnixCalls}
use keytap.Networking.Addresses.{Address}
use keytap.App.{App}
use keytap.ServeLoop.Keyboards.{Read}
use keytap.ServeLoop.Passes.{ReadInRange}
use keytap.ServeLoop.Rounds.{Turn, Selected, Notified, quiet, broken, found, add_found}
use keytap.ServeLoop.Running.{TurnFits}
use keytap.ServeLoop.Adding.{found_by, FoundUsable, add_found-Usable, length-add_found}
use keytap.Server.Watch.{server_app}
use keytap.EventReader.Stream.{Got}
use keytap.CommandLine.{Given}
use keytap.Commands.Local.{local_app}
use keytap.Commands.Main.{World, main}
use keytap.Commands.Ends.{MainEnds}
use keytap.Commands.Whole.{IsSound, IsLoaded, main-MainEnds}

-- A turn of the system, in which inotify gives devices.
pub data Noticed : Type 0 where
  nothing_new unreadable : Noticed
  created : List Device → Noticed

pub record RawTurn (app : App) : Type 0 where
  pub keep_going : Bool
  pub selected : Selected
  pub ready_fds : app.Ready
  pub time_left : Option Timeval
  pub reads : ℕ → Read
  pub noticed : Noticed

-- What the libraries and the system give, before anything is made of it: the configuration's names and regular
-- expressions, what each file does, and the devices.
pub record Machine : Type 1 where
  pub names_ready : Bool
  pub key_names : Names
  pub regexes : Regexes
  pub allocates : Bool
  pub script : Bytes → Script
  pub atoi : Bytes → ℤ
  pub devices : List Device
  pub output : Option ℕ
  pub calls : UnixCalls
  pub sys : System
  pub listens : Bool
  pub addresses : Option (List Address)
  pub server_turns : List (RawTurn server_app)
  pub local_turns : List (RawTurn local_app)
  pub sscanf : Sscanf
  pub gots : List Got

module _ (re : Regexes) (gs : List (Grab re)) where
  -- `handle_inotify_events` opens the devices with the grabs of the configuration.
  abbrev pub notified_of : Noticed → Notified
  notified_of nothing_new = quiet
  notified_of unreadable = broken
  notified_of (created ds) = found (map (kbd_of re gs) ds)

  abbrev pub turn_of : (app : App) → RawTurn app → Turn app
  turn_of app t = record {
    keep_going = t.keep_going;
    selected = t.selected;
    ready_fds = t.ready_fds;
    time_left = t.time_left;
    reads = t.reads;
    notified = notified_of t.noticed;
  }

  module _ (names : Names) (usable : All (UsableGrab re names) gs) where
    devices-FoundUsable :
        (ds : List Device) → All (FoundUsable (keymap_at re gs)) (map (kbd_of re gs) ds)
    devices-FoundUsable [] = tt
    devices-FoundUsable (d ∷ ds) = (kbd_of-FoundUsable re names gs d usable, devices-FoundUsable ds)

    turns-TurnFits :
        (app : App) (ts : List (RawTurn app))
        → All (λ (t : RawTurn app). (fd : ℕ) → ReadInRange (t.reads fd)) ts
        → All (TurnFits app (keymap_at re gs)) (map (turn_of app) ts)
    turns-TurnFits app [] h = tt
    turns-TurnFits app (t ∷ ts) h = ((h.0, noticed t.noticed), turns-TurnFits app ts h.1)
      where
        noticed : (n : Noticed) → All (FoundUsable (keymap_at re gs)) (found_by (notified_of n))
        noticed nothing_new = tt
        noticed unreadable = tt
        noticed (created ds) = devices-FoundUsable ds

-- The world that such a machine makes: the configuration is the list of its grabs.
abbrev pub world_of : Machine → World
world_of m = record {
  names_ready = m.names_ready;
  Config = List (Grab m.regexes);
  config_new = λ file. config_new m.regexes m.key_names m.allocates (m.script file);
  atoi = m.atoi;
  keymaps = keymap_at m.regexes;
  kbs = λ gs. add_found (map (kbd_of m.regexes gs) m.devices) [];
  output = m.output;
  calls = m.calls;
  sys = m.sys;
  listens = m.listens;
  addresses = m.addresses;
  server_turns = λ gs. map (turn_of m.regexes gs server_app) m.server_turns;
  local_turns = λ gs. map (turn_of m.regexes gs local_app) m.local_turns;
  sscanf = m.sscanf;
  gots = m.gots;
}

-- The files' values were built by the configuration's functions, no event has the code `key_max`, and the system gives
-- two descriptors for the socket and the lock file.
pub record IsOrdinary (m : Machine) : Type 0 where
  pub built :
      (file : Bytes) → All (λ (c : GrabCall). All BuiltValue (args_of c)) (m.script file).calls
  pub server_reads :
      All (λ (t : RawTurn server_app). (fd : ℕ) → ReadInRange (t.reads fd)) m.server_turns
  pub local_reads :
      All (λ (t : RawTurn local_app). (fd : ℕ) → ReadInRange (t.reads fd)) m.local_turns
  pub two :
      (sockfd lockfd : ℕ)
      → m.calls.socket ≡ some sockfd
      → m.calls.opened ≡ some lockfd
      → sockfd ≢ lockfd

module _ (m : Machine) (ordinary : IsOrdinary m) where
  loaded-UsableGrab :
      (gs : List (Grab m.regexes))
      → IsLoaded (world_of m) gs
      → All (UsableGrab m.regexes m.key_names) gs
  loaded-UsableGrab gs (file, e) = subst (UsableGrabs m.regexes m.key_names) e (
      config_new-UsableGrabs m.regexes m.key_names m.allocates (m.script file)
        (ordinary.built file))

  world_of-IsSound : IsSound (world_of m)
  world_of-IsSound = record {
    usable = λ gs l.
        add_found-Usable (keymap_at m.regexes gs) (map (kbd_of m.regexes gs) m.devices) []
          (devices-FoundUsable m.regexes gs m.key_names (loaded-UsableGrab gs l) m.devices) tt;
    fits = λ gs l. length-add_found (map (kbd_of m.regexes gs) m.devices) [] (omega arith);
    two = ordinary.two;
    server_range = λ gs l.
        turns-TurnFits m.regexes gs m.key_names (loaded-UsableGrab gs l) server_app m.server_turns
          ordinary.server_reads;
    local_range = λ gs l.
        turns-TurnFits m.regexes gs m.key_names (loaded-UsableGrab gs l) local_app m.local_turns
          ordinary.local_reads;
  }

  -- The whole program on any devices and command line, and a configuration file that comes to an end: it comes to an exit status, or goes on, or
  -- calls `exit` with 0 for help, 1 at a full ring, 3 on a failed read from inotify, or 7 on a failed `accept`.
  -- The only effect of the file is calls of `grab_keyboard` and `ignore_keyboard` with values that the configuration's functions built, and its first error ends it; no
  -- event has the code `key_max`, and the socket and the lock file get two descriptors.
  pub main-Configured :
      (given : List Given) (args : List Bytes) → MainEnds (main (world_of m) given args)
  main-Configured given args = main-MainEnds (world_of m) world_of-IsSound given args
