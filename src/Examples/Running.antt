-- ===== src/Examples/Running.antt =====
-- Rounds of the serve loop with the server, from one turn of the system.
use keytap.Base.{
  All, ℕ, arith, List, [], ◌∷◌, true, if◌then◌else◌, some, none, ◌≡◌, ◌+◌, if-cases, ◌≢◌, ◌==◌,
}
use keytap.Input.{key_press}
use keytap.KeyAction.{KeyAction, tap_on_rollover}
use keytap.Config.Fill.{fill_map-IsKeymap}
use keytap.Resolver.Safety.{IsKeymap}
use keytap.App.{InBound}
use keytap.Server.Watch.{server_app}
use keytap.ServeLoop.Keyboards.{Kbd, Read, idle, gone, event}
use keytap.ServeLoop.Passes.{ReadInRange, IsUsable}
use keytap.ServeLoop.Rounds.{Turn, start_loop, ready, found, watched, serve_rounds, serve_loop}
use keytap.ServeLoop.Running.{TurnFits, TurnInRange, watched-InBound}
use keytap.ServeLoop.Runs.{RunKeeps, serve_rounds-start}
use keytap.ServeLoop.Ledger.{ClosesAll, serve_loop-ClosesAll}
use keytap.Networking.{unix_socket_open}
use keytap.Commands.ServeUnix.{Surroundings, main_serve_unix}
use keytap.Commands.Local.{local_app, main_local}
use keytap.Commands.Tidy.{TidyRun, main_local-TidyRun}
use keytap.Commands.Closing.{GivesBack, main_serve_unix-GivesBack}
use keytap.Examples.{at_ms, caps_keymap, caps_cells, caps_cells-IsBuilt}
use keytap.Examples.Serving.{serving, serving-IsServing, poll}
use keytap.Examples.Permitting.{one_user}

-- Caps lock goes down on one keyboard, and another is gone.
abbrev pub keyboards_read : ℕ → Read
keyboards_read fd =
    if fd == 7
    then event (λ k. at_ms (k + 30)) (key_press 58 (at_ms 0))
    else if fd == 8
    then gone
    else idle

-- The turn, in which a third keyboard is found.
abbrev pub turn : Turn server_app
turn = record {
  keep_going = true;
  selected = ready;
  ready_fds = poll 2;
  time_left = none;
  reads = keyboards_read;
  notified = found (some (record { fd = 9; grab = 0 }) ∷ []);
}

pub turn-TurnInRange : TurnInRange server_app turn
turn-TurnInRange fd =
    if-cases ReadInRange (fd == 7) _ _ (λ seven. λ k. omega arith)
      λ other. if-cases ReadInRange (fd == 8) _ _ (λ eight. tt) (λ none_of_them. tt)

abbrev pub keymaps : ℕ → KeyAction
keymaps g = caps_keymap tap_on_rollover

pub keymaps-IsKeymap : (g : ℕ) → IsKeymap (keymaps g)
keymaps-IsKeymap g =
    fill_map-IsKeymap (caps_cells tap_on_rollover) (caps_cells-IsBuilt tap_on_rollover)

abbrev pub keyboards : List Kbd
keyboards = record { fd = 7; grab = 0 } ∷ record { fd = 8; grab = 0 } ∷ []

pub keyboards-Usable : All (IsUsable keymaps) keyboards
keyboards-Usable = (keymaps-IsKeymap 0, (keymaps-IsKeymap 0, tt))

pub turn-TurnFits : TurnFits server_app keymaps turn
turn-TurnFits = (turn-TurnInRange, (keymaps-IsKeymap 0, tt))

serve_rounds-start_example :
    RunKeeps server_app keymaps
      (serve_rounds server_app (turn ∷ turn ∷ []) (start_loop keymaps keyboards) serving)
serve_rounds-start_example =
    serve_rounds-start server_app keymaps keyboards serving (turn ∷ turn ∷ []) keyboards-Usable
      (omega arith) serving-IsServing (turn-TurnFits, (turn-TurnFits, tt))

serve_loop-ClosesAll_example :
    ClosesAll server_app keymaps keyboards
      (turn ∷ turn ∷ [])
      (serve_loop server_app keymaps keyboards (turn ∷ turn ∷ []) serving)
serve_loop-ClosesAll_example =
    serve_loop-ClosesAll server_app keymaps keyboards (turn ∷ turn ∷ []) serving keyboards-Usable
      (omega arith) serving-IsServing (turn-TurnFits, (turn-TurnFits, tt))

watched-InBound_example : InBound (watched server_app serving 3 (start_loop keymaps keyboards))
watched-InBound_example = watched-InBound server_app serving 3 (start_loop keymaps keyboards)

-- All calls succeed.
abbrev pub around : Surroundings
around = record {
  calls = record { opened = some 4; locks = true; socket = some 5; binds = true; unlocks = true };
  sys = one_user;
  listens = true;
  keymaps = keymaps;
  kbs = keyboards;
  turns = turn ∷ turn ∷ [];
}

pub around_two :
    (sockfd lockfd : ℕ)
    → around.calls.socket ≡ some sockfd
    → around.calls.opened ≡ some lockfd
    → sockfd ≢ lockfd
around_two sockfd lockfd s l e =
    let five : 5 ≡ sockfd = cc in let four : 4 ≡ lockfd = cc in omega (arith, e, five, four)

main_serve_unix-GivesBack_example :
    GivesBack
      (unix_socket_open around.calls (b's' ∷ [])).0
      (main_serve_unix around none none none (b's' ∷ []))
main_serve_unix-GivesBack_example =
    main_serve_unix-GivesBack around none none none (b's' ∷ []) around_two keyboards-Usable
      (omega arith) (turn-TurnFits, (turn-TurnFits, tt))

-- The same turn for a program that has its own output.
abbrev pub local_turn : Turn local_app
local_turn = record {
  keep_going = true;
  selected = ready;
  ready_fds = tt;
  time_left = none;
  reads = keyboards_read;
  notified = found [];
}

local_turn-TurnFits : TurnFits local_app keymaps local_turn
local_turn-TurnFits = (turn-TurnInRange, tt)

main_local-TidyRun_example :
    TidyRun (main_local (some 4) keymaps keyboards (local_turn ∷ local_turn ∷ []))
main_local-TidyRun_example =
    main_local-TidyRun (some 4) keymaps keyboards (local_turn ∷ local_turn ∷ []) keyboards-Usable
      (omega arith) (local_turn-TurnFits, (local_turn-TurnFits, tt))
