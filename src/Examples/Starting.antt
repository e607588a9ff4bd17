-- ===== src/Examples/Starting.antt =====
-- The program started with `sdiol --verbose serve s`, with a configuration of two calls.
use keytap.Base.{map, refl, ◌≡◌, arith, [], ◌∷◌, some, none, true, pos}
use keytap.Config.Copy.{BuiltValue}
use keytap.Devices.{Device, open_devices}
use keytap.Devices.Places.{seen, seen_at, kbd_of, open_devices-add_found}
use keytap.ServeLoop.Rounds.{ready, add_found}
use keytap.Server.Watch.{server_app}
use keytap.CommandLine.{verbose}
use keytap.CommandLine.Dispatch.{serve_word}
use keytap.Commands.Main.{main}
use keytap.Commands.Ends.{MainEnds}
use keytap.Commands.Configured.{created, RawTurn, Machine, IsOrdinary, world_of, main-Configured}
use keytap.Examples.Configuring.{one_name, any_device, two_calls}
use keytap.Examples.Permitting.{one_user}
use keytap.Examples.Running.{keymaps-IsKeymap, keyboards_read, turn-TurnInRange, around, around_two}
use keytap.Examples.Serving.{poll, letters, two_grabs, mouse}

-- A keyboard that opens and can be grabbed.
abbrev keyboard : Device
keyboard = record { fd = some 7; name = 65 ∷ []; grabs = true }

abbrev raw_turn : RawTurn server_app
raw_turn = record {
  keep_going = true;
  selected = ready;
  ready_fds = poll 2;
  time_left = none;
  reads = keyboards_read;
  noticed = created (keyboard ∷ []);
}

abbrev machine : Machine
machine = record {
  names_ready = true;
  key_names = one_name;
  regexes = any_device;
  allocates = true;
  script = λ file. two_calls;
  atoi = λ text. pos 0;
  devices = keyboard ∷ [];
  output = some 4;
  calls = around.calls;
  sys = one_user;
  listens = true;
  addresses = none;
  server_turns = raw_turn ∷ raw_turn ∷ [];
  local_turns = [];
  sscanf = λ format text. [];
  gots = [];
}

machine-IsOrdinary : IsOrdinary machine
unfolding BuiltValue
machine-IsOrdinary = record {
  built = λ file. ((tt, ((omega arith, tt), tt)), ((tt, tt), tt));
  server_reads = (turn-TurnInRange, (turn-TurnInRange, tt));
  local_reads = tt;
  two = around_two;
}

main-Configured_example :
    MainEnds (main (world_of machine) (verbose ∷ []) (serve_word ∷ (b's' ∷ []) ∷ []))
main-Configured_example =
    main-Configured machine machine-IsOrdinary (verbose ∷ []) (serve_word ∷ (b's' ∷ []) ∷ [])

open_devices-add_found_example :
    map (seen letters) (open_devices letters two_grabs [] (mouse ∷ keyboard ∷ []))
    ≡ map
        (seen_at letters two_grabs)
        (add_found (map (kbd_of letters two_grabs) (mouse ∷ keyboard ∷ [])) [])
open_devices-add_found_example =
    open_devices-add_found letters one_name two_grabs (mouse ∷ keyboard ∷ []) [] []
      ((λ e. cc), ((λ e. keymaps-IsKeymap 0), tt)) refl
