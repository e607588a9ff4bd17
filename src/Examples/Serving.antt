-- ===== src/Examples/Serving.antt =====
-- The server and the devices at work.
use keytap.Base.{
  ℕ, ◌==◌, pos, true, false, Bool, refl, arith, ◌≡◌, Option, List, [], ◌∷◌, take, length,
}
use keytap.KeyAction.{tap_on_rollover}
use keytap.KeyAction
use keytap.Config.Lua.{Bytes}
use keytap.Config.Grabs.{Regexes, Grab}
use keytap.Devices.{Device}
use keytap.Server.{Server, Poll, server_handle_select, write_active}
use keytap.Server.Laws.{IsServing, Serves, server_handle_select-Serves, partial_send_repeats}
use keytap.Examples.{caps_keymap}

-- One client, for which four bytes wait, and another that connects.
abbrev pub serving : Server
serving = record {
  clients = λ _. 5;
  nclients = 1;
  active_client = 0;
  for_client = 10 ∷ 11 ∷ 12 ∷ 13 ∷ [];
  accept_fd = 4;
}

pub serving-IsServing : IsServing serving
serving-IsServing = record { single = omega arith; first = refl; fits = omega arith }

abbrev pub poll : ℕ → Poll
poll sent = record {
  readable = λ fd. fd == 4;
  writable = λ fd. fd == 5;
  send_len = λ _. pos sent;
  read_len = λ _. pos 1;
  accepted = Option.some 6;
}

server_handle_select-Serves_example : Serves (poll 2) (server_handle_select (poll 2) serving)
server_handle_select-Serves_example = server_handle_select-Serves (poll 2) serving serving-IsServing

partial_send_repeats_example : take 2 (write_active (poll 2) serving).0.for_client ≡ 10 ∷ 11 ∷ []
partial_send_repeats_example =
    partial_send_repeats (poll 2) serving 2 (omega arith) refl refl (omega arith) (omega arith)

-- Patterns that match a name that begins with their byte.
pub first_byte : ℕ → Bytes → Bool
first_byte p [] = false
first_byte p (c ∷ cs) = p == c

abbrev pub letters : Regexes
letters = record { Regex = ℕ; regcomp = λ t. Option.some (length t); matches = first_byte }

abbrev pub two_grabs : List (Grab letters)
two_grabs =
    record { regex = 90; ignore = true; keymap = KeyAction.none }
    ∷ record { regex = 65; ignore = false; keymap = caps_keymap tap_on_rollover }
    ∷ []

abbrev pub mouse : Device
mouse = record { fd = Option.some 9; name = 90 ∷ 66 ∷ []; grabs = true }
