-- ===== src/Examples/Remapping.antt =====
-- A keymap of keys and chains of keys, on two keyboards with the same grab.
use keytap.Base.{
  ℕ, ◌==◌, if◌then◌else◌, if-cases, true, false, Bool, arith, some, none, List, [], ◌∷◌, ◌<◌, ◌↔◌,
  ◌≡◌, update, refl,
}
use keytap.Input.{key_press, key_release, key_max}
use keytap.KeyAction.{KeyAction, simple, macro, map}
use keytap.Config.Lua.{Entries, entry, done, string, table, userdata}
use keytap.Config.Tables.{PlainTable, table_keymap, standing_for}
use keytap.Config.Grabs.{lua_grab_keyboard}
use keytap.Commands.Tables.{grab_keyboard-WritesOut}
use keytap.Config.Copy.{copy_to_key_action}
use keytap.Config.Typing.{last_value, Reads, copy_to_key_action-Reads}
use keytap.Resolver.Remap.{IsPlain}
use keytap.ServeLoop.Keyboards.{Kbd, Read, idle, event}
use keytap.ServeLoop.Passes.{ReadInRange}
use keytap.ServeLoop.Remapping.{Keymaps, remap_all}
use keytap.ServeLoop.Rounds.{Turn, ready, quiet}
use keytap.Commands.Local.{local_app, main_local}
use keytap.Commands.Dealing.{run_events}
use keytap.Commands.Remapped.{WritesOut, none_held, main_local-WritesOut}
use keytap.Examples.{at_ms}
use keytap.Examples.Configuring.{any_device, caps_name, one_name, caps_table}

-- Caps lock is escape, A is B pressed and released, and every other key is itself.
abbrev swapped : Keymaps
swapped g c =
    if c == 58
    then simple 1
    else if c == 30
    then macro (record { code = 48; press = true } ∷ record { code = 48; press = false } ∷ [])
    else simple c

swapped-IsPlain : (g c : ℕ) → c < key_max → IsPlain (swapped g c)
swapped-IsPlain g c lt =
    if-cases IsPlain (c == 58) _ _ (λ caps. omega arith)
      λ other. if-cases IsPlain (c == 30) _ _ (λ a. (omega arith, (omega arith, tt))) (λ rest. lt)

-- The first keyboard presses or releases caps lock, and the second presses A.
abbrev both_read : Bool → ℕ → Read
both_read down fd =
    if fd == 7
    then event (λ k. at_ms k) (if down then key_press 58 (at_ms 0) else key_release 58 (at_ms 5))
    else if fd == 8
    then event (λ k. at_ms k) (key_press 30 (at_ms 1))
    else idle

both_read-InRange : (down : Bool) (fd : ℕ) → ReadInRange (both_read down fd)
both_read-InRange true fd =
    if-cases ReadInRange (fd == 7) _ _ (λ seven. λ k. omega arith)
      λ other. if-cases ReadInRange (fd == 8) _ _ (λ eight. λ k. omega arith) (λ rest. tt)
both_read-InRange false fd =
    if-cases ReadInRange (fd == 7) _ _ (λ seven. λ k. omega arith)
      λ other. if-cases ReadInRange (fd == 8) _ _ (λ eight. λ k. omega arith) (λ rest. tt)

abbrev both_turn : Bool → Turn local_app
both_turn down = record {
  keep_going = true;
  selected = ready;
  ready_fds = tt;
  time_left = none;
  reads = both_read down;
  notified = quiet;
}

abbrev two_turns : List (Turn local_app)
two_turns = both_turn true ∷ both_turn false ∷ []

abbrev two_keyboards : List Kbd
two_keyboards = record { fd = 7; grab = 0 } ∷ record { fd = 8; grab = 0 } ∷ []

main_local-WritesOut_example :
    WritesOut
      (remap_all swapped none_held (run_events two_turns two_keyboards)).1
      (main_local (some 4) (λ g. map (swapped g)) two_keyboards two_turns)
main_local-WritesOut_example =
    main_local-WritesOut swapped 4 (record { fd = 7; grab = 0 }) (record { fd = 8; grab = 0 } ∷ [])
      two_turns swapped-IsPlain (both_read-InRange true, (both_read-InRange false, tt))

-- The table with caps lock as escape.
abbrev caps_only : KeyAction
caps_only = map (update (λ _. KeyAction.none) 58 (simple 1))

copy_to_key_action-Reads_example :
    (copy_to_key_action one_name caps_table ≡ some caps_only) ↔ Reads one_name caps_table caps_only
copy_to_key_action-Reads_example = copy_to_key_action-Reads one_name caps_table caps_only

-- A table with caps lock as escape, for every grab.
abbrev caps_entries : Entries
caps_entries = entry (string caps_name) (userdata (simple 1)) done

caps_entries-PlainTable : PlainTable one_name caps_entries
caps_entries-PlainTable = ((58, (refl, λ e. omega (arith, e))), omega arith, tt)

grab_keyboard-WritesOut_example :
    (lua_grab_keyboard any_device one_name [] (string [] ∷ table caps_entries ∷ [])
      ≡ some (
          record { regex = []; ignore = false; keymap = map (table_keymap one_name caps_entries) }
          ∷ []))
    × (table_keymap one_name caps_entries 58
        ≡ standing_for 58 (last_value one_name 58 caps_entries))
    × WritesOut
        (remap_all
          (λ h. table_keymap one_name caps_entries)
          none_held
          (run_events two_turns two_keyboards)).1
        (main_local
          (some 4)
          (λ h. map (table_keymap one_name caps_entries))
          two_keyboards
          two_turns)
grab_keyboard-WritesOut_example =
    grab_keyboard-WritesOut one_name any_device (λ h. caps_entries) [] [] [] 0 58 4
      (record { fd = 7; grab = 0 }) (record { fd = 8; grab = 0 } ∷ []) two_turns refl
      (λ h. caps_entries-PlainTable) (omega arith)
      (both_read-InRange true, (both_read-InRange false, tt))
