-- ===== src/Commands/Tables.antt =====
-- From a table of the configuration to the events written: a table whose values are keys and chains of keys.
use keytap.Base.{ℕ, ◌<◌, ◌≡◌, false, List, [], ◌∷◌, some, All, ◌++◌, subst, sym}
use keytap.Input.{key_max}
use keytap.KeyAction.{KeyAction}
use keytap.Config.Lua.{Bytes, string, table, Entries, Names}
use keytap.Config.Typing.{last_value}
use keytap.Config.Grabs.{Regexes, Grab, lua_grab_keyboard}
use keytap.Resolver.Remap.{IsPlain}
use keytap.ServeLoop.Keyboards.{Kbd}
use keytap.ServeLoop.Rounds.{Turn}
use keytap.ServeLoop.Running.{TurnInRange}
use keytap.ServeLoop.Remapping.{remap_all}
use keytap.Commands.Local.{local_app, main_local}
use keytap.Commands.Dealing.{run_events}
use keytap.Commands.Remapped.{WritesOut, none_held, main_local-WritesOut}
use keytap.Config.Tables.{
  PlainTable, table_keymap, standing_for, standing-IsPlain, last-PlainCell,
  table_keymap-standing_for, grab_keyboard-table,
}

module _ (names : Names) (re : Regexes) where
  open re use {Regex, regcomp}

  -- Grabs whose tables have names as keys, with codes other than 0, and as values key codes below `key_max` and
  -- keys and chains of keys that were built: `grab_keyboard`, where its pattern compiles, appends a grab with a
  -- keymap in which each code below `key_max` stands for the action of the last entry for it, and for itself where
  -- there is none. `main_local` with such keymaps, an output that opened and one or more keyboards, and without
  -- events of the code `key_max`, writes what the deduper lets through of what `remap_all` makes of the events
  -- read by these keymaps, and is stopped by nothing but a failed read from inotify.
  pub grab_keyboard-WritesOut :
      (tables : ℕ → Entries) (grabs : List (Grab re)) (pattern : Bytes) (regex : Regex) (g c : ℕ)
      (out_fd : ℕ) (k : Kbd) (kbs : List Kbd) (turns : List (Turn local_app))
      → regcomp pattern ≡ some regex
      → ((h : ℕ) → PlainTable names (tables h))
      → c < key_max
      → All (TurnInRange local_app) turns
      → (lua_grab_keyboard re names grabs (string pattern ∷ table (tables g) ∷ [])
          ≡ some (
              grabs
              ++ (record {
                regex = regex;
                ignore = false;
                keymap = KeyAction.map (table_keymap names (tables g));
              }
                  ∷ [])))
        × (table_keymap names (tables g) c ≡ standing_for c (last_value names c (tables g)))
        × WritesOut
            (remap_all
              (λ h. table_keymap names (tables h))
              none_held
              (run_events turns (k ∷ kbs))).1
            (main_local
              (some out_fd)
              (λ h. KeyAction.map (table_keymap names (tables h)))
              (k ∷ kbs)
              turns)
  grab_keyboard-WritesOut tables grabs pattern regex g c out_fd k kbs turns compiled p lt range = (
    grab_keyboard-table names re grabs pattern regex (tables g) compiled (p g),
    table_keymap-standing_for names (tables g) c (p g) lt,
    main_local-WritesOut (λ h. table_keymap names (tables h)) out_fd k kbs turns
        (λ h i i_lt. subst IsPlain (sym (table_keymap-standing_for names (tables h) i (p h) i_lt)) (
          standing-IsPlain names i (last_value names i (tables h)) i_lt
            (last-PlainCell names i (tables h) (p h))))
        range,
  )
