-- ===== src/Examples/Configuring.antt =====
-- The configuration functions at work.
use keytap.Base.{
  ℕ, ◌<◌, ◌==◌, if◌then◌else◌, pos, true, refl, arith, ◌≡◌, Option, [], ◌∷◌, ok, length,
}
use keytap.Input.{key_max}
use keytap.KeyAction.{KeyAction, simple, map, key_action_get}
use keytap.Config.Lua.{Bytes, LuaValue, integer, string, table, userdata, done, entry, Names}
use keytap.Config.Fill.{fill_map, inner_keymap_hides_root}
use keytap.Config.Copy.{BuiltValue}
use keytap.Config.Macro.{BalancedKey, lua_macro, lua_mod, macro_balanced}
use keytap.Config.DualKey.{lua_dual_key}
use keytap.Config.DualKey.Laws.{GoodDual, lua_dual_key-GoodDual}
use keytap.Config.Grabs.{Regexes, UsableGrabs}
use keytap.Config.Loading.{
  Script, grab_keyboard, ignore_keyboard, config_new, config_new-UsableGrabs,
}

-- Every name of four bytes is that of caps lock.
abbrev pub caps_name : Bytes
caps_name = b'c' ∷ b'a' ∷ b'p' ∷ b's' ∷ []

abbrev pub code_of : Bytes → ℕ
code_of name = if length name == 4 then 58 else 0

pub code_of-in_range : (name : Bytes) → code_of name < key_max
code_of-in_range name = ground arith

abbrev pub one_name : Names
one_name = record {
  get_input_value = code_of;
  number_text = λ n. [];
  in_range = code_of-in_range;
  no_number = λ n. refl;
}

abbrev pub caps_table : LuaValue
caps_table = table (entry (string caps_name) (userdata (simple 1)) done)

inner_keymap_hides_root_example :
    (filled : KeyAction) × (key_action_get
        (fill_map (map (λ i. if i == 30 then simple 31 else map (λ _. KeyAction.none))) Option.none)
        58
      ≡ ok filled)
    × (key_action_get filled 30 ≡ ok (simple 30))
inner_keymap_hides_root_example =
    inner_keymap_hides_root (λ i. if i == 30 then simple 31 else map (λ _. KeyAction.none))
      (λ _. KeyAction.none) 58 30 (omega arith) (omega arith) refl refl

macro_balanced_example :
    BalancedKey (lua_macro (integer (pos 30) ∷ integer (pos 4294967326) ∷ []))
    × BalancedKey (lua_mod 42 (integer (pos 30) ∷ integer (pos 4294967326) ∷ []))
macro_balanced_example =
    macro_balanced 42 (integer (pos 30) ∷ integer (pos 4294967326) ∷ []) (omega arith)
      (tt, (tt, tt))

lua_dual_key-GoodDual_example : GoodDual (lua_dual_key one_name (integer (pos 1) ∷ caps_table ∷ []))
lua_dual_key-GoodDual_example =
    lua_dual_key-GoodDual one_name (integer (pos 1) ∷ caps_table ∷ [])
      (unfold BuiltValue in (tt, ((omega arith, tt), tt)))

abbrev pub any_device : Regexes
any_device = record { Regex = Bytes; regcomp = λ t. Option.some t; matches = λ _ _. true }

-- A file that grabs one keyboard and ignores another.
abbrev pub two_calls : Script
two_calls = record {
  loads = true;
  calls =
      grab_keyboard (string caps_name ∷ caps_table ∷ []) ∷ ignore_keyboard (string [] ∷ []) ∷ [];
  finishes = true;
}

config_new-UsableGrabs_example :
    UsableGrabs any_device one_name (config_new any_device one_name true two_calls)
unfolding BuiltValue
config_new-UsableGrabs_example =
    config_new-UsableGrabs any_device one_name true two_calls
      ((tt, ((omega arith, tt), tt)), ((tt, tt), tt))
