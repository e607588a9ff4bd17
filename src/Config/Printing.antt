-- ===== src/Config/Printing.antt =====
-- config.c, `lua_key_action_tostring`: the text of a key action.
use Prim.Native.String.{String}
use keytap.Base.{ℕ, ◌≡◌, ◌≢◌, arith, true, false, ℤ, Option}
use keytap.KeyAction.{KeyAction, none, ref, simple, macro, dual, map}
use keytap.Config.Lua.{Bytes, string}
use keytap.Config.Copy.{entry_code}
use keytap.Names.Tables.{codes}
use keytap.Names.{names_init, get_input_name}
use keytap.Names.Codes.{starts, names, has_value, get_input_value-name}

-- A dual-mode key prints as a keymap does.
unfoldable pub lua_key_action_tostring : KeyAction → String
unfolding get_input_name
lua_key_action_tostring none = "NONE"
lua_key_action_tostring (ref ka) = "NONE"
lua_key_action_tostring (simple c) = get_input_name c
lua_key_action_tostring (macro ms) = "MACRO"
lua_key_action_tostring (dual t h mode hold_ms dtms) = "MAP"
lua_key_action_tostring (map m) = "MAP"

-- The text of a key action that is a key with a name, not of code 0, stands for the key's code when it is the key of a table.
pub entry_code-tostring :
    (number_text : ℤ → Bytes) (no_number : (n : ℤ) → starts (number_text n) ≡ false) (c : ℕ)
    → has_value c names_init.v2n ≡ true
    → c ≢ 0
    → entry_code (names number_text no_number) (string (codes (lua_key_action_tostring (simple c))))
      ≡ Option.some c
unfolding entry_code lua_key_action_tostring names
entry_code-tostring number_text no_number c has nonzero =
    rw (get_input_value-name c has) (ground (arith, nonzero))
