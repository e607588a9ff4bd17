-- ===== src/Examples/Naming.antt =====
-- The key names at work.
use keytap.Base.{refl, ◌≡◌, ◌≢◌, some, true, arith}
use keytap.Names.{get_input_value, get_input_name, names_init}
use keytap.Names.Tables.{codes}
use keytap.Config.Lua.{Bytes}
use keytap.Config.Globals.{GlobalIs, find_global, set_lua_globals, set_lua_globals-GlobalIs}
use keytap.Devices.Output.{open_output, enables, open_output-enables}
use keytap.Names.Codes.{get_input_value-name, has_value}

get_input_value-name_example : get_input_value (codes (get_input_name 58)) ≡ 58
unfolding has_value names_init
get_input_value-name_example = get_input_value-name 58 refl

abbrev key_a : Bytes
key_a = codes "KEY_A"

key_a_named : get_input_value key_a ≢ 0
unfolding get_input_value
key_a_named e = omega (arith, e)

open_output-enables_example : enables (get_input_value key_a) (open_output (some 4)).1 ≡ true
open_output-enables_example = open_output-enables 4 key_a key_a_named

set_lua_globals-GlobalIs_example :
    GlobalIs (get_input_value key_a) key_a (find_global set_lua_globals key_a)
set_lua_globals-GlobalIs_example = set_lua_globals-GlobalIs key_a
