-- ===== src/Names.antt =====
-- names.c: the names of the key codes.
pub mod Tables
pub mod Typing
pub mod Media
pub mod Buttons
pub mod Remote
pub mod Extra
pub mod Laws
pub mod Codes
use Prim.Native.String.{String}
use keytap.Base.{ℕ, List, ◌++◌}
use keytap.Config.Lua.{Bytes}
use keytap.Names.Tables.{Entry, Maps, no_maps, add_all, find_value, find_name}
use keytap.Names.Typing.{typing_keys}
use keytap.Names.Media.{media_keys}
use keytap.Names.Buttons.{buttons}
use keytap.Names.Remote.{remote_keys}
use keytap.Names.Extra.{extra_keys}

unfoldable pub entries : List Entry
unfolding typing_keys media_keys buttons remote_keys extra_keys
entries = typing_keys ++ (media_keys ++ (buttons ++ (remote_keys ++ extra_keys)))

unfoldable pub names_init : Maps
unfolding entries add_all
names_init = add_all no_maps entries

unfoldable pub get_input_value : Bytes → ℕ
unfolding names_init find_value
get_input_value name = find_value names_init.n2v name

unfoldable pub get_input_name : ℕ → String
unfolding names_init find_name
get_input_name value = find_name names_init.v2n value
