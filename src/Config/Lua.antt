-- ===== src/Config/Lua.antt =====
-- The Lua values that config.c reads from the stack, and the interface to names.c.
use keytap.Base.{ℕ, ◌<◌, ◌≡◌, ℤ, List}
use keytap.Input.{key_max}
use keytap.KeyAction.{KeyAction}

-- A text is the list of its bytes.
abbrev pub Bytes : Type 0
Bytes = List ℕ

-- `userdata` is a key action made by one of the functions below. `other` stands for the types that
-- config.c never accepts: booleans, functions, floats. A table is listed in the order of `lua_next`.
mutual
  pub data LuaValue : Type 0 where
    nil : LuaValue
    integer : ℤ → LuaValue
    string : Bytes → LuaValue
    table : Entries → LuaValue
    userdata : KeyAction → LuaValue
    other : LuaValue

  pub data Entries : Type 0 where
    done : Entries
    entry : LuaValue → LuaValue → Entries → Entries

-- `get_input_value` of names.c, which returns 0 for a name that it does not know, and the text that
-- `lua_tostring` makes of an integer.
pub record Names : Type 0 where
  pub get_input_value : Bytes → ℕ
  pub number_text : ℤ → Bytes
  pub in_range : (name : Bytes) → get_input_value name < key_max
  -- no key is named by a number
  pub no_number : (n : ℤ) → get_input_value (number_text n) ≡ 0
