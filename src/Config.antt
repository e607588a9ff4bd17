-- ===== src/Config.antt =====
-- config.c: from the values of a Lua configuration to key actions and grabs. The children model the parts
-- of the file; `Lua` is what they take from the Lua library and from names.c.
pub mod Lua
pub mod Fill
pub mod Copy
pub mod Typing
pub mod Tables
pub mod Macro
pub mod DualKey
pub mod Grabs
pub mod Globals
pub mod Loading
pub mod Printing
