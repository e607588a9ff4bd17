-- ===== src/Config/Globals.antt =====
-- config.c, `set_lua_globals` and `add_global`, with `for_each_name` of names.c: the global variables that a configuration
-- starts with.
use Prim.Native.String.{String}
use keytap.Base.{
  ℕ, ◌≡◌, ◌≢◌, refl, false, if◌then◌else◌, Bool-cases, inl, inr, List, [], ◌∷◌, Option, some, none,
}
use keytap.KeyAction.{DualMode, tap_on_rollover, hold_on_rollover, timeout_only}
use keytap.Config.Lua.{Bytes}
use keytap.Names.Tables.{codes, same_bytes, find_value}
use keytap.Names.{names_init, get_input_value}
use keytap.Names.Codes.{starts, Fit, names_init-Fit, same_bytes-starts}

-- The values of the variables: the pointer to the configuration, the functions of config.c, a mode, a key code.
pub data Global : Type 0 where
  config_pointer print_function macro_function shift_function ctrl_function alt_function
        meta_function :
      Global
  dual_key_function grab_keyboard_function ignore_keyboard_function : Global
  mode_number : DualMode → Global
  key_code : ℕ → Global

-- `lua_setglobal`: the variables, the one set last in front.
abbrev pub Globals : Type 0
Globals = List (String × Global)

abbrev pub set_global : Globals → String → Global → Globals
set_global gs name value = (name, value) ∷ gs

-- The calls for the pairs of the table of names, in an order that khash chooses.
unfoldable pub for_each_name :
    (Globals → String → ℕ → Globals) → List (String × ℕ) → Globals → Globals
for_each_name hook [] gs = gs
for_each_name hook ((name, value) ∷ rest) gs = hook (for_each_name hook rest gs) name value

abbrev pub add_global : Globals → String → ℕ → Globals
add_global gs name value = set_global gs name (key_code value)

abbrev pub own_globals : Globals
own_globals =
    ("ignore_keyboard", ignore_keyboard_function)
    ∷ ("grab_keyboard", grab_keyboard_function)
    ∷ ("TIMEOUT_ONLY", mode_number timeout_only)
    ∷ ("HOLD_ON_ROLLOVER", mode_number hold_on_rollover)
    ∷ ("TAP_ON_ROLLOVER", mode_number tap_on_rollover)
    ∷ ("dual_key", dual_key_function)
    ∷ ("meta", meta_function)
    ∷ ("alt", alt_function)
    ∷ ("ctrl", ctrl_function)
    ∷ ("shift", shift_function)
    ∷ ("macro", macro_function)
    ∷ ("print", print_function)
    ∷ ("__config", config_pointer)
    ∷ []

unfoldable pub set_lua_globals : Globals
set_lua_globals = for_each_name add_global names_init.n2v own_globals

-- `lua_getglobal`
unfoldable pub find_global : Globals → Bytes → Option Global
find_global [] name = none
find_global ((s, v) ∷ gs) name = if same_bytes (codes s) name then some v else find_global gs name

-- A variable that a configuration reads: a key's code, or one of the program's own.
abbrev pub GlobalIs : ℕ → Bytes → Option Global → Type 0
GlobalIs value name found =
    (value ≢ 0 → found ≡ some (key_code value))
    × (starts name ≡ false → found ≡ find_global own_globals name)

keys-found :
    (named : List (String × ℕ)) (name : Bytes)
    → find_value named name ≢ 0
    → find_global (for_each_name add_global named own_globals) name
      ≡ some (key_code (find_value named name))
unfolding find_value find_global for_each_name
keys-found [] name ne = absurd (ne refl)
keys-found ((s, v) ∷ rest) name ne = elim (Bool-cases (same_bytes (codes s) name)) [
  | inl same ↦ rw same refl
  | inr other ↦ rw other (keys-found rest name (λ e. ne (rw other e)))
]

others-found :
    (named : List (String × ℕ)) (name : Bytes)
    → Fit named
    → starts name ≡ false
    → find_global (for_each_name add_global named own_globals) name ≡ find_global own_globals name
unfolding for_each_name find_global
others-found [] name fit other = refl
others-found ((s, v) ∷ rest) name fit other = elim (Bool-cases (same_bytes (codes s) name)) [
  | inl same ↦ let bad = same_bytes-starts (codes s) name same fit.0.1 in cc
  | inr different ↦ rw different (others-found rest name fit.1 other)
]

-- The variables of a configuration: a name of a key that `get_input_value` knows is a variable with the code that it
-- gives, and a name that does not begin with K or B is what the program itself set, so that no key's
-- name hides a function or a mode.
pub set_lua_globals-GlobalIs :
    (name : Bytes) → GlobalIs (get_input_value name) name (find_global set_lua_globals name)
unfolding set_lua_globals get_input_value
set_lua_globals-GlobalIs name =
    (keys-found names_init.n2v name, others-found names_init.n2v name names_init-Fit)
