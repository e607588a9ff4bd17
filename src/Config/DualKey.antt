-- ===== src/Config/DualKey.antt =====
-- config.c, `dual_key` and its configuration table. Errors are the codes that the source names.
pub mod Laws
use keytap.Base.{
  ℕ, zero, suc, ◌+◌, ◌≡◌, ◌≢◌, refl, arith, ℤ, pos, negsuc, Bool, true, false, not, ◌&&◌,
  if◌then◌else◌, ltb_ℤ, ◌==◌, List, [], ◌∷◌, Option, if-cases, ◌||◌,
}
use keytap.KeyAction
use keytap.KeyAction.{KeyAction, DualMode, tap_on_rollover, hold_on_rollover, timeout_only}
use keytap.Config.Lua.{
  LuaValue, nil, integer, string, table, userdata, other, Entries, done, entry, Names, Bytes,
}
use keytap.Config.Fill.{IsBuilt}
use keytap.Config.Copy.{copy_to_key_action, copy_to_key_action-IsBuilt, BuiltValue}

pub data ConfigError : Type 0 where
  bad_type invalid_mode invalid_hold_ms invalid_double_tap_ms : ConfigError

-- The errors of `dual_key` itself, each with a message of its own.
pub data DualError : Type 0 where
  argument_count copy_tap copy_hold tap_type hold_type : DualError
  config_error : ConfigError → DualError

pub data Result {ℓ κ} (E : Type ℓ) (A : Type κ) : Type (ℓ ⊔ κ) where
  ok : A → Result E A
  err : E → Result E A

infixl 5 ◌>>=◌
abbrev pub ◌>>=◌ {ℓ κ μ} :
    {E : Type ℓ} {A : Type κ} {B : Type μ} → Result E A → (A → Result E B) → Result E B
ok a >>= f = f a
err e >>= f = err e

-- The options that `read_dual_key_config` writes.
pub record DualConfig : Type 0 where
  pub mode : DualMode
  pub hold_ms : ℤ
  pub double_tap_ms : ℤ

abbrev pub defaults : DualConfig
defaults = record { mode = tap_on_rollover; hold_ms = pos 200; double_tap_ms = pos 300 }

-- A number as a `dual_key_mode_t`.
abbrev pub mode_of : ℤ → Option DualMode
mode_of (pos n) =
    if n == 0
    then Option.some tap_on_rollover
    else if n == 1
    then Option.some hold_on_rollover
    else if n == 2
    then Option.some timeout_only
    else Option.none
mode_of (negsuc n) = Option.none

-- `strncmp(name, key, keylen) == 0`, for a key of `keylen` bytes that are not 0: the key is a prefix.
pub is_prefix : Bytes → Bytes → Bool
is_prefix [] name = true
is_prefix (k ∷ key) [] = false
is_prefix (k ∷ key) (c ∷ name) = (k == c) && is_prefix key name

-- "MODE", "HOLD_MS" and "DOUBLE_TAP_MS" as bytes.
abbrev pub mode_name : Bytes
mode_name = b'M' ∷ b'O' ∷ b'D' ∷ b'E' ∷ []

abbrev pub hold_ms_name : Bytes
hold_ms_name = b'H' ∷ b'O' ∷ b'L' ∷ b'D' ∷ b'_' ∷ b'M' ∷ b'S' ∷ []

abbrev pub double_tap_ms_name : Bytes
double_tap_ms_name =
    b'D' ∷ b'O' ∷ b'U' ∷ b'B' ∷ b'L' ∷ b'E' ∷ b'_' ∷ b'T' ∷ b'A' ∷ b'P' ∷ b'_' ∷ b'M' ∷ b'S' ∷ []

abbrev pub mode_set : Option DualMode → ConfigError → DualConfig → Result ConfigError DualConfig
mode_set (Option.some m) e c = ok (record c { mode = m })
mode_set Option.none e c = err e

abbrev pub read_mode : DualConfig → LuaValue → Result ConfigError DualConfig
read_mode c (integer n) = mode_set (mode_of n) invalid_mode c
read_mode c _ = err invalid_mode

abbrev pub read_hold_ms : DualConfig → LuaValue → Result ConfigError DualConfig
read_hold_ms c (integer n) =
    if ltb_ℤ n (pos 1) then err invalid_hold_ms else ok (record c { hold_ms = n })
read_hold_ms c _ = err invalid_hold_ms

abbrev pub read_double_tap_ms : DualConfig → LuaValue → Result ConfigError DualConfig
read_double_tap_ms c (integer n) =
    if ltb_ℤ n (negsuc 0) then err invalid_double_tap_ms else ok (record c { double_tap_ms = n })
read_double_tap_ms c _ = err invalid_double_tap_ms

-- The branch for a key that is a text. An unknown key leaves the error code as it was set first.
unfoldable pub read_entry : DualConfig → Bytes → LuaValue → Result ConfigError DualConfig
unfolding is_prefix
read_entry c key value =
    if is_prefix key mode_name
    then read_mode c value
    else if is_prefix key hold_ms_name
    then read_hold_ms c value
    else if is_prefix key double_tap_ms_name
    then read_double_tap_ms c value
    else err bad_type

-- An entry, whose key may be no text.
abbrev pub read_one : DualConfig → Option Bytes → LuaValue → Result ConfigError DualConfig
read_one c Option.none value = err bad_type
read_one c (Option.some k) value = read_entry c k value

abbrev pub is_dual : KeyAction → Bool
is_dual (KeyAction.dual t h mode hold_ms dtms) = true
is_dual _ = false

abbrev pub is_map : KeyAction → Bool
is_map (KeyAction.map m) = true
is_map _ = false

abbrev pub copy_or : DualError → Option KeyAction → Result DualError KeyAction
copy_or e (Option.some ka) = ok ka
copy_or e Option.none = err e

abbrev pub config_or : Result ConfigError DualConfig → Result DualError DualConfig
config_or (ok c) = ok c
config_or (err e) = err (config_error e)

-- The checks of `dual_key` on its copied arguments.
abbrev pub build_dual :
    KeyAction → KeyAction → Result DualError DualConfig → Result DualError KeyAction
build_dual t h config =
    if is_dual t || is_map t
    then err tap_type
    else if is_dual h
    then err hold_type
    else config >>= λ c. ok (KeyAction.dual t h c.mode c.hold_ms c.double_tap_ms)

module _ (names : Names) where
  -- The text of a key for which `lua_isstring` holds.
  abbrev pub key_text : LuaValue → Option Bytes
  key_text (string s) = Option.some s
  key_text (integer n) = Option.some (names.number_text n)
  key_text _ = Option.none

  unfoldable pub read_entries : DualConfig → Entries → Result ConfigError DualConfig
  unfolding read_entry
  read_entries c done = ok c
  read_entries c (entry key value es) = read_one c (key_text key) value >>= λ c'. read_entries c' es

  -- A number in place of the table is the mode.
  unfoldable pub read_dual_key_config : LuaValue → Result ConfigError DualConfig
  unfolding read_entries
  read_dual_key_config (integer n) = mode_set (mode_of n) bad_type defaults
  read_dual_key_config (table es) = read_entries defaults es
  read_dual_key_config _ = err bad_type

  abbrev pub configured : Option LuaValue → Result DualError DualConfig
  configured Option.none = ok defaults
  configured (Option.some v) = config_or (read_dual_key_config v)

  -- `dual_key` with its two or three arguments.
  unfoldable pub make_dual_key : LuaValue → LuaValue → Option LuaValue → Result DualError KeyAction
  unfolding read_dual_key_config copy_to_key_action
  make_dual_key v1 v2 config = do
    t ← copy_or copy_tap (copy_to_key_action names v1)
    h ← copy_or copy_hold (copy_to_key_action names v2)
    build_dual t h (configured config)

  unfoldable pub lua_dual_key : List LuaValue → Result DualError KeyAction
  unfolding make_dual_key
  lua_dual_key (v1 ∷ v2 ∷ []) = make_dual_key v1 v2 Option.none
  lua_dual_key (v1 ∷ v2 ∷ v3 ∷ []) = make_dual_key v1 v2 (Option.some v3)
  lua_dual_key _ = err argument_count
