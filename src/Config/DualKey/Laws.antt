-- ===== src/Config/DualKey/Laws.antt =====
-- What `dual_key` accepts.
use keytap.Base.{
  ◌≡◌, refl, arith, pos, negsuc, ◌≤ℤ◌, true, false, ◌||◌, ltb_ℤ, List, [], ◌∷◌, ◌++◌, Option,
  if-cases, All,
}
use keytap.KeyAction.{KeyAction, DualMode}
use keytap.Resolver.Safety.{NotDual}
use keytap.Config.Lua.{LuaValue, integer, table, Entries, done, entry, Names, Bytes}
use keytap.Config.Fill.{IsBuilt}
use keytap.Config.Copy.{copy_to_key_action, copy_to_key_action-IsBuilt, BuiltValue, BuiltResult}
use keytap.Config.DualKey.{
  Result, ok, err, ConfigError, DualError, DualConfig, defaults, mode_of, is_prefix, mode_name,
  read_mode, read_hold_ms, read_double_tap_ms, read_entry, read_entries, read_dual_key_config,
  key_text, is_dual, is_map, read_one, mode_set, copy_or, config_or, build_dual, hold_ms_name,
  double_tap_ms_name, configured, make_dual_key, lua_dual_key, ◌>>=◌,
}

-- The documented ranges of the options.
pub record InLimits (c : DualConfig) : Type 0 where
  pub hold : pos 1 ≤ℤ c.hold_ms
  pub double_tap : negsuc 0 ≤ℤ c.double_tap_ms

abbrev Limited : {E : Type 0} → Result E DualConfig → Type 0
Limited (ok c) = InLimits c
Limited (err e) = Unit

mode_set-Limited :
    (m : Option DualMode) (e : ConfigError) (c : DualConfig) → InLimits c → Limited (mode_set m e c)
mode_set-Limited (Option.some m) e c h = record { hold = h.hold; double_tap = h.double_tap }
mode_set-Limited Option.none e c h = tt

read_mode-Limited : (c : DualConfig) (v : LuaValue) → InLimits c → Limited (read_mode c v)
read_mode-Limited c (integer n) h = mode_set-Limited (mode_of n) ConfigError.invalid_mode c h
read_mode-Limited c _ h = tt

read_hold_ms-Limited : (c : DualConfig) (v : LuaValue) → InLimits c → Limited (read_hold_ms c v)
read_hold_ms-Limited c (integer n) h =
    if-cases Limited (ltb_ℤ n (pos 1)) _ _ (λ _. tt)
      (λ big. record { hold = ground arith; double_tap = h.double_tap })
read_hold_ms-Limited c _ h = tt

read_double_tap_ms-Limited :
    (c : DualConfig) (v : LuaValue) → InLimits c → Limited (read_double_tap_ms c v)
read_double_tap_ms-Limited c (integer n) h =
    if-cases Limited (ltb_ℤ n (negsuc 0)) _ _ (λ _. tt)
      (λ big. record { hold = h.hold; double_tap = ground arith })
read_double_tap_ms-Limited c _ h = tt

read_entry-Limited :
    (c : DualConfig) (key : Bytes) (v : LuaValue) → InLimits c → Limited (read_entry c key v)
unfolding read_entry
read_entry-Limited c key v h =
    if-cases Limited (is_prefix key mode_name) _ _ (λ _. read_mode-Limited c v h)
      λ _.
        if-cases Limited (is_prefix key hold_ms_name) _ _ (λ _. read_hold_ms-Limited c v h)
          λ _.
            if-cases Limited (is_prefix key double_tap_ms_name) _ _
              (λ _. read_double_tap_ms-Limited c v h) (λ _. tt)

is_prefix-append : (k rest name : Bytes) → k ++ rest ≡ name → is_prefix k name ≡ true
unfolding is_prefix
is_prefix-append [] rest name e = refl
is_prefix-append (c ∷ k) rest [] e = cc
is_prefix-append (c ∷ k) rest (d ∷ name) e = ground (arith, is_prefix-append k rest name)

-- A key of the table that is a prefix of `MODE`, the empty key too, is read as `MODE`.
pub mode_prefix_accepted :
    (c : DualConfig) (k rest : Bytes) (v : LuaValue)
    → k ++ rest ≡ mode_name
    → read_entry c k v ≡ read_mode c v
unfolding read_entry
mode_prefix_accepted c k rest v e = rw (is_prefix-append k rest mode_name e)

defaults-InLimits : InLimits defaults
defaults-InLimits = omega arith

read_one-Limited :
    (c : DualConfig) (key : Option Bytes) (v : LuaValue) → InLimits c → Limited (read_one c key v)
read_one-Limited c Option.none v h = tt
read_one-Limited c (Option.some k) v h = read_entry-Limited c k v h

-- What `dual_key` may return: a dual-mode key whose parts are built and not dual-mode keys, whose tap is
-- no keymap, and whose options are in range.
abbrev pub GoodDual : Result DualError KeyAction → Type 0
GoodDual (ok (KeyAction.dual t h mode hold_ms dtms)) =
    IsBuilt (KeyAction.dual t h mode hold_ms dtms)
    × (is_map t ≡ false)
    × InLimits (record { mode = mode; hold_ms = hold_ms; double_tap_ms = dtms })
GoodDual (ok _) = ⊥
GoodDual (err e) = Unit

is_dual-NotDual : (ka : KeyAction) → is_dual ka ≡ false → NotDual ka
is_dual-NotDual (KeyAction.dual t h mode hold_ms dtms) e = cc
is_dual-NotDual KeyAction.none e = tt
is_dual-NotDual (KeyAction.ref ka) e = tt
is_dual-NotDual (KeyAction.simple c) e = tt
is_dual-NotDual (KeyAction.macro ms) e = tt
is_dual-NotDual (KeyAction.map m) e = tt

build_dual-GoodDual :
    (t h : KeyAction) (c : Result DualError DualConfig)
    → IsBuilt t
    → IsBuilt h
    → Limited c
    → GoodDual (build_dual t h c)
build_dual-GoodDual t h c bt bh lc =
    if-cases GoodDual (is_dual t || is_map t) _ _ (λ _. tt)
      λ tap_fits.
        if-cases GoodDual (is_dual h) _ _ (λ _. tt) λ hold_fits. built c lc tap_fits hold_fits
  where
    built :
        (c : Result DualError DualConfig)
        → Limited c
        → (is_dual t || is_map t) ≡ false
        → is_dual h ≡ false
        → GoodDual (c >>= λ c. ok (KeyAction.dual t h c.mode c.hold_ms c.double_tap_ms))
    built (ok c) l p q = (
      (bt, is_dual-NotDual t (ground arith), bh, is_dual-NotDual h q),
      ground arith,
      record { hold = l.hold; double_tap = l.double_tap },
    )
    built (err e) l p q = tt

module _ (names : Names) where
  read_entries-Limited :
      (es : Entries) (c : DualConfig) → InLimits c → Limited (read_entries names c es)
  unfolding read_entries
  read_entries-Limited done c h = h
  read_entries-Limited (entry key value es) c h =
      rest (read_one c (key_text names key) value) (read_one-Limited c (key_text names key) value h)
        (λ c' h'. read_entries-Limited es c' h')
    where
      rest :
          (m : Result ConfigError DualConfig)
          → Limited m
          → ((c' : DualConfig) → InLimits c' → Limited (read_entries names c' es))
          → Limited (m >>= λ c'. read_entries names c' es)
      rest (ok c') l ih = ih c' l
      rest (err e) l ih = tt

  read_dual_key_config-Limited : (v : LuaValue) → Limited (read_dual_key_config names v)
  unfolding read_dual_key_config
  read_dual_key_config-Limited (integer n) =
      mode_set-Limited (mode_of n) ConfigError.bad_type defaults defaults-InLimits
  read_dual_key_config-Limited (table es) = read_entries-Limited es defaults defaults-InLimits
  read_dual_key_config-Limited _ = tt

  configured-Limited : (v : Option LuaValue) → Limited (configured names v)
  configured-Limited Option.none = defaults-InLimits
  configured-Limited (Option.some v) =
      kept (read_dual_key_config names v) (read_dual_key_config-Limited v)
    where
      kept : (m : Result ConfigError DualConfig) → Limited m → Limited (config_or m)
      kept (ok c) l = l
      kept (err e) l = tt

  make_dual_key-GoodDual :
      (v1 v2 : LuaValue) (config : Option LuaValue)
      → BuiltValue v1
      → BuiltValue v2
      → GoodDual (make_dual_key names v1 v2 config)
  unfolding make_dual_key
  make_dual_key-GoodDual v1 v2 config b1 b2 =
      parts (copy_to_key_action names v1) (copy_to_key_action names v2)
        (copy_to_key_action-IsBuilt names v1 b1) (copy_to_key_action-IsBuilt names v2 b2)
    where
      parts :
          (t h : Option KeyAction)
          → BuiltResult t
          → BuiltResult h
          → GoodDual (
              copy_or DualError.copy_tap t >>= λ t.
              copy_or DualError.copy_hold h >>= λ h. build_dual t h (configured names config))
      parts (Option.some t) (Option.some h) bt bh =
          build_dual-GoodDual t h (configured names config) bt bh (configured-Limited config)
      parts (Option.some t) Option.none bt bh = tt
      parts Option.none h bt bh = tt

  -- On arguments that were built by the configuration's functions, `dual_key` returns an error, or a
  -- dual-mode key with built parts that are no dual-mode keys, a tap that is no keymap, and options in range.
  pub lua_dual_key-GoodDual :
      (vs : List LuaValue) → All BuiltValue vs → GoodDual (lua_dual_key names vs)
  unfolding lua_dual_key
  lua_dual_key-GoodDual (v1 ∷ v2 ∷ []) b = make_dual_key-GoodDual v1 v2 Option.none b.0 b.1.0
  lua_dual_key-GoodDual (v1 ∷ v2 ∷ v3 ∷ []) b =
      make_dual_key-GoodDual v1 v2 (Option.some v3) b.0 b.1.0
  lua_dual_key-GoodDual _ b = tt
