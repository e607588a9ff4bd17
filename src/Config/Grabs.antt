-- ===== src/Config/Grabs.antt =====
-- config.c, `grab_keyboard` and `ignore_keyboard`, and config.h: the list of grabs that a configuration
-- builds. `none` is a Lua error, which ends the configuration.
use keytap.Base.{◌≡◌, Bool, true, false, Option, List, [], ◌∷◌, ◌++◌, All, All-append}
use keytap.Base.Options.{◌>>=◌}
use keytap.KeyAction.{KeyAction}
use keytap.Resolver.Safety.{IsKeymap}
use keytap.Config.Lua.{LuaValue, integer, string, Names, Bytes}
use keytap.Config.Fill.{fill_map, fill_map-IsKeymap}
use keytap.Config.Copy.{copy_to_key_action, copy_to_key_action-IsBuilt, BuiltValue, BuiltResult}

-- The C library's regular expressions: compilation may fail, and `matches` is false where `regexec`
-- returns REG_NOMATCH.
pub record Regexes : Type 1 where
  pub Regex : Type 0
  pub regcomp : Bytes → Option Regex
  pub matches : Regex → Bytes → Bool

module _ (re : Regexes) where
  open re use {Regex, regcomp}

  -- `grab_t` without its resolver, which `serve_loop` initialises.
  pub record Grab : Type 0 where
    pub regex : Regex
    pub ignore : Bool
    pub keymap : KeyAction

  -- The filled keymap of the second argument, if it is a table.
  abbrev pub filled_map : KeyAction → Option KeyAction
  filled_map (KeyAction.map m) = Option.some (fill_map (KeyAction.map m) Option.none)
  filled_map _ = Option.none

  module _ (names : Names) where
    -- An argument for which `lua_isstring` holds.
    abbrev pub pattern_text : LuaValue → Option Bytes
    pattern_text (string s) = Option.some s
    pattern_text (integer n) = Option.some (names.number_text n)
    pattern_text _ = Option.none

    unfoldable pub lua_grab_keyboard : List Grab → List LuaValue → Option (List Grab)
    unfolding copy_to_key_action fill_map
    lua_grab_keyboard grabs (v1 ∷ v2 ∷ []) = do
      pattern ← pattern_text v1
      ka ← copy_to_key_action names v2
      keymap ← filled_map ka
      regex ← regcomp pattern
      Option.some (grabs ++ (record { regex = regex; ignore = false; keymap = keymap } ∷ []))
    lua_grab_keyboard grabs _ = Option.none

    unfoldable pub lua_ignore_keyboard : List Grab → List LuaValue → Option (List Grab)
    lua_ignore_keyboard grabs (v1 ∷ []) = do
      pattern ← pattern_text v1
      regex ← regcomp pattern
      Option.some (grabs ++ (record { regex = regex; ignore = true; keymap = KeyAction.none } ∷ []))
    lua_ignore_keyboard grabs _ = Option.none

    -- The keymap of every grab that is not ignored can be used by a resolver.
    abbrev pub UsableGrab : Grab → Type 0
    UsableGrab g = g.ignore ≡ false → IsKeymap g.keymap

    abbrev pub UsableGrabs : Option (List Grab) → Type 0
    UsableGrabs (Option.some gs) = All UsableGrab gs
    UsableGrabs Option.none = Unit

    grabbed :
        (grabs : List Grab) (pattern : Option Bytes) (ka : Option KeyAction)
        → All UsableGrab grabs
        → BuiltResult ka
        → UsableGrabs (
            pattern >>= λ p. ka >>= λ ka. filled_map ka >>= λ keymap. regcomp p >>= λ regex.
            Option.some (grabs ++ (record { regex = regex; ignore = false; keymap = keymap } ∷ [])))
    grabbed grabs (Option.some p) (Option.some (KeyAction.map m)) u b = compiled (regcomp p)
      where
        compiled :
            (r : Option Regex)
            → UsableGrabs (
                r >>= λ regex. Option.some (
                  grabs
                  ++ (record {
                    regex = regex;
                    ignore = false;
                    keymap = fill_map (KeyAction.map m) Option.none;
                  }
                      ∷ [])))
        compiled (Option.some r) =
            All-append UsableGrab grabs _ u ((λ _. fill_map-IsKeymap m b), tt)
        compiled Option.none = tt
    grabbed grabs (Option.some p) (Option.some KeyAction.none) u b = tt
    grabbed grabs (Option.some p) (Option.some (KeyAction.ref ka)) u b = tt
    grabbed grabs (Option.some p) (Option.some (KeyAction.simple c)) u b = tt
    grabbed grabs (Option.some p) (Option.some (KeyAction.macro ms)) u b = tt
    grabbed grabs (Option.some p) (Option.some (KeyAction.dual t h mode hold_ms dtms)) u b = tt
    grabbed grabs (Option.some p) Option.none u b = tt
    grabbed grabs Option.none ka u b = tt

    ignored :
        (grabs : List Grab) (pattern : Option Bytes)
        → All UsableGrab grabs
        → UsableGrabs (
            pattern >>= λ p. regcomp p >>= λ regex.
            Option.some
              (grabs ++ (record { regex = regex; ignore = true; keymap = KeyAction.none } ∷ [])))
    ignored grabs (Option.some p) u = compiled (regcomp p)
      where
        compiled :
            (r : Option Regex)
            → UsableGrabs (
                r >>= λ regex.
                Option.some (
                  grabs ++ (record { regex = regex; ignore = true; keymap = KeyAction.none } ∷ [])))
        compiled (Option.some r) = All-append UsableGrab grabs _ u ((λ e. cc), tt)
        compiled Option.none = tt
    ignored grabs Option.none u = tt

    -- On arguments that were built by the configuration's functions, both calls keep every grab usable.
    pub grabs_usable :
        (grabs : List Grab) (vs : List LuaValue)
        → All UsableGrab grabs
        → All BuiltValue vs
        → UsableGrabs (lua_grab_keyboard grabs vs) × UsableGrabs (lua_ignore_keyboard grabs vs)
    unfolding lua_grab_keyboard lua_ignore_keyboard
    grabs_usable grabs [] u b = (tt, tt)
    grabs_usable grabs (v1 ∷ []) u b = (tt, ignored grabs (pattern_text v1) u)
    grabs_usable grabs (v1 ∷ v2 ∷ []) u b = (
      grabbed grabs (pattern_text v1) (copy_to_key_action names v2) u
          (copy_to_key_action-IsBuilt names v2 b.1.0),
      tt,
    )
    grabs_usable grabs (v1 ∷ v2 ∷ v3 ∷ vs) u b = (tt, tt)
