-- ===== src/Config/Tables.antt =====
-- config.c, `grab_keyboard` on a table whose values are keys and chains of keys: the keymap that it makes.
use keytap.Base.{
  ℕ, ◌<◌, ◌≡◌, refl, pos, negsuc, Bool, true, false, if◌then◌else◌, ltb, ◌==◌, lt→ltb, List, [],
  ◌∷◌, Option, some, none, ◌++◌,
}
use keytap.Input.{key_max}
use keytap.KeyAction.{KeyAction, simple, macro}
use keytap.Config.Lua.{
  Bytes, LuaValue, nil, integer, string, table, userdata, other, Entries, done, entry, Names,
}
use keytap.Config.Copy.{copy_to_key_action, entry_code}
use keytap.Config.Typing.{
  NamesCode, later, for_code, last_value, Reads, key_code, built, keymap, ReadsEach, no_entry,
  one_more, ReadsCell, left_out, given, copy_to_key_action-Reads,
}
use keytap.Config.Fill.{fill_map, fill_action, filler_at}
use keytap.Config.Grabs.{Regexes, Grab, lua_grab_keyboard}
use keytap.Resolver.Remap.{IsPlain}

-- A key code, or a key or a chain of keys that was built.
abbrev pub PlainValue : LuaValue → Type 0
PlainValue (integer (pos n)) = n < key_max
PlainValue (userdata ka) = IsPlain ka
PlainValue _ = ⊥

abbrev pub action_of : LuaValue → KeyAction
action_of (integer (pos n)) = simple n
action_of (userdata ka) = ka
action_of _ = KeyAction.none

-- The action that a key of the keyboard gets: the last entry's, or the key itself where there is no entry.
abbrev pub standing_for : ℕ → Option LuaValue → KeyAction
standing_for c none = simple c
standing_for c (some v) = action_of v

abbrev pub open_cell : Option LuaValue → KeyAction
open_cell none = KeyAction.none
open_cell (some v) = action_of v

abbrev pub PlainCell : Option LuaValue → Type 0
PlainCell none = Unit
PlainCell (some v) = PlainValue v

value-Reads : (names : Names) (v : LuaValue) → PlainValue v → Reads names v (action_of v)
value-Reads names (integer (pos n)) p = key_code n p
value-Reads names (integer (negsuc n)) p = absurd p
value-Reads names (userdata ka) p = built ka
value-Reads names nil p = absurd p
value-Reads names (string s) p = absurd p
value-Reads names (table es) p = absurd p
value-Reads names other p = absurd p

action-IsPlain : (v : LuaValue) → PlainValue v → IsPlain (action_of v)
action-IsPlain (integer (pos n)) p = p
action-IsPlain (integer (negsuc n)) p = absurd p
action-IsPlain (userdata ka) p = p
action-IsPlain nil p = absurd p
action-IsPlain (string s) p = absurd p
action-IsPlain (table es) p = absurd p
action-IsPlain other p = absurd p

module _ (names : Names) where
  -- Every key of the table is a name, and every value plain.
  abbrev pub PlainTable : Entries → Type 0
  PlainTable done = Unit
  PlainTable (entry key v es) =
      ((code : ℕ) × NamesCode names key code) × PlainValue v × PlainTable es

  later-PlainCell :
      (v : LuaValue) (i : ℕ) (code : Option ℕ) (o : Option LuaValue)
      → PlainValue v
      → PlainCell o
      → PlainCell (later (for_code i code v) o)
  later-PlainCell v i code (some w) p q = q
  later-PlainCell v i none none p q = tt
  later-PlainCell v i (some c) none p q = here (c == i)
    where
      here : (b : Bool) → PlainCell (later (if b then some v else none) none)
      here true = p
      here false = tt

  pub last-PlainCell : (i : ℕ) (es : Entries) → PlainTable es → PlainCell (last_value names i es)
  last-PlainCell i done p = tt
  last-PlainCell i (entry key v es) (named, p, ps) =
      later-PlainCell v i (entry_code names key) (last_value names i es) p (last-PlainCell i es ps)

  each-Reads : (es : Entries) → PlainTable es → ReadsEach names es
  each-Reads done p = no_entry
  each-Reads (entry key v es) ((code, named), p, ps) =
      one_more key v es code (action_of v) named (value-Reads names v p) (each-Reads es ps)

  cell-Reads : (o : Option LuaValue) → PlainCell o → ReadsCell names o (open_cell o)
  cell-Reads none p = left_out
  cell-Reads (some v) p = given v (action_of v) (value-Reads names v p)

  table-copy :
      (es : Entries)
      → PlainTable es
      → copy_to_key_action names (table es)
        ≡ some (KeyAction.map (λ i. open_cell (last_value names i es)))
  table-copy es p = (copy_to_key_action-Reads names (table es) _).1 (
      keymap es (λ i. open_cell (last_value names i es)) (each-Reads es p)
        (λ i. cell-Reads (last_value names i es) (last-PlainCell i es p)))

  filled_cell :
      (c : ℕ) (o : Option LuaValue)
      → PlainCell o
      → (fill_action (open_cell o) none (simple c) ≡ standing_for c o)
  unfolding fill_action
  filled_cell c none p = refl
  filled_cell c (some (integer (pos n))) p = refl
  filled_cell c (some (userdata ka)) p = of_plain ka p
    where
      of_plain : (k : KeyAction) → IsPlain k → fill_action k none (simple c) ≡ k
      of_plain (simple n) q = refl
      of_plain (macro ms) q = refl
      of_plain KeyAction.none q = absurd q
      of_plain (KeyAction.ref k) q = absurd q
      of_plain (KeyAction.dual t h mode hold_ms dtms) q = absurd q
      of_plain (KeyAction.map m) q = absurd q
  filled_cell c (some (integer (negsuc n))) p = absurd p
  filled_cell c (some nil) p = absurd p
  filled_cell c (some (string s)) p = absurd p
  filled_cell c (some (table es)) p = absurd p
  filled_cell c (some other) p = absurd p

  pub standing-IsPlain :
      (c : ℕ) (o : Option LuaValue) → c < key_max → PlainCell o → IsPlain (standing_for c o)
  standing-IsPlain c none lt p = lt
  standing-IsPlain c (some v) lt p = action-IsPlain v p

  -- The keymap of a table, as `grab_keyboard` makes it.
  abbrev pub table_keymap : Entries → ℕ → KeyAction
  table_keymap es i =
      let o = last_value names i es in
      if ltb i key_max then fill_action (open_cell o) none (filler_at none i) else open_cell o

  pub table_keymap-standing_for :
      (es : Entries) (c : ℕ)
      → PlainTable es
      → c < key_max
      → table_keymap es c ≡ standing_for c (last_value names c es)
  table_keymap-standing_for es c p lt =
      rw (lt→ltb c key_max lt) (filled_cell c (last_value names c es) (last-PlainCell c es p))

  module _ (re : Regexes) where
    open re use {Regex, regcomp}

    pub grab_keyboard-table :
        (grabs : List (Grab re)) (pattern : Bytes) (regex : Regex) (es : Entries)
        → regcomp pattern ≡ some regex
        → PlainTable es
        → lua_grab_keyboard re names grabs (string pattern ∷ table es ∷ [])
          ≡ some (
              grabs
              ++ (record { regex = regex; ignore = false; keymap = KeyAction.map (table_keymap es) }
                  ∷ []))
    unfolding lua_grab_keyboard fill_map fill_action
    grab_keyboard-table grabs pattern regex es compiled p = rw (table-copy es p) (rw compiled refl)
