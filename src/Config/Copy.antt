-- ===== src/Config/Copy.antt =====
-- config.c, `copy_to_key_action` and `extract_table_to_key_map`: a Lua value as a key action. `none` is
-- the return value -1. Memory is taken to suffice, and a copy of a key action is the action itself.
use mathlib.Core.Option
use keytap.Base.{
  if-cases, ltb→lt, ℕ, ◌<◌, ◌≡◌, ℤ, pos, negsuc, Option, if◌then◌else◌, ltb, ◌==◌, update,
}
use keytap.Base.Options.{◌>>=◌}
use keytap.Input.{key_max}
use keytap.KeyAction.{KeyAction}
use keytap.Config.Lua.{
  LuaValue, nil, integer, string, table, userdata, other, Entries, done, entry, Names,
}
use keytap.Config.Fill.{IsBuilt}

-- The check of `copy_to_key_action` and `append_simple_key_to_macro` on a key code.
abbrev pub valid_code : ℤ → Option ℕ
valid_code (pos n) = if ltb n key_max then Option.some n else Option.none
valid_code (negsuc n) = Option.none

module _ (names : Names) where
  -- The key code of a table's key. `lua_isstring` holds of a number too.
  unfoldable pub entry_code : LuaValue → Option ℕ
  entry_code (string s) =
      (let code = names.get_input_value s in if code == 0 then Option.none else Option.some code)
  entry_code (integer n) =
      (let code = names.get_input_value (names.number_text n) in
        if code == 0 then Option.none else Option.some code)
  entry_code _ = Option.none

  unfoldable mutual
    pub copy_to_key_action : LuaValue → Option KeyAction
    copy_to_key_action nil = Option.some KeyAction.none
    copy_to_key_action (integer n) = Option.map KeyAction.simple (valid_code n)
    copy_to_key_action (table es) =
        Option.map KeyAction.map (extract_table_to_key_map es (λ _. KeyAction.none))
    copy_to_key_action (userdata ka) = Option.some ka
    copy_to_key_action (string s) = Option.none
    copy_to_key_action other = Option.none

    pub extract_table_to_key_map : Entries → (ℕ → KeyAction) → Option (ℕ → KeyAction)
    extract_table_to_key_map done map = Option.some map
    extract_table_to_key_map (entry key value es) map = do
      code ← entry_code key
      ka ← copy_to_key_action value
      extract_table_to_key_map es (update map code ka)

-- Every key action that stands in a value was built by the configuration's functions.
unfoldable mutual
  pub BuiltValue : LuaValue → Type 0
  BuiltValue nil = Unit
  BuiltValue (integer n) = Unit
  BuiltValue (string s) = Unit
  BuiltValue (table es) = BuiltEntries es
  BuiltValue (userdata ka) = IsBuilt ka
  BuiltValue other = Unit

  pub BuiltEntries : Entries → Type 0
  BuiltEntries done = Unit
  BuiltEntries (entry key value es) = BuiltValue value × BuiltEntries es

-- A copy that succeeded is built.
abbrev pub BuiltResult : Option KeyAction → Type 0
BuiltResult (Option.some ka) = IsBuilt ka
BuiltResult Option.none = Unit

abbrev BuiltCells : Option (ℕ → KeyAction) → Type 0
BuiltCells (Option.some m) = (i : ℕ) → i < key_max → IsBuilt (m i)
BuiltCells Option.none = Unit

update-IsBuilt :
    (m : ℕ → KeyAction) (code : ℕ) (ka : KeyAction)
    → ((i : ℕ) → i < key_max → IsBuilt (m i))
    → IsBuilt ka
    → (i : ℕ) → i < key_max
    → IsBuilt (update m code ka i)
update-IsBuilt m code ka b k i lt = if-cases IsBuilt (code == i) ka (m i) (λ _. k) (λ _. b i lt)

valid_code-IsBuilt : (n : ℤ) → BuiltResult (Option.map KeyAction.simple (valid_code n))
valid_code-IsBuilt (pos n) =
    if-cases (λ o. BuiltResult (Option.map KeyAction.simple o)) (ltb n key_max) _ _
      (λ h. ltb→lt _ _ h) (λ _. tt)
valid_code-IsBuilt (negsuc n) = tt

map-IsBuilt : (o : Option (ℕ → KeyAction)) → BuiltCells o → BuiltResult (Option.map KeyAction.map o)
map-IsBuilt (Option.some m) b = b
map-IsBuilt Option.none b = tt

module _ (names : Names) where
  step-IsBuilt :
      (es : Entries) (map : ℕ → KeyAction) (code : Option ℕ) (ka : Option KeyAction)
      → BuiltResult ka
      → ((i : ℕ) → i < key_max → IsBuilt (map i))
      → ((m : ℕ → KeyAction)
          → ((i : ℕ) → i < key_max → IsBuilt (m i))
          → BuiltCells (extract_table_to_key_map names es m))
      → BuiltCells (code >>= λ c. ka >>= λ k. extract_table_to_key_map names es (update map c k))
  step-IsBuilt es map (Option.some c) (Option.some k) b m ih = ih _ (update-IsBuilt map c k m b)
  step-IsBuilt es map (Option.some c) Option.none b m ih = tt
  step-IsBuilt es map Option.none ka b m ih = tt

  mutual
    unfolding copy_to_key_action BuiltValue

    copy-Built : (v : LuaValue) → BuiltValue v → BuiltResult (copy_to_key_action names v)
    copy-Built nil b = tt
    copy-Built (integer n) b = valid_code-IsBuilt n
    copy-Built (string s) b = tt
    copy-Built (table es) b = map-IsBuilt _ (extract-Built es (λ _. KeyAction.none) b (λ i lt. tt))
    copy-Built (userdata ka) b = b
    copy-Built other b = tt

    extract-Built :
        (es : Entries) (map : ℕ → KeyAction)
        → BuiltEntries es
        → ((i : ℕ) → i < key_max → IsBuilt (map i))
        → BuiltCells (extract_table_to_key_map names es map)
    extract-Built done map b m = m
    extract-Built (entry key value es) map b m =
        step-IsBuilt es map (entry_code names key) (copy_to_key_action names value)
          (copy-Built value b.0) m (λ m' b'. extract-Built es m' b.1 b')

  -- A copy of a value with built key actions, if it succeeds, is built: codes in range at every depth.
  pub copy_to_key_action-IsBuilt :
      (v : LuaValue) → BuiltValue v → BuiltResult (copy_to_key_action names v)
  copy_to_key_action-IsBuilt v b = copy-Built v b

  -- A table whose first entry has an integer as its key is refused, although the code has a branch for such keys.
  pub numeric_key_refused :
      (n : ℤ) (value : LuaValue) (es : Entries) (map : ℕ → KeyAction)
      → extract_table_to_key_map names (entry (integer n) value es) map ≡ Option.none
  unfolding copy_to_key_action entry_code
  numeric_key_refused n value es map = rw (names.no_number n)
