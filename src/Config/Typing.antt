-- ===== src/Config/Typing.antt =====
-- config.c, `copy_to_key_action`: which Lua values are key actions, and which action each of them is.
use mathlib.Core.Option
use keytap.Base.{
  ℕ, ◌<◌, ◌≡◌, ◌≢◌, ◌↔◌, ℤ, pos, negsuc, Option, refl, arith, fun_ext, ◌==◌, if◌then◌else◌, true,
  false, sym, subst, update, ◌∙◌, lt→ltb, if-cases, Bool, ltb, ap, ltb→lt,
}
use keytap.Base.Options.{◌>>=◌}
use keytap.Input.{key_max}
use keytap.KeyAction.{KeyAction}
use keytap.Config.Lua.{
  LuaValue, nil, integer, string, table, userdata, other, Entries, done, entry, Names,
}
use keytap.Config.Copy.{valid_code, entry_code, copy_to_key_action, extract_table_to_key_map}

-- What the later of two entries for one key says.
abbrev pub later : Option LuaValue → Option LuaValue → Option LuaValue
later here (Option.some v) = Option.some v
later here Option.none = here

abbrev pub for_code : ℕ → Option ℕ → LuaValue → Option LuaValue
for_code i (Option.some code) v = if code == i then Option.some v else Option.none
for_code i Option.none v = Option.none

module _ (names : Names) where
  -- The text that a table's key is read as is a name with the code `code`.
  abbrev pub NamesCode : LuaValue → ℕ → Type 0
  NamesCode (string s) code = (names.get_input_value s ≡ code) × (code ≢ 0)
  NamesCode _ code = ⊥

  -- The value of the last entry whose key stands for the code.
  abbrev pub last_value : ℕ → Entries → Option LuaValue
  last_value i done = Option.none
  last_value i (entry key v es) = later (for_code i (entry_code names key) v) (last_value i es)

  -- The key actions that a configuration may write, and what they mean.
  mutual
    pub data Reads : LuaValue → KeyAction → Type 0 where
      absent : Reads nil KeyAction.none
      key_code : (n : ℕ) → n < key_max → Reads (integer (pos n)) (KeyAction.simple n)
      built : (ka : KeyAction) → Reads (userdata ka) ka
      keymap :
          (es : Entries) (m : ℕ → KeyAction)
          → ReadsEach es
          → ((i : ℕ) → ReadsCell (last_value i es) (m i))
          → Reads (table es) (KeyAction.map m)

    pub data ReadsEach : Entries → Type 0 where
      no_entry : ReadsEach done
      one_more :
          (key v : LuaValue) (es : Entries) (code : ℕ) (ka : KeyAction)
          → NamesCode key code
          → Reads v ka
          → ReadsEach es
          → ReadsEach (entry key v es)

    pub data ReadsCell : Option LuaValue → KeyAction → Type 0 where
      left_out : ReadsCell Option.none KeyAction.none
      given : (v : LuaValue) (ka : KeyAction) → Reads v ka → ReadsCell (Option.some v) ka

  -- A cell of the map: the entry's action, or what stood there.
  abbrev Overlaid : Option LuaValue → KeyAction → KeyAction → Type 0
  Overlaid Option.none old new = new ≡ old
  Overlaid (Option.some v) old new = Reads v new × (copy_to_key_action names v ≡ Option.some new)

  Overlaid-later :
      (i c : ℕ) (v : LuaValue) (ka : KeyAction) (m : ℕ → KeyAction) (o : Option LuaValue)
      (new : KeyAction)
      → Reads v ka
      → copy_to_key_action names v ≡ Option.some ka
      → Overlaid o (update m c ka i) new
      → Overlaid (later (for_code i (Option.some c) v) o) (m i) new
  Overlaid-later i c v ka m (Option.some w) new r e h = h
  Overlaid-later i c v ka m Option.none new r e h = split (c == i) h
    where
      split :
          (b : Bool)
          → new ≡ (if b then ka else m i)
          → Overlaid (later (if b then Option.some v else Option.none) Option.none) (m i) new
      split true h = (subst (Reads v) (sym h) r, e ∙ ap Option.some (sym h))
      split false h = h

  named_code :
      (code c : ℕ)
      → (if code == 0 then Option.none else Option.some code) ≡ Option.some c
      → (code ≡ c) × (c ≢ 0)
  named_code code c e = ground arith

  entry_code-NamesCode :
      (key : LuaValue) (c : ℕ) → entry_code names key ≡ Option.some c → NamesCode key c
  unfolding entry_code
  entry_code-NamesCode (string s) c e = named_code (names.get_input_value s) c e
  entry_code-NamesCode (integer n) c e =
      (named_code _ c e).1 (sym (named_code _ c e).0 ∙ names.no_number n)
  entry_code-NamesCode nil c e = cc
  entry_code-NamesCode (table es) c e = cc
  entry_code-NamesCode (userdata ka) c e = cc
  entry_code-NamesCode other c e = cc

  NamesCode-entry_code :
      (key : LuaValue) (c : ℕ) → NamesCode key c → entry_code names key ≡ Option.some c
  unfolding entry_code
  NamesCode-entry_code (string s) c (e, nonzero) = ground arith
  NamesCode-entry_code nil c e = elim e [ ]
  NamesCode-entry_code (integer _) c e = elim e [ ]
  NamesCode-entry_code (table _) c e = elim e [ ]
  NamesCode-entry_code (userdata _) c e = elim e [ ]
  NamesCode-entry_code other c e = elim e [ ]

  -- The result of a copy, if there is one, is the value's action.
  abbrev ReadsTo : LuaValue → Option KeyAction → Type 0
  ReadsTo v (Option.some ka) = Reads v ka
  ReadsTo v Option.none = Unit

  abbrev ReadsOver : Entries → (ℕ → KeyAction) → Option (ℕ → KeyAction) → Type 0
  ReadsOver es old (Option.some new) =
      ReadsEach es × ((i : ℕ) → Overlaid (last_value i es) (old i) (new i))
  ReadsOver es old Option.none = Unit

  integer-ReadsTo : (n : ℤ) → ReadsTo (integer n) (Option.map KeyAction.simple (valid_code n))
  integer-ReadsTo (pos n) =
      if-cases (λ o. ReadsTo (integer (pos n)) (Option.map KeyAction.simple o)) (ltb n key_max) _ _
        (λ h. key_code n (ltb→lt _ _ h)) (λ _. tt)
  integer-ReadsTo (negsuc n) = tt

  cell_of :
      (o : Option LuaValue) (new : KeyAction) → Overlaid o KeyAction.none new → ReadsCell o new
  cell_of Option.none new e = subst (ReadsCell Option.none) (sym e) left_out
  cell_of (Option.some v) new (r, e) = given v new r

  table-ReadsTo :
      (es : Entries) (o : Option (ℕ → KeyAction))
      → ReadsOver es (λ _. KeyAction.none) o
      → ReadsTo (table es) (Option.map KeyAction.map o)
  table-ReadsTo es (Option.some m) (each, cells) = keymap es m each (λ i. cell_of _ (m i) (cells i))
  table-ReadsTo es Option.none h = tt

  entry-ReadsOver :
      (key v : LuaValue) (es : Entries) (m : ℕ → KeyAction) (code : Option ℕ)
      (ka : Option KeyAction)
      → entry_code names key ≡ code
      → copy_to_key_action names v ≡ ka
      → ReadsTo v ka
      → ((m' : ℕ → KeyAction) → ReadsOver es m' (extract_table_to_key_map names es m'))
      → ReadsOver
          (entry key v es)
          m
          (code >>= λ c. ka >>= λ k. extract_table_to_key_map names es (update m c k))
  entry-ReadsOver key v es m (Option.some c) (Option.some k) named e r ih =
      over (extract_table_to_key_map names es (update m c k)) (ih (update m c k))
    where
      over :
          (o : Option (ℕ → KeyAction))
          → ReadsOver es (update m c k) o
          → ReadsOver (entry key v es) m o
      over (Option.some new) (each, cells) = (
        one_more key v es c k (entry_code-NamesCode key c named) r each,
        λ i. rw named (Overlaid-later i c v k m (last_value i es) (new i) r e (cells i)),
      )
      over Option.none h = tt
  entry-ReadsOver key v es m (Option.some c) Option.none named e r ih = tt
  entry-ReadsOver key v es m Option.none ka named e r ih = tt

  mutual
    unfolding copy_to_key_action

    copy-ReadsTo : (v : LuaValue) → ReadsTo v (copy_to_key_action names v)
    copy-ReadsTo nil = absent
    copy-ReadsTo (integer n) = integer-ReadsTo n
    copy-ReadsTo (string s) = tt
    copy-ReadsTo (table es) = table-ReadsTo es _ (extract-ReadsOver es (λ _. KeyAction.none))
    copy-ReadsTo (userdata ka) = built ka
    copy-ReadsTo other = tt

    extract-ReadsOver :
        (es : Entries) (m : ℕ → KeyAction) → ReadsOver es m (extract_table_to_key_map names es m)
    extract-ReadsOver done m = (no_entry, λ i. refl)
    extract-ReadsOver (entry key v es) m =
        entry-ReadsOver key v es m (entry_code names key) (copy_to_key_action names v) refl refl
          (copy-ReadsTo v) (extract-ReadsOver es)

  mutual
    unfolding copy_to_key_action

    Reads-copy :
        (v : LuaValue) (ka : KeyAction) → Reads v ka → copy_to_key_action names v ≡ Option.some ka
    Reads-copy nil _ absent = refl
    Reads-copy _ _ (key_code n lt) = rw (lt→ltb n key_max lt) refl
    Reads-copy _ _ (built ka) = refl
    Reads-copy _ _ (keymap es m each cells) =
        let (m', e) = ReadsEach-extract es (λ _. KeyAction.none) each in
        let over =
          subst (ReadsOver es (λ _. KeyAction.none)) e
            (extract-ReadsOver es (λ _. KeyAction.none)) in
        rw e (
          ap (λ (k : ℕ → KeyAction). Option.some (KeyAction.map k))
            (fun_ext (λ i. ReadsCell-copy _ (m i) (m' i) (cells i) (over.1 i))))

    ReadsCell-copy :
        (o : Option LuaValue) (ka new : KeyAction)
        → ReadsCell o ka
        → Overlaid o KeyAction.none new
        → new ≡ ka
    ReadsCell-copy _ _ new left_out h = h
    ReadsCell-copy _ _ new (given v ka r) (r', e) = cc (e, Reads-copy v ka r)

    ReadsEach-extract :
        (es : Entries) (m : ℕ → KeyAction)
        → ReadsEach es
        → (m' : ℕ → KeyAction) × (extract_table_to_key_map names es m ≡ Option.some m')
    ReadsEach-extract _ m no_entry = (m, refl)
    ReadsEach-extract _ m (one_more key v es c ka named r each) =
        let (m', e) = ReadsEach-extract es (update m c ka) each in
        (m', rw (NamesCode-entry_code key c named) (rw (Reads-copy v ka r) e))

  -- `copy_to_key_action` accepts exactly these values, with these actions: nil; a key code below `key_max`; a key
  -- action that was built; and a table in which every key is a name with a code other than 0 and every value is
  -- accepted, as the map that has at each code the action of the last entry for it, and none where there is no
  -- entry.
  pub copy_to_key_action-Reads :
      (v : LuaValue) (ka : KeyAction) → (copy_to_key_action names v ≡ Option.some ka) ↔ Reads v ka
  copy_to_key_action-Reads v ka = (λ e. subst (ReadsTo v) e (copy-ReadsTo v), Reads-copy v ka)
