-- ===== src/Config/Fill.antt =====
-- config.c, `fill_action` and `fill_map`: what the cells that the configuration leaves out stand for.
use keytap.Base.{ok, ℕ, ◌<◌, ◌≡◌, arith, Bool, true, false, Option, All, ltb, if◌then◌else◌, lt→ltb}
use keytap.Input.{key_max}
use keytap.KeyAction.{key_action_get, KeyAction, none, ref, simple, macro, dual, map, KeyMacro}
use keytap.Resolver.Safety.{NotDual, IsAction, IsKeymap}

-- The filler of `fill_map` for cell `i`. A base that is no map is refused before.
abbrev pub filler_at : Option KeyAction → ℕ → KeyAction
filler_at Option.none i = simple i
filler_at (Option.some (map b)) i = ref (b i)
filler_at (Option.some _) i = none

abbrev pub is_base : Option KeyAction → Bool
is_base Option.none = true
is_base (Option.some (map b)) = true
is_base (Option.some _) = false

-- At a map this is `fill_map`, which works on every cell of the array.
unfoldable pub fill_action : KeyAction → Option KeyAction → KeyAction → KeyAction
fill_action none base filler = filler
fill_action (ref ka) base filler = filler
fill_action (simple c) base filler = simple c
fill_action (macro m) base filler = macro m
fill_action (dual t h mode hold_ms dtms) base filler =
    dual (fill_action t base filler) (fill_action h base filler) mode hold_ms dtms
fill_action (map m) base filler =
    if is_base base
    then map (λ i. if ltb i key_max then fill_action (m i) base (filler_at base i) else m i)
    else map m

-- A target that is no map is left alone.
unfoldable pub fill_map : KeyAction → Option KeyAction → KeyAction
unfolding fill_action
fill_map (map m) base = fill_action (map m) base none
fill_map ka base = ka

-- What the functions of the configuration build: codes are in range, and the parts of a dual-mode key are
-- not dual-mode keys. Cells may be left out.
abbrev pub IsBuilt : KeyAction → Type 0
IsBuilt none = Unit
IsBuilt (ref ka) = ⊥
IsBuilt (simple c) = c < key_max
IsBuilt (macro ms) = All (λ (m : KeyMacro). m.code < key_max) ms
IsBuilt (dual t h mode hold_ms dtms) = IsBuilt t × NotDual t × IsBuilt h × NotDual h
IsBuilt (map m) = (i : ℕ) → i < key_max → IsBuilt (m i)

fill_action-NotDual :
    (ka : KeyAction) (c : ℕ) → NotDual ka → NotDual (fill_action ka Option.none (simple c))
unfolding fill_action
fill_action-NotDual none c n = tt
fill_action-NotDual (ref ka) c n = tt
fill_action-NotDual (simple k) c n = tt
fill_action-NotDual (macro m) c n = tt
fill_action-NotDual (dual t h mode hold_ms dtms) c n = n
fill_action-NotDual (map m) c n = tt

fill_action-IsAction :
    (ka : KeyAction) (c : ℕ)
    → IsBuilt ka
    → c < key_max
    → IsAction (fill_action ka Option.none (simple c))
unfolding fill_action
fill_action-IsAction none c b lt = lt
fill_action-IsAction (ref ka) c b lt = absurd b
fill_action-IsAction (simple k) c b lt = b
fill_action-IsAction (macro m) c b lt = b
fill_action-IsAction (dual t h mode hold_ms dtms) c b lt = (
  fill_action-IsAction t c b.0 lt,
  fill_action-NotDual t c b.1,
  fill_action-IsAction h c b.2 lt,
  fill_action-NotDual h c b.3,
)
fill_action-IsAction (map m) c b lt =
    λ i small. rw (lt→ltb _ _ small) (fill_action-IsAction (m i) i (b i small) small)

-- Filling a keymap that the configuration built, without a base, leaves no cell open, at any depth: the
-- resolver can carry out every action in it.
pub fill_map-IsKeymap :
    (m : ℕ → KeyAction) → IsBuilt (map m) → IsKeymap (fill_map (map m) Option.none)
unfolding fill_map
fill_map-IsKeymap m b = fill_action-IsAction (map m) 0 b (omega arith)

-- After filling the root keymap, a key that a keymap standing in it leaves out is itself in that keymap,
-- whatever the root keymap says of the key.
pub inner_keymap_hides_root :
    (m inner : ℕ → KeyAction) (x i : ℕ)
    → x < key_max
    → i < key_max
    → m x ≡ map inner
    → inner i ≡ none
    → (filled : KeyAction) × (key_action_get (fill_map (map m) Option.none) x ≡ ok filled)
      × (key_action_get filled i ≡ ok (simple i))
unfolding fill_map key_action_get
inner_keymap_hides_root m inner x i lx li ex ei = (
  map (λ j. if ltb j key_max then fill_action (inner j) Option.none (simple j) else inner j),
  rw (lt→ltb _ _ lx, ex),
  rw (lt→ltb _ _ li, ei),
)
