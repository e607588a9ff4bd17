-- ===== src/Resolver/Remap.antt =====
-- A description of a keymap without dual-mode keys and without keymaps in it: what an event of a keyboard comes to,
-- with neither a queue nor a map of releases.
use keytap.Base.{ℕ, ◌+◌, ◌-◌, ◌<◌, not, List, [], ◌∷◌, Cells, update, if◌then◌else◌, ltb, ◌==◌, All}
use keytap.Input.{InputEvent, is_key, value_is, key_max}
use keytap.KeyAction.{KeyAction, KeyMacro, simple, macro}
use keytap.Resolver.Steps.{macro_events}

-- A key, or a chain of keys.
abbrev pub IsPlain : KeyAction → Type 0
IsPlain (simple c) = c < key_max
IsPlain (macro ms) = All (λ (m : KeyMacro). m.code < key_max) ms
IsPlain _ = ⊥

-- What is sent when the key goes down, and what when it comes up or repeats: nothing for the code 0, which stands for
-- no key in the map of releases.
abbrev pub on_press : KeyAction → InputEvent → List InputEvent
on_press (simple c) ev = record ev { code = c } ∷ []
on_press (macro ms) ev = macro_events ms
on_press _ ev = []

abbrev pub on_other : KeyAction → InputEvent → List InputEvent
on_other (simple c) ev = if c == 0 then [] else record ev { code = c } ∷ []
on_other _ ev = []

-- An event of a key that is held `n` times, and a description of what the grab makes of it: how often its keys
-- are held afterwards, and what is sent.
abbrev pub remap_key : KeyAction → ℕ → InputEvent → ℕ × List InputEvent
remap_key ka n ev =
    if value_is ev 0
    then (n - 1, if n == 1 then on_other ka ev else [])
    else if value_is ev 1
    then (n + 1, if n == 0 then on_press ka ev else [])
    else (n, if value_is ev 2 then (if n == 0 then [] else on_other ka ev) else [])

unfoldable pub remap : (ℕ → KeyAction) → Cells ℕ → InputEvent → Cells ℕ × List InputEvent
remap m held ev =
    if not (is_key ev)
    then (held, ev ∷ [])
    else if ltb key_max ev.code
    then (held, [])
    else (let (n, sent) = remap_key (m ev.code) (held ev.code) ev in (update held ev.code n, sent))
