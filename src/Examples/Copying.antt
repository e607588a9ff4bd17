-- ===== src/Examples/Copying.antt =====
-- Copies of key actions.
use mathlib.Core.Option
use keytap.Base.{◌≡◌, refl, pos, true, false, [], ◌∷◌, ok, ◌+◌}
use keytap.KeyAction.{KeyAction, simple, macro, dual, tap_on_rollover}
use keytap.KeyAction.Memory.{Heap, key_action_dup, key_macro_dup, dup_rest}
use keytap.KeyAction.Owned.{owned}
use keytap.KeyAction.Copying.{tap_leaks}

abbrev one_key : KeyAction
one_key = macro (record { code = 30; press = true } ∷ record { code = 30; press = false } ∷ [])

-- Memory for three blocks only.
abbrev small_heap : Heap
small_heap = record { live = 5; answers = true ∷ true ∷ true ∷ [] }

one_key_copied :
    key_action_dup one_key (record { live = 6; answers = true ∷ true ∷ false ∷ [] })
    ≡ ok (Option.some one_key, record { live = 6 + owned one_key; answers = false ∷ [] })
unfolding key_action_dup key_macro_dup dup_rest owned
one_key_copied = refl

tap_leaks_example :
    key_action_dup
      (dual one_key (simple 1) tap_on_rollover (pos 200) (pos 300))
      (record { live = 5; answers = true ∷ true ∷ true ∷ false ∷ [] })
    ≡ ok (Option.none, record { live = 5 + owned one_key; answers = [] })
tap_leaks_example =
    tap_leaks one_key one_key (simple 1) tap_on_rollover (pos 200) (pos 300) 5
      (true ∷ true ∷ false ∷ []) [] one_key_copied
