-- ===== src/KeyAction.antt =====
-- key_action.h and key_action.c: what a key does. A `key_action_t` is a value of a tagged union; a
-- map is an array of `key_max` of them. Nothing changes a keymap once it is filled, so pointers to
-- it are modelled by what they point to, and a copy by itself. KeyAction/Memory has `key_macro_dup` and
-- `key_action_dup` with the blocks that they allocate.
pub mod Memory
pub mod Owned
pub mod Copying
use keytap.Base.{ℕ, zero, suc, ℤ, Bool, List, load, Outcome, ok, halt, null_pointer, exit_with}
use keytap.Input.{key_max}

pub record KeyMacro : Type 0 where
  pub code : ℕ
  pub press : Bool

pub data DualMode : Type 0 where
  tap_on_rollover hold_on_rollover timeout_only : DualMode

-- `none` is KT_NONE with a null `ref`, and `ref` is KT_NONE with the action that `ref` points to.
-- `dual tap hold mode hold_ms double_tap_ms` has the fields of `key_dual_t`.
pub data KeyAction : Type 0 where
  none : KeyAction
  ref : KeyAction → KeyAction
  simple : ℕ → KeyAction
  macro : List KeyMacro → KeyAction
  dual : KeyAction → KeyAction → DualMode → ℤ → ℤ → KeyAction
  map : (ℕ → KeyAction) → KeyAction

-- The loop of `key_action_get`, with the tries left.
unfoldable pub key_action_get_from : ℕ → KeyAction → ℕ → Outcome KeyAction
key_action_get_from zero ka i = halt (exit_with 1)
key_action_get_from (suc tries) (simple c) i = ok (simple c)
key_action_get_from (suc tries) (macro m) i = ok (macro m)
key_action_get_from (suc tries) (dual t h mode hold_ms dtms) i = ok (dual t h mode hold_ms dtms)
key_action_get_from (suc tries) (map m) i = load key_max m i
key_action_get_from (suc tries) (ref ka) i = key_action_get_from tries ka i
key_action_get_from (suc zero) none i = halt (exit_with 1)
key_action_get_from (suc (suc tries)) none i = halt null_pointer

unfoldable pub key_action_get : KeyAction → ℕ → Outcome KeyAction
unfolding key_action_get_from
key_action_get ka i = key_action_get_from 32 ka i
