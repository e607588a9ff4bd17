-- ===== src/ServeLoop/OutOfBounds.antt =====
-- The guards `ev.code > KEY_MAX` at the one code that they let through to arrays of KEY_MAX cells.
use keytap.Base.{ℕ, ◌≡◌, ◌||◌, true, refl, arith, halt, out_of_bounds}
use keytap.TimeUtil.{Timeval}
use keytap.Input.{InputEvent, is_key, value_is, key_max}
use keytap.Resolver.{Resolver, resolve_dedup_input}
use keytap.SendDedup.{SendDedup}
use keytap.ServeLoop.{recv_event}

dedup_at_key_max :
    (r : Resolver) (ev : InputEvent)
    → is_key ev ≡ true
    → ev.code ≡ key_max
    → (value_is ev 0 || value_is ev 1) ≡ true
    → resolve_dedup_input r ev ≡ halt out_of_bounds
unfolding resolve_dedup_input
dedup_at_key_max r ev key code changes = ground arith

-- A press or a release of the key code `key_max` makes the loop's body access an array out of bounds.
pub key_max_out_of_bounds :
    (clock : ℕ → Timeval) (r : Resolver) (d : SendDedup) (ev : InputEvent)
    → is_key ev ≡ true
    → ev.code ≡ key_max
    → (value_is ev 0 || value_is ev 1) ≡ true
    → recv_event clock r d ev ≡ halt out_of_bounds
unfolding recv_event
key_max_out_of_bounds clock r d ev key code changes =
    rw (dedup_at_key_max r ev key code changes) refl
