-- ===== src/Examples/Sending.antt =====
-- The deduper and the loop at work.
use keytap.Base.{◌+◌, false, ok, halt, out_of_bounds, refl, arith, ◌≡◌, update, List, [], ◌∷◌}
use keytap.Input.{InputEvent, key_max, key_press, key_release, syn_ev}
use keytap.KeyAction.{tap_on_rollover}
use keytap.SendDedup.{SendDedup, fresh, send_all}
use keytap.ServeLoop.{drain, recv_event}
use keytap.ServeLoop.OutOfBounds.{key_max_out_of_bounds}
use keytap.ServeLoop.Drain.{DrainsTo, drain-DrainsTo}
use keytap.Examples.{at_ms, caps_waits, caps_waits-Inv}

-- Two keyboards hold key 30, and one lets go of it.
abbrev shared : List InputEvent
shared =
    key_press 30 (at_ms 0)
    ∷ syn_ev
    ∷ key_press 30 (at_ms 1)
    ∷ syn_ev
    ∷ key_release 30 (at_ms 2)
    ∷ syn_ev
    ∷ []

abbrev one_left : SendDedup
one_left = record {
  press_count_map = update (update (update (λ _. 0) 30 1) 30 2) 30 1;
  sent_something = false;
}

shared_run : send_all fresh shared ≡ ok (one_left, key_press 30 (at_ms 0) ∷ syn_ev ∷ [])
unfolding send_all
shared_run = refl

drain-DrainsTo_example :
    DrainsTo
      (caps_waits tap_on_rollover)
      (drain 3 (λ k. at_ms (k + 30)) (caps_waits tap_on_rollover))
drain-DrainsTo_example =
    drain-DrainsTo 3 (λ k. at_ms (k + 30)) (caps_waits tap_on_rollover)
      (caps_waits-Inv tap_on_rollover).valid (omega arith)

key_max_out_of_bounds_example :
    recv_event
      (λ k. at_ms (k + 30))
      (caps_waits tap_on_rollover)
      fresh
      (key_press key_max (at_ms 0))
    ≡ halt out_of_bounds
key_max_out_of_bounds_example =
    key_max_out_of_bounds (λ k. at_ms (k + 30)) (caps_waits tap_on_rollover) fresh
      (key_press key_max (at_ms 0)) refl refl refl
