-- ===== src/Examples.antt =====
-- Runs of the models at concrete inputs: a keyboard whose caps-lock key is escape when tapped and control
-- when held.
pub mod Resolving
pub mod Sending
pub mod Serving
pub mod Configuring
pub mod Permitting
pub mod Reading
pub mod Running
pub mod Remapping
pub mod Commanding
pub mod Naming
pub mod Starting
pub mod Copying
use keytap.Base.{
  ℕ, ◌+◌, pos, zero, suc, true, false, ok, halt, out_of_bounds, Outcome, refl, arith, ◌≡◌, ◌<◌,
  if-cases, update, ◌==◌, List, [], ◌∷◌, inl,
}
use keytap.TimeUtil.{Timeval}
use keytap.Input.{InputEvent, key_max, key_press, key_release, time_zero, syn_ev}
use keytap.KeyAction.{
  KeyAction, none, simple, dual, map, timeout_only, DualMode, tap_on_rollover, hold_on_rollover,
}
use keytap.Resolver.{Resolver, resolver_init, event_zero}
use keytap.Resolver.Safety.{IsKeymap, IsReady, InRange}
use keytap.Config.Fill.{IsBuilt, fill_map, fill_map-IsKeymap}
use keytap.ServeLoop.Safety.{Inv}
use mathlib.Core.Option

abbrev pub at_ms : ℕ → Timeval
at_ms n = record { tv_sec = pos 7; tv_usec = pos (n + n) }

abbrev pub caps_cells : DualMode → ℕ → KeyAction
caps_cells mode = update (λ _. none) 58 (dual (simple 1) (simple 29) mode (pos 200) (pos 300))

pub caps_cells-IsBuilt : (mode : DualMode) → IsBuilt (map (caps_cells mode))
caps_cells-IsBuilt mode i lt =
    if-cases IsBuilt (58 == i) (dual (simple 1) (simple 29) mode (pos 200) (pos 300)) none
      (λ _. (omega arith, tt, omega arith, tt)) (λ _. tt)

abbrev pub caps_keymap : DualMode → KeyAction
caps_keymap mode = fill_map (map (caps_cells mode)) Option.none

-- The caps-lock key is down and waits in the queue.
abbrev pub caps_waits : DualMode → Resolver
caps_waits mode = record (resolver_init (caps_keymap mode)) {
  unresolved = update (λ _. event_zero) 0 (key_press 58 (at_ms 0));
  ur_len = 1;
  input_counts = update (λ _. 0) 58 1;
}

pub caps_waits-Inv : (mode : DualMode) → Inv (caps_waits mode)
caps_waits-Inv mode =
    unfold resolver_init in
    record {
      valid = record { fits = omega arith; start_in = omega arith };
      ready = record {
        root = fill_map-IsKeymap _ (caps_cells-IsBuilt mode);
        current = fill_map-IsKeymap _ (caps_cells-IsBuilt mode);
        releases = λ i lt. inl (omega arith);
      };
      queued = ((λ k. omega arith), tt);
    }
