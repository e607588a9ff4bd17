-- ===== src/Resolver.antt =====
-- resolver.h and resolver.c: the state of a resolver and its operations. A function that updates `*r`
-- returns the new resolver; one that calls `r->send` returns also the events sent, in order, since
-- the result of `send` is ignored and it does not see the resolver. `now` is what `timeval_now`
-- returns. An array access out of bounds stops the program (`halt out_of_bounds`).
pub mod Waveforms
pub mod Steps
pub mod Frame
pub mod Ring
pub mod Safety
pub mod Returns
pub mod Release
pub mod Tapping
pub mod Remap
pub mod Plain
pub mod Waiting
pub mod Decision
use keytap.Base.{
  ℕ, zero, suc, ◌+◌, ◌-◌, ◌%◌, ℤ, pos, negsuc, ◌==ℤ◌, ltb_ℤ, Bool, true, false, not, ◌&&◌, ◌||◌,
  List, [], ◌∷◌, Cells, load, store, update, Outcome, ok, halt, exit_with, ◌>>=◌, ltb, ◌==◌,
  if◌then◌else◌, Option, ◌++◌, some, quot, rem, ◌*ℤ◌,
}
use keytap.TimeUtil.{Timeval, msec_diff, msec_after}
use keytap.Input.{InputEvent, ev_key, key_max, value_is, is_key, time_zero, syn_ev}
use keytap.KeyAction.{
  KeyAction, none, ref, simple, macro, dual, map, KeyMacro, DualMode, hold_on_rollover,
  timeout_only, key_action_get,
}

abbrev pub urmax : ℕ
urmax = 1024

abbrev pub reset_keymap : ℕ
reset_keymap = key_max + 1

pub record Resolver : Type 0 where
  -- a ring of `urmax` cells, of which `ur_len` from `ur_start` on are in use
  pub unresolved : Cells InputEvent
  pub ur_len : ℕ
  pub ur_start : ℕ
  -- arrays of `key_max` cells
  pub input_counts : Cells ℕ
  pub release_map : Cells ℕ
  pub resolvable_time : Timeval
  pub use_resolvable_time : Bool
  pub root_keymap : KeyAction
  pub current_keymap : KeyAction
  pub last_tap_code : ℤ
  pub last_tap_time : Timeval

abbrev pub event_zero : InputEvent
event_zero = record { time = time_zero; type = 0; code = 0; value = pos 0 }

unfoldable pub resolver_init : KeyAction → Resolver
resolver_init root_keymap = record {
  unresolved = λ _. event_zero;
  ur_len = 0;
  ur_start = 0;
  input_counts = λ _. 0;
  release_map = λ _. 0;
  resolvable_time = time_zero;
  use_resolvable_time = false;
  root_keymap = root_keymap;
  current_keymap = root_keymap;
  last_tap_code = pos 0;
  last_tap_time = time_zero;
}

abbrev pub track_last_tap : Resolver → InputEvent → Resolver
track_last_tap r release_ev = record r {
  last_tap_code = pos release_ev.code;
  last_tap_time = release_ev.time;
}

abbrev pub invalidate_last_tap : Resolver → Resolver
invalidate_last_tap r = record r { last_tap_code = negsuc 0 }

abbrev pub maybe_invalidate_last_tap : Resolver → ℕ → Resolver
maybe_invalidate_last_tap r code = record r {
  last_tap_code = if not (pos code ==ℤ r.last_tap_code) then negsuc 0 else r.last_tap_code;
}

-- The flag says whether the event is to be queued.
unfoldable pub resolve_dedup_input : Resolver → InputEvent → Outcome (Bool × Resolver)
resolve_dedup_input r ev =
    if not (is_key ev)
    then ok (true, r)
    else if ltb key_max ev.code
    then ok (true, r)
    else if value_is ev 0
    then (do
      count ← load key_max r.input_counts ev.code
      if count == 0
          then ok (false, r)
          else ok (
            count - 1 == 0,
            record r { input_counts = update r.input_counts ev.code (count - 1) },
          ))
    else if value_is ev 1
    then (do
      count ← load key_max r.input_counts ev.code
      ok (count == 0, record r { input_counts = update r.input_counts ev.code (count + 1) }))
    else ok (true, r)

-- The queued event `i` places behind the oldest.
abbrev pub ur_at : Resolver → ℕ → InputEvent
ur_at r i = r.unresolved ((r.ur_start + i) % urmax)

-- The timeout for `select`, if there is one.
unfoldable pub select_timeout : Timeval → Resolver → Option Timeval
select_timeout now r =
    if not r.use_resolvable_time
    then Option.none
    else (let mdiff = msec_diff r.resolvable_time now in
        if ltb_ℤ mdiff (pos 0)
        then some time_zero
        else some (record { tv_sec = quot mdiff 1000; tv_usec = rem mdiff 1000 *ℤ 1000 }))
