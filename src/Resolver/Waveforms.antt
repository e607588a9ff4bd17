-- ===== src/Resolver/Waveforms.antt =====
-- resolver.c, `check_waveform`: is a pressed dual-mode key a tap or a hold?
use keytap.Base.{
  ℕ, zero, suc, ◌+◌, ◌-◌, ℤ, pos, negsuc, ◌==ℤ◌, ltb_ℤ, Bool, true, false, not, ◌&&◌, ◌||◌, Cells,
  update, ltb, ◌==◌, if◌then◌else◌,
}
use keytap.TimeUtil.{Timeval, msec_diff}
use keytap.Input.{InputEvent, key_max, value_is, is_key}
use keytap.KeyAction.{DualMode, hold_on_rollover, timeout_only}
use keytap.Resolver.{Resolver, invalidate_last_tap, track_last_tap, ur_at}

pub data Waveform : Type 0 where
  tap hold none_yet : Waveform

abbrev pub is_hold_on_rollover : DualMode → Bool
is_hold_on_rollover hold_on_rollover = true
is_hold_on_rollover _ = false

abbrev pub is_timeout_only : DualMode → Bool
is_timeout_only timeout_only = true
is_timeout_only _ = false

-- A round of the loop of `check_waveform`: `return`, or go on.
pub data Round : Type 0 where
  return : Waveform → Resolver → Round
  continue : Cells Bool → Resolver → Round

-- The body of that loop at the queued event `ev2`; `keys_pressed` has `key_max` cells.
unfoldable pub scan_body : Cells Bool → Resolver → InputEvent → DualMode → InputEvent → Round
scan_body keys_pressed r ev mode ev2 =
    if not (is_key ev2)
    then continue keys_pressed r
    else if value_is ev2 0 && ev2.code == ev.code
    then return tap (track_last_tap r ev2)
    else if is_hold_on_rollover mode && is_key ev2 && value_is ev2 1
    then return hold (invalidate_last_tap r)
    else if value_is ev2 1 && ltb ev2.code key_max
    then continue (update keys_pressed ev2.code true) (invalidate_last_tap r)
    else if value_is ev2 0 && ltb ev2.code key_max && keys_pressed ev2.code
    then return hold (invalidate_last_tap r)
    else continue keys_pressed r

-- What follows a round: its result, or the rest of the loop.
abbrev pub after_round : (Cells Bool → Resolver → Waveform × Resolver) → Round → Waveform × Resolver
after_round rest (return w r) = (w, r)
after_round rest (continue keys_pressed r) = rest keys_pressed r

-- The loop from index `i`, with the rounds left.
unfoldable pub scan_waveform :
    ℕ → ℕ → Cells Bool → Resolver → InputEvent → DualMode → Waveform × Resolver
unfolding scan_body
scan_waveform zero i keys_pressed r ev mode = (none_yet, r)
scan_waveform (suc rounds) i keys_pressed r ev mode =
    after_round (λ keys r'. scan_waveform rounds (i + 1) keys r' ev mode)
      (scan_body keys_pressed r ev mode (ur_at r i))

-- The key has been down for longer than `hold_ms`: was it a double tap?
unfoldable pub check_timeout : Resolver → InputEvent → ℤ → Waveform × Resolver
check_timeout r ev dtms =
    if ltb_ℤ (negsuc 0) dtms
      && (r.last_tap_code ==ℤ pos ev.code)
      && ((dtms ==ℤ pos 0) || ltb_ℤ (msec_diff ev.time r.last_tap_time) dtms)
    then (tap, invalidate_last_tap r)
    else (hold, invalidate_last_tap r)

-- The rounds are those of `for(i = 1; i < ur_len; i++)`.
unfoldable pub check_waveform :
    Timeval → Resolver → InputEvent → DualMode → ℤ → ℤ → Waveform × Resolver
check_waveform now r ev mode hold_ms dtms =
    if ltb_ℤ hold_ms (msec_diff now ev.time)
    then check_timeout r ev dtms
    else if is_timeout_only mode
    then (none_yet, r)
    else scan_waveform (r.ur_len - 1) 1 (λ _. false) r ev mode
