-- ===== src/Resolver/Frame.antt =====
-- What the parts of `resolve` leave alone in the resolver.
use keytap.Base.{
  if◌then◌else◌, true, false, ltb, zero, suc, ◌>>=◌, ◌+◌, ◌-◌, arith, ℕ, ◌≡◌, arith, ok, Cells, ℤ,
  Bool, halt, suc, Outcome, false, true,
}
use keytap.TimeUtil.{Timeval}
use keytap.Input.{is_key, key_max, value_is, InputEvent, is_key}
use keytap.KeyAction.{KeyAction, none, ref, simple, macro, dual, map, DualMode, key_action_get}
use keytap.Resolver.{maybe_invalidate_last_tap, Resolver, ur_at}
use keytap.Resolver.Waveforms.{
  return, continue, tap, hold, none_yet, scan_waveform, check_waveform, check_timeout, Waveform,
  Round, scan_body, after_round,
}
use keytap.Resolver.Steps.{
  Resolved, do_keypress, resolve_action, resolve_oldest, resolved_by, resolve_press,
  act_on_waveform, resolve_release, resolve_repeat,
}

-- The fields that deciding on an event does not change.
pub record Frame (r r' : Resolver) : Type 0 where
  pub unresolved : r'.unresolved ≡ r.unresolved
  pub ur_len : r'.ur_len ≡ r.ur_len
  pub ur_start : r'.ur_start ≡ r.ur_start
  pub input_counts : r'.input_counts ≡ r.input_counts
  pub root_keymap : r'.root_keymap ≡ r.root_keymap

pub Frame-refl : (r : Resolver) → Frame r r
Frame-refl r = ground arith

pub Frame-trans : {a b c : Resolver} → Frame a b → Frame b c → Frame a c
Frame-trans f g = ground arith

-- What deciding on a waveform may change is `last_tap_code` and `last_tap_time`; of the fields that
-- matter to others it keeps all.
pub record OnlyLastTap (r r' : Resolver) : Type 0 where
  pub unresolved : r'.unresolved ≡ r.unresolved
  pub ur_len : r'.ur_len ≡ r.ur_len
  pub ur_start : r'.ur_start ≡ r.ur_start
  pub input_counts : r'.input_counts ≡ r.input_counts
  pub release_map : r'.release_map ≡ r.release_map
  pub root_keymap : r'.root_keymap ≡ r.root_keymap
  pub current_keymap : r'.current_keymap ≡ r.current_keymap

abbrev pub round_state : Round → Resolver
round_state (return w r) = r
round_state (continue keys r) = r

pub scan_body-OnlyLastTap :
    (keys : Cells Bool) (r : Resolver) (ev : InputEvent) (mode : DualMode) (ev2 : InputEvent)
    → OnlyLastTap r (round_state (scan_body keys r ev mode ev2))
unfolding scan_body
scan_body-OnlyLastTap keys r ev mode ev2 = ground arith

scan_waveform-OnlyLastTap :
    (rounds i : ℕ) (keys : Cells Bool) (r : Resolver) (ev : InputEvent) (mode : DualMode)
    → OnlyLastTap r (scan_waveform rounds i keys r ev mode).1
unfolding scan_waveform
scan_waveform-OnlyLastTap zero i keys r ev mode = ground arith
scan_waveform-OnlyLastTap (suc rounds) i keys r ev mode =
    rest (scan_body keys r ev mode (ur_at r i)) (scan_body-OnlyLastTap keys r ev mode (ur_at r i))
      (λ keys' r'. scan_waveform-OnlyLastTap rounds (i + 1) keys' r' ev mode)
  where
    rest :
        (b : Round)
        → OnlyLastTap r (round_state b)
        → ((keys' : Cells Bool) (r' : Resolver)
            → OnlyLastTap r' (scan_waveform rounds (i + 1) keys' r' ev mode).1)
        → OnlyLastTap r
            (after_round (λ keys' r'. scan_waveform rounds (i + 1) keys' r' ev mode) b).1
    rest (return w r') f ih = f
    rest (continue keys' r') f ih = ground (arith, ih keys' r')

pub check_waveform-OnlyLastTap :
    (now : Timeval) (r : Resolver) (ev : InputEvent) (mode : DualMode) (hold_ms dtms : ℤ)
    → OnlyLastTap r (check_waveform now r ev mode hold_ms dtms).1
unfolding check_waveform check_timeout
check_waveform-OnlyLastTap now r ev mode hold_ms dtms =
    ground (arith, scan_waveform-OnlyLastTap (r.ur_len - 1) 1 (λ _. false) r ev mode)

OnlyLastTap-Frame : {r r' : Resolver} → OnlyLastTap r r' → Frame r r'
OnlyLastTap-Frame f = ground arith

-- A result that keeps the frame, if there is one.
abbrev pub Keeps : Resolver → Resolved → Type 0
Keeps r (ok (resolved, r', sent)) = Frame r r'
Keeps r (halt h) = Unit

Keeps-if :
    (r : Resolver) (x y : Resolved) (b : Bool)
    → Keeps r x
    → Keeps r y
    → Keeps r (if b then x else y)
Keeps-if r x y true h k = h
Keeps-if r x y false h k = k

do_keypress-Keeps :
    (r : Resolver) (ev : InputEvent) (ka : KeyAction) → Keeps r (resolved_by (do_keypress r ev ka))
unfolding do_keypress
do_keypress-Keeps r ev none = tt
do_keypress-Keeps r ev ka = ground arith

pub Keeps-trans : {r r' : Resolver} → Frame r r' → (m : Resolved) → Keeps r' m → Keeps r m
Keeps-trans f (ok (b, r'', sent)) k = Frame-trans f k
Keeps-trans f (halt h) k = tt

resolve_action-Keeps :
    (now : Timeval) (r : Resolver) (ev : InputEvent) (ka : KeyAction)
    → Keeps r (resolve_action now r ev ka)
unfolding resolve_action
resolve_action-Keeps now r ev none = tt
resolve_action-Keeps now r ev (ref ka) = tt
resolve_action-Keeps now r ev (simple c) = do_keypress-Keeps r ev (simple c)
resolve_action-Keeps now r ev (macro m) = do_keypress-Keeps r ev (macro m)
resolve_action-Keeps now r ev (map m) = do_keypress-Keeps r ev (map m)
resolve_action-Keeps now r ev (dual t h mode hold_ms dtms) =
    decided (check_waveform now r ev mode hold_ms dtms)
      (OnlyLastTap-Frame (check_waveform-OnlyLastTap now r ev mode hold_ms dtms))
  where
    decided : (w : Waveform × Resolver) → Frame r w.1 → Keeps r (act_on_waveform w ev t h hold_ms)
    decided (tap, r') f =
        Keeps-trans f (resolved_by (do_keypress r' ev t)) (do_keypress-Keeps r' ev t)
    decided (hold, r') f =
        Keeps-trans f (resolved_by (do_keypress r' ev h)) (do_keypress-Keeps r' ev h)
    decided (none_yet, r') f = ground arith

resolve_press-Keeps :
    (now : Timeval) (r : Resolver) (ev : InputEvent) → Keeps r (resolve_press now r ev)
unfolding resolve_press
resolve_press-Keeps now r ev = looked_up (key_action_get r.current_keymap ev.code)
  where
    looked_up :
        (m : Outcome KeyAction)
        → Keeps r (m >>= (λ ka. resolve_action now (maybe_invalidate_last_tap r ev.code) ev ka))
    looked_up (ok ka) =
        Keeps-trans (ground arith) _
          (resolve_action-Keeps now (maybe_invalidate_last_tap r ev.code) ev ka)
    looked_up (halt h) = tt

resolve_release-Keeps : (r : Resolver) (ev : InputEvent) → Keeps r (resolve_release r ev)
unfolding resolve_release
resolve_release-Keeps r ev = ground arith

resolve_repeat-Keeps : (r : Resolver) (ev : InputEvent) → Keeps r (resolve_repeat r ev)
unfolding resolve_repeat
resolve_repeat-Keeps r ev = ground arith

pub resolve_oldest-Keeps :
    (now : Timeval) (r : Resolver) (ev : InputEvent) → Keeps r (resolve_oldest now r ev)
unfolding resolve_oldest
resolve_oldest-Keeps now r ev =
    Keeps-if r _ _ (is_key ev)
      (Keeps-if r _ _ (ltb key_max ev.code) (Frame-refl r) (
        Keeps-if r _ _ (value_is ev 0) (resolve_release-Keeps r ev) (
          Keeps-if r _ _ (value_is ev 1) (resolve_press-Keeps now r ev)
            (Keeps-if r _ _ (value_is ev 2) (resolve_repeat-Keeps r ev) (Frame-refl r)))))
      (Frame-refl r)

-- The same for the call that `resolve` makes.
pub resolve_start-Keeps :
    (now : Timeval) (r : Resolver)
    → Keeps r (resolve_oldest now (record r { use_resolvable_time = false }) (ur_at r 0))
resolve_start-Keeps now r =
    Keeps-trans {r' = record r { use_resolvable_time = false }} (ground arith) _
      (resolve_oldest-Keeps now (record r { use_resolvable_time = false }) (ur_at r 0))
