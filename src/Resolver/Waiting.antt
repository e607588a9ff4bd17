-- ===== src/Resolver/Waiting.antt =====
-- Why `resolve` returns false: the queue is empty, or its oldest event waits for a decision.
use keytap.Base.{
  ◌≡◌, ◌⊎◌, inl, inr, refl, arith, sym, subst, ℤ, pos, negsuc, ◌==ℤ◌, ltb_ℤ, ◌==◌, Bool, true,
  false, ◌&&◌, ◌||◌, if◌then◌else◌, Bool-cases, if-cases, ltb, Outcome, ok, halt, ◌>>=◌, List,
}
use keytap.TimeUtil.{Timeval, msec_diff}
use keytap.Input.{InputEvent, is_key, value_is, key_max}
use keytap.KeyAction.{KeyAction, none, ref, simple, macro, dual, map, DualMode, key_action_get}
use keytap.Resolver.{Resolver, ur_at, invalidate_last_tap, maybe_invalidate_last_tap}
use keytap.Resolver.Waveforms.{Waveform, tap, hold, none_yet, check_waveform, check_timeout}
use keytap.Resolver.Steps.{
  Resolved, resolved_by, do_keypress, act_on_waveform, resolve_action, resolve_press,
  resolve_release, resolve_repeat, resolve_oldest, finish_resolve, resolve,
}

-- The press of a dual-mode key that has not been down for longer than its `hold_ms`.
pub record Waits (now : Timeval) (keymap : KeyAction) (ev : InputEvent) : Type 0 where
  pub pressed : (is_key ev && value_is ev 1) ≡ true
  pub on_tap : KeyAction
  pub on_hold : KeyAction
  pub mode : DualMode
  pub hold_ms : ℤ
  pub double_tap_ms : ℤ
  pub action : key_action_get keymap ev.code ≡ ok (dual on_tap on_hold mode hold_ms double_tap_ms)
  pub in_time : ltb_ℤ hold_ms (msec_diff now ev.time) ≡ false

-- A resolver whose queue is empty, or whose oldest event waits.
abbrev pub Idle : Timeval → Resolver → Type 0
Idle now r = (r.ur_len ≡ 0) ⊎ Waits now r.current_keymap (ur_at r 0)

-- A call of `resolve` returns false only for such a resolver.
abbrev pub StopsIdle : Timeval → Resolver → Resolved → Type 0
StopsIdle now r (ok (true, r', sent)) = Unit
StopsIdle now r (ok (false, r', sent)) = Idle now r
StopsIdle now r (halt h) = Unit

resolved_by-StopsIdle :
    (now : Timeval) (r : Resolver) (m : Outcome (Resolver × List InputEvent))
    → StopsIdle now r (resolved_by m)
resolved_by-StopsIdle now r (ok x) = tt
resolved_by-StopsIdle now r (halt h) = tt

act_on_waveform-StopsIdle :
    (now : Timeval) (r : Resolver) (w : Waveform × Resolver) (ev : InputEvent) (t h : KeyAction)
    (hold_ms : ℤ)
    → ((w.0 ≡ none_yet) → Idle now r)
    → StopsIdle now r (act_on_waveform w ev t h hold_ms)
unfolding act_on_waveform
act_on_waveform-StopsIdle now r (tap, r') ev t h hold_ms idle =
    resolved_by-StopsIdle now r (do_keypress r' ev t)
act_on_waveform-StopsIdle now r (hold, r') ev t h hold_ms idle =
    resolved_by-StopsIdle now r (do_keypress r' ev h)
act_on_waveform-StopsIdle now r (none_yet, r') ev t h hold_ms idle = idle refl

-- After `hold_ms` a dual-mode key is decided.
check_waveform-in_time :
    (now : Timeval) (r : Resolver) (ev : InputEvent) (mode : DualMode) (hold_ms dtms : ℤ)
    → (check_waveform now r ev mode hold_ms dtms).0 ≡ none_yet
    → ltb_ℤ hold_ms (msec_diff now ev.time) ≡ false
unfolding check_waveform check_timeout
check_waveform-in_time now r ev mode hold_ms dtms e =
    elim (Bool-cases (ltb_ℤ hold_ms (msec_diff now ev.time))) [
      | inl late ↦
          timed
            (ltb_ℤ (negsuc 0) dtms
              && (r.last_tap_code ==ℤ pos ev.code)
              && ((dtms ==ℤ pos 0) || ltb_ℤ (msec_diff ev.time r.last_tap_time) dtms))
            (rw late at e)
      | inr early ↦ early
    ]
  where
    answer : Bool → Waveform × Resolver
    answer b = if b then (tap, invalidate_last_tap r) else (hold, invalidate_last_tap r)

    timed : (b : Bool) → (answer b).0 ≡ none_yet → ltb_ℤ hold_ms (msec_diff now ev.time) ≡ false
    timed true e = cc
    timed false e = cc

resolve_action-StopsIdle :
    (now : Timeval) (r r' : Resolver) (ev : InputEvent) (ka : KeyAction)
    → ur_at r 0 ≡ ev
    → (is_key ev && value_is ev 1) ≡ true
    → key_action_get r.current_keymap ev.code ≡ ok ka
    → StopsIdle now r (resolve_action now r' ev ka)
unfolding resolve_action
resolve_action-StopsIdle now r r' ev none same p e = tt
resolve_action-StopsIdle now r r' ev (ref ka) same p e = tt
resolve_action-StopsIdle now r r' ev (simple c) same p e =
    resolved_by-StopsIdle now r (do_keypress r' ev (simple c))
resolve_action-StopsIdle now r r' ev (macro m) same p e =
    resolved_by-StopsIdle now r (do_keypress r' ev (macro m))
resolve_action-StopsIdle now r r' ev (map m) same p e =
    resolved_by-StopsIdle now r (do_keypress r' ev (map m))
resolve_action-StopsIdle now r r' ev (dual t h mode hold_ms dtms) same p e =
    act_on_waveform-StopsIdle now r (check_waveform now r' ev mode hold_ms dtms) ev t h hold_ms
      λ open_yet. inr (
        subst (Waits now r.current_keymap) (sym same) (record {
          pressed = p;
          on_tap = t;
          on_hold = h;
          mode = mode;
          hold_ms = hold_ms;
          double_tap_ms = dtms;
          action = e;
          in_time = check_waveform-in_time now r' ev mode hold_ms dtms open_yet;
        }))

resolve_press-StopsIdle :
    (now : Timeval) (r : Resolver) (ev : InputEvent)
    → ur_at r 0 ≡ ev
    → (is_key ev && value_is ev 1) ≡ true
    → StopsIdle now r (resolve_press now r ev)
unfolding resolve_press
resolve_press-StopsIdle now r ev same p = looked_up (key_action_get r.current_keymap ev.code) refl
  where
    looked_up :
        (m : Outcome KeyAction)
        → key_action_get r.current_keymap ev.code ≡ m
        → StopsIdle now r
            (m >>= λ ka. resolve_action now (maybe_invalidate_last_tap r ev.code) ev ka)
    looked_up (ok ka) e =
        resolve_action-StopsIdle now r (maybe_invalidate_last_tap r ev.code) ev ka same p e
    looked_up (halt h) e = tt

resolve_release-StopsIdle :
    (now : Timeval) (r s : Resolver) (ev : InputEvent) → StopsIdle now r (resolve_release s ev)
unfolding resolve_release
resolve_release-StopsIdle now r s ev = ground arith

resolve_repeat-StopsIdle :
    (now : Timeval) (r s : Resolver) (ev : InputEvent) → StopsIdle now r (resolve_repeat s ev)
unfolding resolve_repeat
resolve_repeat-StopsIdle now r s ev = ground arith

resolve_oldest-StopsIdle :
    (now : Timeval) (r : Resolver) (ev : InputEvent)
    → ur_at r 0 ≡ ev
    → StopsIdle now r (resolve_oldest now r ev)
unfolding resolve_oldest
resolve_oldest-StopsIdle now r ev same =
    if-cases P (is_key ev) _ _
      (λ key.
        if-cases P (ltb key_max ev.code) _ _ (λ _. tt)
          λ _.
            if-cases P (value_is ev 0) _ _ (λ _. resolve_release-StopsIdle now r r ev)
              λ _.
                if-cases P (value_is ev 1) _ _
                  (λ press. resolve_press-StopsIdle now r ev same (rw (key, press) refl))
                  λ _.
                    if-cases P (value_is ev 2) _ _ (λ _. resolve_repeat-StopsIdle now r r ev)
                      (λ _. tt))
      (λ _. tt)
  where
    P : Resolved → Type 0
    P = StopsIdle now r

finish_resolve-StopsIdle :
    (now : Timeval) (r : Resolver) (m : Resolved)
    → StopsIdle now r m
    → StopsIdle now r (m >>= λ res. ok (finish_resolve res))
unfolding finish_resolve
finish_resolve-StopsIdle now r (ok (true, r', sent)) v = tt
finish_resolve-StopsIdle now r (ok (false, r', sent)) v = v
finish_resolve-StopsIdle now r (halt h) v = tt

pub resolve-StopsIdle : (now : Timeval) (r : Resolver) → StopsIdle now r (resolve now r)
unfolding resolve
resolve-StopsIdle now r =
    if-cases (StopsIdle now r) (r.ur_len == 0) _ _ (λ empty. inl (ground arith))
      λ some_wait.
        finish_resolve-StopsIdle now r _
          (resolve_oldest-StopsIdle now (record r { use_resolvable_time = false }) (ur_at r 0) refl)
