-- ===== src/Resolver/Tapping.antt =====
-- A dual-mode key that is pressed and released within its hold time, with nothing between.
use keytap.Base.{
  ℕ, ◌+◌, ◌%◌, ◌<◌, ◌≡◌, ◌≢◌, refl, arith, ℤ, pos, true, false, [], ◌∷◌, ok, update, ltb_ℤ, ◌==◌,
  lt→ltb, le→ltb, ==_refl, ap, ◌∙◌,
}
use keytap.TimeUtil.{Timeval, msec_diff}
use keytap.Input.{key_max, key_press, key_release}
use keytap.KeyAction.{KeyAction, DualMode, simple, dual, map, key_action_get}
use keytap.Resolver.{Resolver, urmax, ur_at, reset_keymap}
use keytap.Resolver.Waveforms.{is_timeout_only, check_waveform, scan_waveform, scan_body}
use keytap.Resolver.Steps.{
  do_keypress, act_on_waveform, resolve_action, resolve_press, resolve_release, resolve_oldest,
  finish_resolve, resolve,
}

module _ (r : Resolver) (c t : ℕ) (p q : Timeval) (m : ℕ → KeyAction) (h : KeyAction)
    (mode : DualMode) (hold_ms dtms : ℤ) where
  -- The press and the release are all that waits, and the keymap says that the key is dual.
  pub record Taps : Type 0 where
    pub two : r.ur_len ≡ 2
    pub press : ur_at r 0 ≡ key_press c p
    pub release : ur_at r 1 ≡ key_release c q
    pub current : r.current_keymap ≡ map m
    pub cell : m c ≡ dual (simple t) h mode hold_ms dtms
    pub code_in : c < key_max

  abbrev pub after_press : Resolver
  after_press = record r {
    use_resolvable_time = false;
    last_tap_code = pos c;
    last_tap_time = q;
    release_map = update r.release_map c t;
    ur_len = 1;
    ur_start = (r.ur_start + 1) % urmax;
  }

  pub tap_press :
      (now : Timeval)
      → Taps
      → ltb_ℤ hold_ms (msec_diff now p) ≡ false
      → is_timeout_only mode ≡ false
      → resolve now r ≡ ok (true, after_press, key_press t p ∷ [])
  unfolding resolve resolve_oldest resolve_press key_action_get resolve_action act_on_waveform
      check_waveform scan_waveform scan_body do_keypress finish_resolve
  tap_press now x early scans = rw x.two (
      rw x.press (
        rw (le→ltb key_max c (omega (arith, x.code_in))) (
          rw x.current (
            rw (lt→ltb c key_max x.code_in) (
              rw x.cell (
                rw early (
                  rw scans
                    (rw x.release (rw (==_refl c) (rw (lt→ltb c key_max x.code_in) refl))))))))))

  abbrev pub after_release : Resolver
  after_release = record after_press {
    release_map = update (update r.release_map c t) c 0;
    ur_len = 0;
    ur_start = ((r.ur_start + 1) % urmax + 1) % urmax;
  }

  next_event : Taps → ur_at after_press 0 ≡ key_release c q
  next_event x = ap r.unresolved same ∙ x.release
    where
      same : ((r.ur_start + 1) % urmax + 0) % urmax ≡ (r.ur_start + 1) % urmax
      same = omega arith

  pub tap_release :
      (now : Timeval)
      → Taps
      → t ≢ 0
      → t < key_max
      → resolve now after_press ≡ ok (true, after_release, key_release t q ∷ [])
  unfolding resolve resolve_oldest resolve_release finish_resolve
  tap_release now x nonzero small = rw (next_event x) (
      rw (le→ltb key_max c (omega (arith, x.code_in)))
        (rw (lt→ltb c key_max x.code_in) (rw (==_refl c) (rw not_reset (rw not_zero refl)))))
    where
      not_reset : (t == reset_keymap) ≡ false
      not_reset = ground arith

      not_zero : (t == 0) ≡ false
      not_zero = ground arith

  pub nothing_left : (now : Timeval) → resolve now after_release ≡ ok (false, after_release, [])
  unfolding resolve
  nothing_left now = refl
