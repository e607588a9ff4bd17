-- ===== src/ServeLoop/Tapping.antt =====
-- The inner loop on a dual-mode key that was pressed and released within its hold time, with nothing between.
use keytap.Base.{
  ℕ, suc, ◌+◌, ◌<◌, ◌≡◌, ◌≢◌, refl, ℤ, false, [], ◌∷◌, ok, ltb_ℤ, some, update_self, update,
}
use keytap.TimeUtil.{Timeval, msec_diff}
use keytap.Input.{key_max, key_press, key_release}
use keytap.KeyAction.{KeyAction, DualMode}
use keytap.Resolver.{Resolver, urmax}
use keytap.Resolver.Waveforms.{is_timeout_only}
use keytap.Resolver.Tapping.{Taps, after_release, tap_press, tap_release, nothing_left}
use keytap.ServeLoop.{drain}

module _ (r : Resolver) (c t : ℕ) (p q : Timeval) (m : ℕ → KeyAction) (h : KeyAction)
    (mode : DualMode) (hold_ms dtms : ℤ) where
  drain_three :
      (fuel : ℕ) (clock : ℕ → Timeval)
      → Taps r c t p q m h mode hold_ms dtms
      → ltb_ℤ hold_ms (msec_diff (clock 0) p) ≡ false
      → is_timeout_only mode ≡ false
      → t ≢ 0
      → t < key_max
      → drain (suc (suc (suc fuel))) clock r
        ≡ ok (
            some
              (after_release r c t p q m h mode hold_ms dtms, key_press t p ∷ key_release t q ∷ []))
  unfolding drain
  drain_three fuel clock x early scans nonzero small =
      rw (tap_press r c t p q m h mode hold_ms dtms (clock 0) x early scans) (
        rw (tap_release r c t p q m h mode hold_ms dtms (clock (0 + 1)) x nonzero small)
          (rw (nothing_left r c t p q m h mode hold_ms dtms (clock (0 + 1 + 1))) refl))

  -- Where a dual-mode key that is not of the mode `timeout_only` was pressed and released, and these two events are
  -- all that waits, and at the first reading of the clock the hold time has not passed since the press: the inner loop empties the queue, and sends the press of the
  -- key that stands as its tap, with the time of the press, and the release of it, with that of the release.
  -- The tap is a key other than 0 and below `key_max`, and the code of the key that was pressed is below `key_max`.
  pub drain_tap :
      (clock : ℕ → Timeval)
      → Taps r c t p q m h mode hold_ms dtms
      → ltb_ℤ hold_ms (msec_diff (clock 0) p) ≡ false
      → is_timeout_only mode ≡ false
      → t ≢ 0
      → t < key_max
      → (r' : Resolver) × (drain (urmax + 1) clock r
          ≡ ok (some (r', key_press t p ∷ key_release t q ∷ [])))
        × (r'.ur_len ≡ 0)
        × (r'.release_map c ≡ 0)
  drain_tap clock x early scans nonzero small = (
    after_release r c t p q m h mode hold_ms dtms,
    drain_three 1022 clock x early scans nonzero small,
    refl,
    update_self (update r.release_map c t) c 0,
  )
