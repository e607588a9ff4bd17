-- ===== src/Examples/Resolving.antt =====
-- The resolver at work.
use keytap.Base.{
  ℕ, ◌+◌, ◌-◌, pos, ltb_ℤ, true, false, ok, halt, Outcome, refl, arith, ◌≡◌, ◌<◌, ◌≢◌, update, List,
  [], ◌∷◌, quot, ◌≤ℤ◌, ◌+ℤ◌, pos_part, some, ◌*◌,
}
use keytap.TimeUtil.{msec_diff, msec_after}
use keytap.Resolver.Tapping.{Taps}
use keytap.ServeLoop.Tapping.{drain_tap}
use keytap.ServeLoop.Deadline.{exit_time, time_till_exit, time_till_exit-left}
use keytap.TimeUtil.{Timeval}
use keytap.TimeUtil.Laws.{at, usec_between, msec_after_early}
use keytap.Input.{key_press, key_release, syn_ev}
use keytap.KeyAction.{map, simple, DualMode, tap_on_rollover, timeout_only}
use keytap.Resolver.{urmax, Resolver, event_zero, resolver_init}
use keytap.Resolver.Waveforms.{check_waveform}
use keytap.Resolver.Steps.{resolve}
use keytap.ServeLoop.{drain}
use keytap.Resolver.Release.{WaitsForTimeout, timeout_only_release}
use keytap.Resolver.Decision.{Verdict, behind, check_waveform-Verdict}
use keytap.Config.Fill.{fill_map}
use keytap.Examples.{at_ms, caps_waits, caps_cells}

-- Caps lock goes down, then key 30 goes down and up.
abbrev rolled : DualMode → Resolver
rolled mode = record (caps_waits mode) {
  unresolved =
      update
        (update (update (λ _. event_zero) 0 (key_press 58 (at_ms 0))) 1 (key_press 30 (at_ms 9))) 2
        (key_release 30 (at_ms 20));
  ur_len = 3;
}

still_early : ltb_ℤ (pos 200) (msec_diff (at_ms 30) (at_ms 0)) ≡ false
unfolding msec_diff quot ◌+ℤ◌ keytap.Base.◌-ℤ◌ keytap.Base.◌*ℤ◌
still_early = refl

check_waveform-Verdict_example :
    Verdict tap_on_rollover 58
      (behind (rolled tap_on_rollover))
      (check_waveform
        (at_ms 30)
        (rolled tap_on_rollover)
        (key_press 58 (at_ms 0))
        tap_on_rollover
        (pos 200)
        (pos 300)).0
check_waveform-Verdict_example =
    check_waveform-Verdict (at_ms 30) (rolled tap_on_rollover) (key_press 58 (at_ms 0))
      tap_on_rollover (pos 200) (pos 300) still_early refl

-- Caps lock goes down and up, in a mode that only looks at the time.
abbrev tapped : Resolver
tapped = record (caps_waits timeout_only) {
  unresolved =
      update (update (λ _. event_zero) 0 (key_press 58 (at_ms 0))) 1 (key_release 58 (at_ms 20));
  ur_len = 2;
}

tapped-Waits : WaitsForTimeout (at_ms 30) tapped
unfolding resolver_init fill_map
tapped-Waits = record {
  some_wait = omega arith;
  key = refl;
  down = refl;
  in_range = omega arith;
  cells = _;
  keymap = refl;
  tap_action = simple 1;
  hold_action = simple 29;
  hold_ms = pos 200;
  double_tap_ms = pos 300;
  cell = refl;
  early = still_early;
}

tapped-unresolved : tapped.release_map 58 ≡ 0
unfolding resolver_init
tapped-unresolved = refl

timeout_only_release_example :
    (r' : Resolver) × (resolve (at_ms 30) tapped
      ≡ ok (false, r', record (key_release 58 (at_ms 20)) { code = 0 } ∷ syn_ev ∷ []))
    × (r'.ur_len ≡ 1)
unfolding resolver_init
timeout_only_release_example =
    timeout_only_release (at_ms 30) tapped tapped-Waits refl (omega arith) tapped-unresolved

msec_after_early_example :
    msec_diff (msec_after (at (pos 7) 800000) (pos 200)) (at (pos 7) 800000) +ℤ pos 1000 ≡ pos 200
msec_after_early_example = msec_after_early (pos 7) 800000 200 (omega arith)

time_till_exit-left_example :
    (d : Timeval) × (time_till_exit (exit_time (pos 2) (at (pos 7) 5)) (at (pos 8) 999999) ≡ some d)
    × (usec_between d (at (pos 0) 0)
        ≡ usec_between (at (pos 7) 5) (at (pos 8) 999999) +ℤ pos (2 * 1000000))
    × (pos 0 ≤ℤ d.tv_usec)
    × (pos_part d.tv_usec < 1000000)
time_till_exit-left_example =
    time_till_exit-left 2 (pos 7) (pos 8) 5 999999 (omega arith) (omega arith) (omega arith)
      (omega arith)

-- Caps lock was pressed, and released five milliseconds later.
abbrev tap_waits : Resolver
tap_waits = record (resolver_init (map (caps_cells tap_on_rollover))) {
  unresolved =
      update (update (λ _. event_zero) 0 (key_press 58 (at_ms 0))) 1 (key_release 58 (at_ms 5));
  ur_len = 2;
}

tap_waits-Taps :
    Taps tap_waits 58 1
      (at_ms 0)
      (at_ms 5)
      (caps_cells tap_on_rollover)
      (simple 29)
      tap_on_rollover
      (pos 200)
      (pos 300)
unfolding resolver_init
tap_waits-Taps = record {
  two = refl;
  press = refl;
  release = refl;
  current = refl;
  cell = refl;
  code_in = omega arith;
}

tap_in_time : ltb_ℤ (pos 200) (msec_diff (at_ms 30) (at_ms 0)) ≡ false
unfolding msec_diff quot ◌+ℤ◌ keytap.Base.◌-ℤ◌ keytap.Base.◌*ℤ◌
tap_in_time = refl

drain_tap_example :
    (r' : Resolver) × (drain (urmax + 1) (λ k. at_ms (k + 30)) tap_waits
      ≡ ok (some (r', key_press 1 (at_ms 0) ∷ key_release 1 (at_ms 5) ∷ [])))
    × (r'.ur_len ≡ 0)
    × (r'.release_map 58 ≡ 0)
drain_tap_example =
    drain_tap tap_waits 58 1 (at_ms 0) (at_ms 5) (caps_cells tap_on_rollover) (simple 29)
      tap_on_rollover (pos 200) (pos 300) (λ k. at_ms (k + 30)) tap_waits-Taps tap_in_time refl
      (λ e. omega (arith, e)) (omega arith)
