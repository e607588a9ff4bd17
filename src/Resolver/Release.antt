-- ===== src/Resolver/Release.antt =====
-- Presses and their releases: what a key sends when it is released, and what a queue that waits in
-- `timeout_only` mode does to releases.
use keytap.Base.{
  ==_refl, le→ltb, ℕ, ◌-◌, ◌<◌, ◌≡◌, ◌≢◌, refl, arith, ℤ, true, false, ok, ◌>>=◌, [], ◌∷◌, update,
  lt→ltb, ltb_ℤ, ◌==◌,
}
use keytap.TimeUtil.{Timeval, msec_diff, msec_after}
use keytap.Input.{InputEvent, is_key, value_is, key_max, syn_ev, key_release}
use keytap.KeyAction.{key_action_get, KeyAction, simple, dual, map, timeout_only}
use keytap.Resolver.{Resolver, reset_keymap, ur_at, maybe_invalidate_last_tap}
use keytap.Resolver.Waveforms.{check_waveform}
use keytap.Resolver.Steps.{
  Resolved, resolve_press, resolve_release, do_keypress, resolve_action, resolve, release_early,
  finish_resolve, resolve_oldest, act_on_waveform,
}

-- The release of key `x` with the press done by `ka`, from the resolver that the press left.
abbrev pub press_then_release : Resolver → InputEvent → KeyAction → Timeval → Resolved
press_then_release r ev ka t =
    do_keypress r ev ka >>= (λ x. resolve_release x.0 (key_release ev.code t))

-- The press of a key below `key_max` as the key `c`, with `c` not 0 and below `key_max`, and its release: the
-- release sends the release of `c`, and the key is no longer held.
pub simple_release :
    (r : Resolver) (ev : InputEvent) (c : ℕ) (t : Timeval)
    → ev.code < key_max
    → c ≢ 0
    → c < key_max
    → press_then_release r ev (simple c) t
      ≡ ok (
        true,
        record r { release_map = update (update r.release_map ev.code c) ev.code 0 },
        key_release c t ∷ [],
      )
unfolding do_keypress resolve_release
simple_release r ev c t lt ne small = rw (lt→ltb _ _ lt, ==_refl ev.code, not_reset, not_zero)
  where
    not_reset : (c == reset_keymap) ≡ false
    not_reset = ground arith

    not_zero : (c == 0) ≡ false
    not_zero = ground arith

-- The press of a key below `key_max` that exposes a keymap, and its release: the release sends nothing, and
-- goes back to the root keymap.
pub map_release :
    (r : Resolver) (ev : InputEvent) (m : ℕ → KeyAction) (t : Timeval)
    → ev.code < key_max
    → press_then_release r ev (map m) t
      ≡ ok (
        true,
        record r {
          release_map = update (update r.release_map ev.code reset_keymap) ev.code 0;
          current_keymap = r.root_keymap;
        },
        [],
      )
unfolding do_keypress resolve_release
map_release r ev m t lt = rw (lt→ltb _ _ lt, ==_refl ev.code)

-- A press of a dual-mode key in `timeout_only` mode stays open until its hold time has passed.
timeout_only-waits :
    (now : Timeval) (r : Resolver) (ev : InputEvent) (t h : KeyAction) (hold_ms dtms : ℤ)
    → ltb_ℤ hold_ms (msec_diff now ev.time) ≡ false
    → act_on_waveform (check_waveform now r ev timeout_only hold_ms dtms) ev t h hold_ms
      ≡ ok (
        false,
        record r { resolvable_time = msec_after ev.time hold_ms; use_resolvable_time = true },
        [],
      )
unfolding act_on_waveform check_waveform
timeout_only-waits now r ev t h hold_ms dtms early = rw early

-- The oldest event is the press of a dual-mode key in `timeout_only` mode.
pub record WaitsForTimeout (now : Timeval) (r : Resolver) : Type 0 where
  pub some_wait : r.ur_len ≢ 0
  pub key : is_key (ur_at r 0) ≡ true
  pub down : value_is (ur_at r 0) 1 ≡ true
  pub in_range : (ur_at r 0).code < key_max
  pub cells : ℕ → KeyAction
  pub keymap : r.current_keymap ≡ map cells
  pub tap_action : KeyAction
  pub hold_action : KeyAction
  pub hold_ms : ℤ
  pub double_tap_ms : ℤ
  pub cell : cells (ur_at r 0).code ≡ dual tap_action hold_action timeout_only hold_ms double_tap_ms
  pub early : ltb_ℤ hold_ms (msec_diff now (ur_at r 0).time) ≡ false

-- The resolver while it waits.
abbrev pub waiting : Resolver → ℤ → Resolver
waiting r hold_ms = record (maybe_invalidate_last_tap r (ur_at r 0).code) {
  resolvable_time = msec_after (ur_at r 0).time hold_ms;
  use_resolvable_time = true;
}

resolve_oldest-waits :
    (now : Timeval) (r : Resolver) (w : WaitsForTimeout now r)
    → resolve_oldest now (record r { use_resolvable_time = false }) (ur_at r 0)
      ≡ ok (false, waiting r w.hold_ms, [])
unfolding resolve_oldest resolve_press key_action_get resolve_action
resolve_oldest-waits now r w =
    rw (w.key, le→ltb key_max (ur_at r 0).code (omega (arith, w.in_range)), not_up)
      (rw (w.down, w.keymap, lt→ltb _ _ w.in_range, w.cell)
        (timeout_only-waits now _ (ur_at r 0) w.tap_action w.hold_action w.hold_ms w.double_tap_ms
          w.early))
  where
    not_up : value_is (ur_at r 0) 0 ≡ false
    not_up = ground (arith, w.down)

-- While the press of a dual-mode key waits in `timeout_only` mode, and the newest event is the release of a
-- key below `key_max` with no press resolved, the waiting key itself for one, `resolve` takes that release
-- off the queue, and sends a release of the key code 0 and an EV_SYN in its place.
pub timeout_only_release :
    (now : Timeval) (r : Resolver)
    → WaitsForTimeout now r
    → value_is (ur_at r (r.ur_len - 1)) 0 ≡ true
    → (ur_at r (r.ur_len - 1)).code < key_max
    → r.release_map (ur_at r (r.ur_len - 1)).code ≡ 0
    → (r' : Resolver) × (resolve now r
        ≡ ok (false, r', record (ur_at r (r.ur_len - 1)) { code = 0 } ∷ syn_ev ∷ []))
      × (r'.ur_len ≡ r.ur_len - 1)
unfolding resolve finish_resolve release_early
timeout_only_release now r w up lt unresolved = (
  record (waiting r w.hold_ms) { ur_len = r.ur_len - 1 },
  rw (some, resolve_oldest-waits now r w, release_early) (rw (up, lt→ltb _ _ lt, unresolved)),
  refl,
)
  where
    some : (r.ur_len == 0) ≡ false
    some = ground (arith, w.some_wait)
