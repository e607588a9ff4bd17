-- ===== src/Resolver/Steps.antt =====
-- resolver.c, `do_keypress` and `resolve` with its parts.
use keytap.Base.{
  ℕ, ◌+◌, ◌-◌, ◌%◌, ℤ, pos, Bool, true, false, not, ◌&&◌, ◌||◌, List, [], ◌∷◌, load, store, Outcome,
  ok, halt, exit_with, ◌>>=◌, ltb, ◌==◌, if◌then◌else◌, ◌++◌,
}
use keytap.TimeUtil.{Timeval, msec_after}
use keytap.Input.{InputEvent, ev_key, key_max, value_is, is_key, time_zero, syn_ev}
use keytap.KeyAction.{KeyAction, none, ref, simple, macro, dual, map, KeyMacro, key_action_get}
use keytap.Resolver.{Resolver, maybe_invalidate_last_tap, reset_keymap, ur_at, urmax}
use keytap.Resolver.Waveforms.{Waveform, check_waveform, hold, none_yet, tap}

-- The events that a chain of macros sends.
unfoldable pub macro_events : List KeyMacro → List InputEvent
macro_events [] = []
macro_events (m ∷ ms) =
    record {
      time = time_zero;
      type = ev_key;
      code = m.code;
      value = pos (if m.press then 1 else 0);
    }
    ∷ syn_ev
    ∷ macro_events ms

unfoldable pub do_keypress :
    Resolver → InputEvent → KeyAction → Outcome (Resolver × List InputEvent)
unfolding macro_events
do_keypress r ev (dual t h mode hold_ms dtms) = halt (exit_with 1)
do_keypress r ev none = halt (exit_with 1)
do_keypress r ev (ref ka) = halt (exit_with 1)
do_keypress r ev (simple c) = do
  release_map ← store key_max r.release_map ev.code c
  ok (record r { release_map = release_map }, record ev { code = c } ∷ [])
do_keypress r ev (macro m) = ok (r, macro_events m)
do_keypress r ev (map m) = do
  release_map ← store key_max r.release_map ev.code reset_keymap
  ok (record r { current_keymap = map m; release_map = release_map }, [])

-- The flag says that the event is resolved.
abbrev pub Resolved : Type 0
Resolved = Outcome (Bool × Resolver × List InputEvent)

abbrev pub resolved_by : Outcome (Resolver × List InputEvent) → Resolved
resolved_by m = do (r, sent) ← m; ok (true, r, sent)

-- What `resolve_press` does with the waveform of a dual-mode key.
unfoldable pub act_on_waveform :
    Waveform × Resolver → InputEvent → KeyAction → KeyAction → ℤ → Resolved
unfolding do_keypress
act_on_waveform (tap, r) ev t h hold_ms = resolved_by (do_keypress r ev t)
act_on_waveform (hold, r) ev t h hold_ms = resolved_by (do_keypress r ev h)
act_on_waveform (none_yet, r) ev t h hold_ms = ok (
  false,
  record r { resolvable_time = msec_after ev.time hold_ms; use_resolvable_time = true },
  [],
)

-- `resolve_press` on the action that the current keymap gives.
unfoldable pub resolve_action : Timeval → Resolver → InputEvent → KeyAction → Resolved
unfolding do_keypress check_waveform act_on_waveform
resolve_action now r ev none = halt (exit_with 1)
resolve_action now r ev (ref ka) = halt (exit_with 1)
resolve_action now r ev (simple c) = resolved_by (do_keypress r ev (simple c))
resolve_action now r ev (macro m) = resolved_by (do_keypress r ev (macro m))
resolve_action now r ev (map m) = resolved_by (do_keypress r ev (map m))
resolve_action now r ev (dual t h mode hold_ms dtms) =
    act_on_waveform (check_waveform now r ev mode hold_ms dtms) ev t h hold_ms

unfoldable pub resolve_press : Timeval → Resolver → InputEvent → Resolved
unfolding resolve_action key_action_get
resolve_press now r ev = do
  ka ← key_action_get r.current_keymap ev.code
  resolve_action now (maybe_invalidate_last_tap r ev.code) ev ka

unfoldable pub resolve_release : Resolver → InputEvent → Resolved
resolve_release r ev = do
  code ← load key_max r.release_map ev.code
  release_map ← store key_max r.release_map ev.code 0
  let r' = record r { release_map = release_map }
  if code == reset_keymap
      then ok (true, record r' { current_keymap = r'.root_keymap }, [])
      else if code == 0
      then ok (true, r', [])
      else ok (true, r', record ev { code = code } ∷ [])

unfoldable pub resolve_repeat : Resolver → InputEvent → Resolved
resolve_repeat r ev = do
  code ← load key_max r.release_map ev.code
  ok (
    true,
    r,
    (if not (code == 0) && not (code == reset_keymap) then record ev { code = code } ∷ [] else []),
  )

-- The first part of `resolve`: what happens to the oldest event.
unfoldable pub resolve_oldest : Timeval → Resolver → InputEvent → Resolved
unfolding resolve_press resolve_release resolve_repeat
resolve_oldest now r ev =
    if is_key ev
    then (if ltb key_max ev.code
        then ok (true, r, [])
        else if value_is ev 0
        then resolve_release r ev
        else if value_is ev 1
        then resolve_press now r ev
        else if value_is ev 2
        then resolve_repeat r ev
        else ok (true, r, []))
    else ok (true, r, ev ∷ [])

abbrev pub is_modifier : ℕ → Bool
is_modifier c =
    c == 56 || c == 100 || c == 29 || c == 97 || c == 125 || c == 126 || c == 42 || c == 54

-- The oldest event stays: a release that is the newest event is sent at once.
unfoldable pub release_early : Resolver → InputEvent → Resolver × List InputEvent
release_early r ev =
    if value_is ev 0 && ltb ev.code key_max
    then (let code = r.release_map ev.code in
        if code == reset_keymap
        then (record r { current_keymap = r.root_keymap; ur_len = r.ur_len - 1 }, [])
        else if is_modifier code
        then (r, [])
        else (record r { ur_len = r.ur_len - 1 }, record ev { code = code } ∷ syn_ev ∷ []))
    else (r, [])

-- `resolve` on the result for the oldest event.
unfoldable pub finish_resolve :
    Bool × Resolver × List InputEvent → Bool × Resolver × List InputEvent
unfolding release_early
finish_resolve (true, r, sent) =
    (true, record r { ur_len = r.ur_len - 1; ur_start = (r.ur_start + 1) % urmax }, sent)
finish_resolve (false, r, sent) =
    let (r', early) = release_early r (ur_at r (r.ur_len - 1)) in (false, r', sent ++ early)

unfoldable pub resolve : Timeval → Resolver → Resolved
unfolding resolve_oldest finish_resolve
resolve now r = if r.ur_len == 0 then ok (false, r, []) else (do
  res ← resolve_oldest now (record r { use_resolvable_time = false }) (ur_at r 0)
  ok (finish_resolve res))
