-- ===== src/Resolver/Returns.antt =====
-- `resolve` returns: it does not stop the program where the resolver is ready and the oldest event is in
-- range, and what it leaves is ready again.
use keytap.Base.{
  All-append, if-cases, not, ◌&&◌, ℕ, ℤ, ◌-◌, ◌<◌, ◌≡◌, ◌≢◌, arith, true, false, List, ok, halt,
  ◌>>=◌, All, update, lt→ltb, ltb, ◌==◌,
}
use keytap.TimeUtil.{Timeval}
use keytap.Input.{InputEvent, is_key, value_is, key_max}
use keytap.KeyAction.{KeyAction, none, ref, simple, macro, dual, map, key_action_get}
use keytap.Resolver.{Resolver, reset_keymap, ur_at, maybe_invalidate_last_tap}
use keytap.Resolver.Waveforms.{Waveform, tap, hold, none_yet, check_waveform}
use keytap.Resolver.Steps.{
  is_modifier, Resolved, act_on_waveform, resolve_action, resolve_press, resolve_release,
  resolve_repeat, resolve_oldest, resolve, finish_resolve, release_early,
}
use keytap.Resolver.Frame.{check_waveform-OnlyLastTap}
use keytap.Resolver.Safety.{
  NotDual, IsAction, IsKeymap, InRange, IsReady, ReadyAfter, OnlyLastTap-IsReady,
  do_keypress-ReadyAfter,
}

act_on_waveform-ReadyAfter :
    (w : Waveform × Resolver) (ev : InputEvent) (t h : KeyAction) (hold_ms : ℤ)
    → IsReady w.1
    → ev.code < key_max
    → IsAction t × NotDual t × IsAction h × NotDual h
    → ReadyAfter (act_on_waveform w ev t h hold_ms)
unfolding act_on_waveform
act_on_waveform-ReadyAfter (tap, r) ev t h hold_ms v lt a =
    do_keypress-ReadyAfter r ev t v lt a.0 a.1
act_on_waveform-ReadyAfter (hold, r) ev t h hold_ms v lt a =
    do_keypress-ReadyAfter r ev h v lt a.2 a.3
act_on_waveform-ReadyAfter (none_yet, r) ev t h hold_ms v lt a =
    (record { root = v.root; current = v.current; releases = v.releases }, tt)

resolve_action-ReadyAfter :
    (now : Timeval) (r : Resolver) (ev : InputEvent) (ka : KeyAction)
    → IsReady r
    → ev.code < key_max
    → IsAction ka
    → ReadyAfter (resolve_action now r ev ka)
unfolding resolve_action
resolve_action-ReadyAfter now r ev none v lt a = a
resolve_action-ReadyAfter now r ev (ref ka) v lt a = a
resolve_action-ReadyAfter now r ev (simple c) v lt a =
    do_keypress-ReadyAfter r ev (simple c) v lt a tt
resolve_action-ReadyAfter now r ev (macro m) v lt a =
    do_keypress-ReadyAfter r ev (macro m) v lt a tt
resolve_action-ReadyAfter now r ev (map m) v lt a = do_keypress-ReadyAfter r ev (map m) v lt a tt
resolve_action-ReadyAfter now r ev (dual t h mode hold_ms dtms) v lt a =
    act_on_waveform-ReadyAfter (check_waveform now r ev mode hold_ms dtms) ev t h hold_ms
      (OnlyLastTap-IsReady (check_waveform-OnlyLastTap now r ev mode hold_ms dtms) v) lt a

-- A keymap gives an action for every key in range.
get-IsAction :
    (ka : KeyAction) (i : ℕ)
    → IsKeymap ka
    → i < key_max
    → (a : KeyAction) × (key_action_get ka i ≡ ok a) × IsAction a
unfolding key_action_get
get-IsAction (map m) i k lt = (m i, rw (lt→ltb _ _ lt), k i lt)
get-IsAction none i k lt = absurd k
get-IsAction (ref ka) i k lt = absurd k
get-IsAction (simple c) i k lt = absurd k
get-IsAction (macro m) i k lt = absurd k
get-IsAction (dual t h mode hold_ms dtms) i k lt = absurd k

resolve_press-ReadyAfter :
    (now : Timeval) (r : Resolver) (ev : InputEvent)
    → IsReady r
    → ev.code < key_max
    → ReadyAfter (resolve_press now r ev)
unfolding resolve_press
resolve_press-ReadyAfter now r ev v lt =
    let (a, e, p) = get-IsAction r.current_keymap ev.code v.current lt in
    rw e (
      resolve_action-ReadyAfter now (maybe_invalidate_last_tap r ev.code) ev a
        (record { root = v.root; current = v.current; releases = v.releases }) lt p)

resolve_release-ReadyAfter :
    (r : Resolver) (ev : InputEvent)
    → IsReady r
    → ev.code < key_max
    → ReadyAfter (resolve_release r ev)
unfolding resolve_release
resolve_release-ReadyAfter r ev v lt = rw (lt→ltb _ _ lt) (
    if-cases ReadyAfter (r.release_map ev.code == reset_keymap) _ _ (λ reset. (cleared v.root, tt))
      λ kept.
        if-cases ReadyAfter (r.release_map ev.code == 0) _ _ (λ gone. (cleared v.current, tt))
          λ sent. (cleared v.current, ((λ k. ground (arith, v.releases ev.code lt)), tt)))
  where
    cleared :
        {k : KeyAction}
        → IsKeymap k
        → IsReady (record r { release_map = update r.release_map ev.code 0; current_keymap = k })
    cleared c = record {
      root = v.root;
      current = c;
      releases = λ i l. ground (arith, v.releases i);
    }

resolve_repeat-ReadyAfter :
    (r : Resolver) (ev : InputEvent)
    → IsReady r
    → ev.code < key_max
    → ReadyAfter (resolve_repeat r ev)
unfolding resolve_repeat
resolve_repeat-ReadyAfter r ev v lt = rw (lt→ltb _ _ lt) (
  v,
  if-cases (All InRange)
      (not (r.release_map ev.code == 0) && not (r.release_map ev.code == reset_keymap)) _ _
      (λ sent. ((λ k. ground (arith, v.releases ev.code lt)), tt)) (λ gone. tt),
)

resolve_oldest-ReadyAfter :
    (now : Timeval) (r : Resolver) (ev : InputEvent)
    → IsReady r
    → InRange ev
    → ReadyAfter (resolve_oldest now r ev)
unfolding resolve_oldest
resolve_oldest-ReadyAfter now r ev v range =
    if-cases ReadyAfter (is_key ev) _ _
      (λ key.
        if-cases ReadyAfter (ltb key_max ev.code) _ _ (λ high. (v, tt))
          λ low.
            let lt : ev.code < key_max = inside (range key) low in
            if-cases ReadyAfter (value_is ev 0) _ _ (λ up. resolve_release-ReadyAfter r ev v lt)
              λ n0.
                if-cases ReadyAfter (value_is ev 1) _ _
                  (λ down. resolve_press-ReadyAfter now r ev v lt)
                  λ n1.
                    if-cases ReadyAfter (value_is ev 2) _ _
                      (λ again. resolve_repeat-ReadyAfter r ev v lt) λ n2. (v, tt))
      (λ other. (v, (range, tt)))
  where
    inside : {c : ℕ} → c ≢ key_max → ltb key_max c ≡ false → c < key_max
    inside n h = ground arith

release_early-ReadyAfter :
    (r : Resolver) (ev : InputEvent)
    → IsReady r
    → IsReady (release_early r ev).0 × All InRange (release_early r ev).1
unfolding release_early
release_early-ReadyAfter r ev v =
    if-cases P (value_is ev 0 && ltb ev.code key_max) _ _
      (λ fits.
        if-cases P (r.release_map ev.code == reset_keymap) _ _
          (λ reset. (record { root = v.root; current = v.root; releases = v.releases }, tt))
          λ kept.
            if-cases P (is_modifier (r.release_map ev.code)) _ _ (λ modifier. (v, tt))
              λ plain. (
                record { root = v.root; current = v.current; releases = v.releases },
                ((λ k. ground (arith, v.releases ev.code)), ((λ k. cc), tt)),
              ))
      (λ other. (v, tt))
  where
    P : Resolver × List InputEvent → Type 0
    P x = IsReady x.0 × All InRange x.1

finish_resolve-ReadyAfter :
    (m : Resolved) → ReadyAfter m → ReadyAfter (m >>= (λ res. ok (finish_resolve res)))
unfolding finish_resolve
finish_resolve-ReadyAfter (ok (true, r, sent)) (v, s) =
    (record { root = v.root; current = v.current; releases = v.releases }, s)
finish_resolve-ReadyAfter (ok (false, r, sent)) (v, s) =
    let (v', s') = release_early-ReadyAfter r (ur_at r (r.ur_len - 1)) v in
    (v', All-append InRange sent _ s s')
finish_resolve-ReadyAfter (halt h) v = v

-- A ready resolver whose oldest event, if there is one, is in range: `resolve` returns, to a ready resolver, and every
-- event that it sends is in range.
pub resolve-ReadyAfter :
    (now : Timeval) (r : Resolver)
    → IsReady r
    → (r.ur_len ≢ 0 → InRange (ur_at r 0))
    → ReadyAfter (resolve now r)
unfolding resolve
resolve-ReadyAfter now r v range =
    if-cases ReadyAfter (r.ur_len == 0) _ _ (λ empty. (v, tt))
      λ some. finish_resolve-ReadyAfter _ (
        resolve_oldest-ReadyAfter now _ (ur_at r 0)
          (record { root = v.root; current = v.current; releases = v.releases })
          (range (ground arith)))
