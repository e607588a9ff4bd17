-- ===== src/SendDedup/Or.antt =====
-- `send_dedup` joins keys: what the application sees of a key, and of `EV_SYN`, over any run.
use keytap.Base.{
  >>=-eq-ok, subst, ℕ, ◌+◌, ◌≡◌, refl, arith, Bool, true, false, ◌&&◌, Outcome, ok, halt, ltb, ◌==◌,
  if◌then◌else◌, List, [], ◌∷◌, Option, some, none, if-cases, ◌||◌,
}
use keytap.Input.{InputEvent, is_key, value_is, key_max, ev_syn}
use keytap.SendDedup.{SendDedup, send_dedup, send_all, prepend, send_release, send_press}

-- How many events with value `v` of key `c` a list holds.
unfoldable pub count_events : ℕ → ℕ → List InputEvent → ℕ
count_events v c [] = 0
count_events v c (e ∷ es) =
    (if is_key e && value_is e v && e.code == c then 1 else 0) + count_events v c es

-- 1 while some keyboard holds the key down, as far as the deduper knows.
abbrev pub held : SendDedup → ℕ → ℕ
held d c = if d.press_count_map c == 0 then 0 else 1

-- From `d` to `d'` the application saw `outs`: it knows of each key whether it is held.
abbrev pub Tracks : SendDedup → SendDedup → List InputEvent → Type 0
Tracks d d' outs = (c : ℕ) → held d c + count_events 1 c outs ≡ held d' c + count_events 0 c outs

-- The same for one key, of a result.
abbrev pub TracksAt : ℕ → SendDedup → Outcome (SendDedup × Option InputEvent) → Type 0
TracksAt c d (ok (d', out)) =
    held d c + count_events 1 c (prepend out []) ≡ held d' c + count_events 0 c (prepend out [])
TracksAt c d (halt h) = Unit

send_release-TracksAt :
    (c : ℕ) (d : SendDedup) (ev : InputEvent)
    → is_key ev ≡ true
    → value_is ev 0 ≡ true
    → TracksAt c d (send_release d ev)
unfolding send_release count_events
send_release-TracksAt c d ev key up = ground arith

send_press-TracksAt :
    (c : ℕ) (d : SendDedup) (ev : InputEvent)
    → is_key ev ≡ true
    → value_is ev 1 ≡ true
    → TracksAt c d (send_press d ev)
unfolding send_press count_events
send_press-TracksAt c d ev key down = ground arith

-- An event that is neither a press nor a release counts for no key.
other-TracksAt :
    (c : ℕ) (d : SendDedup) (b : Bool) (ev : InputEvent)
    → (is_key ev && (value_is ev 0 || value_is ev 1)) ≡ false
    → TracksAt c d (ok (record d { sent_something = b }, some ev))
unfolding count_events
other-TracksAt c d b ev h = ground arith

pub send_dedup-TracksAt : (c : ℕ) (d : SendDedup) (ev : InputEvent) → TracksAt c d (send_dedup d ev)
unfolding send_dedup count_events
send_dedup-TracksAt c d ev =
    if-cases P (is_key ev) _ _
      (λ key.
        if-cases P (ltb key_max ev.code) _ _ (λ high. refl)
          λ low.
            if-cases P (value_is ev 0) _ _ (λ up. send_release-TracksAt c d ev key up)
              λ n0.
                if-cases P (value_is ev 1) _ _ (λ down. send_press-TracksAt c d ev key down)
                  λ n1.
                    if-cases P (value_is ev 2) _ _
                      (λ again. other-TracksAt c d true ev (ground arith)) λ n2. refl)
      (λ other.
        if-cases P (ev.type == ev_syn) _ _
          (λ syn.
            if-cases P d.sent_something _ _ (λ sent. other-TracksAt c d false ev (ground arith))
              λ nothing. refl)
          λ rest. other-TracksAt c d true ev (ground arith))
  where
    P : Outcome (SendDedup × Option InputEvent) → Type 0
    P m = TracksAt c d m

count_events-prepend :
    (v c : ℕ) (out : Option InputEvent) (outs : List InputEvent)
    → count_events v c (prepend out outs)
      ≡ count_events v c (prepend out []) + count_events v c outs
unfolding count_events
count_events-prepend v c none outs = omega arith
count_events-prepend v c (some e) outs = ground arith

-- What the application has seen of each key after any sequence of events, if the calls return: the
-- difference of the key's presses and releases is whether the key is held.
pub send_all-Tracks :
    (evs : List InputEvent) (d d' : SendDedup) (outs : List InputEvent)
    → send_all d evs ≡ ok (d', outs)
    → Tracks d d' outs
unfolding send_all count_events
send_all-Tracks [] d d' outs e c = ground arith
send_all-Tracks (ev ∷ evs) d d' outs e c =
    let ((d₁, out), first, rest) = >>=-eq-ok (send_dedup d ev) _ e in
    let ((d₂, more), later, last) = >>=-eq-ok (send_all d₁ evs) _ rest in
    let at_first : TracksAt c d (ok (d₁, out)) =
      subst (TracksAt c d) first (send_dedup-TracksAt c d ev) in
    let at_rest = send_all-Tracks evs d₁ d₂ more later c in
    ground (arith, count_events-prepend 1 c out more, count_events-prepend 0 c out more)
