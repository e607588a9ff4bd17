-- ===== src/SendDedup/Alternating.antt =====
-- The presses and releases of a key, as the application gets them, alternate.
use keytap.Base.{
  >>=-eq-ok, subst, ℕ, ◌+◌, ◌≡◌, arith, Bool, true, false, ◌&&◌, ok, ◌==◌, if◌then◌else◌, List, [],
  ◌∷◌, Option, some, none, ◌≤◌, Bool-cases, inl, inr,
}
use keytap.Input.{InputEvent, is_key, value_is}
use keytap.SendDedup.{SendDedup, send_dedup, send_all, prepend}
use keytap.SendDedup.Or.{held, count_events, TracksAt, send_dedup-TracksAt}

abbrev pub is_of : ℕ → ℕ → InputEvent → Bool
is_of v c e = is_key e && value_is e v && e.code == c

-- A press of key `c` comes only while the key is up, and a release only while it is down; the number says whether it is
-- down before the list, as 1 or 0.
abbrev pub Alternates : ℕ → ℕ → List InputEvent → Type 0
Alternates c down [] = Unit
Alternates c down (e ∷ es) =
    if is_of 1 c e
    then (down ≡ 0) × Alternates c 1 es
    else if is_of 0 c e
    then (down ≡ 1) × Alternates c 0 es
    else Alternates c down es

-- A key is not pressed and released by the same event.
press_no_release : (c : ℕ) (e : InputEvent) → is_of 1 c e ≡ true → is_of 0 c e ≡ false
press_no_release c e press = ground arith

counted-Alternates :
    (c h h' : ℕ) (e : InputEvent) (more : List InputEvent)
    → h ≤ 1
    → h' ≤ 1
    → h + count_events 1 c (e ∷ []) ≡ h' + count_events 0 c (e ∷ [])
    → Alternates c h' more
    → Alternates c h (e ∷ more)
unfolding count_events
counted-Alternates c h h' e more small small' t a = elim (Bool-cases (is_of 1 c e)) [
  | inl press ↦
      let t1 = rw (press, press_no_release c e press) at t in
      rw press (
        omega (arith, t1, small, small'),
        subst (λ n. Alternates c n more) (omega (arith, t1, small, small')) a,
      )
  | inr other ↦ elim (Bool-cases (is_of 0 c e)) [
    | inl release ↦
        let t1 = rw (other, release) at t in
        rw (other, release)
          (
            omega (arith, t1, small, small'),
            subst (λ n. Alternates c n more) (omega (arith, t1, small, small')) a,
          )
    | inr neither ↦
        let t1 = rw (other, neither) at t in
        rw (other, neither) (subst (λ n. Alternates c n more) (omega (arith, t1)) a)
  ]
]

held-le : (d : SendDedup) (c : ℕ) → held d c ≤ 1
held-le d c = ground arith

step-Alternates :
    (c : ℕ) (d d' : SendDedup) (out : Option InputEvent) (more : List InputEvent)
    → TracksAt c d (ok (d', out))
    → Alternates c (held d' c) more
    → Alternates c (held d c) (prepend out more)
unfolding count_events
step-Alternates c d d' none more t a = subst (λ n. Alternates c n more) (omega (arith, t)) a
step-Alternates c d d' (some e) more t a =
    counted-Alternates c (held d c) (held d' c) e more (held-le d c) (held-le d' c) t a

-- After any sequence of events, if the calls return, the application has got the presses and releases of each key in
-- turn, beginning with a press unless the key was held before.
pub send_all-Alternates :
    (evs : List InputEvent) (d d' : SendDedup) (outs : List InputEvent)
    → send_all d evs ≡ ok (d', outs)
    → (c : ℕ) → Alternates c (held d c) outs
unfolding send_all
send_all-Alternates [] d d' outs e c = let nothing : outs ≡ [] = cc in rw nothing tt
send_all-Alternates (ev ∷ evs) d d' outs e c =
    let ((d1, out), first, rest) = >>=-eq-ok (send_dedup d ev) _ e in
    let ((d2, more), later, last) = >>=-eq-ok (send_all d1 evs) _ rest in
    let whole : prepend out more ≡ outs = cc in
    let step : TracksAt c d (ok (d1, out)) =
      subst (TracksAt c d) first (send_dedup-TracksAt c d ev) in
    subst (Alternates c (held d c)) whole
      (step-Alternates c d d1 out more step (send_all-Alternates evs d1 d2 more later c))
