-- ===== src/ServeLoop/Counting.antt =====
-- The whole way of an event through a grab whose keymap has only keys and chains of keys: counting, queue and
-- resolver do together what `remap` describes.
use keytap.Base.{
  ℕ, zero, suc, ◌+◌, ◌-◌, ◌<◌, ◌≡◌, ◌≢◌, refl, arith, Bool, true, false, List, [], ◌∷◌, Cells,
  update, Outcome, ok, halt, if◌then◌else◌, ltb, ◌==◌, Bool-cases, update_ne, le→ltb, update_self,
  inl, sym, ==_iff, inr, ltb→le, ◌∙◌, fun_ext, ap, lt→ltb,
}
use keytap.TimeUtil.{Timeval}
use keytap.Input.{InputEvent, is_key, value_is, key_max}
use keytap.KeyAction.{KeyAction}
use keytap.Resolver.{Resolver, resolve_dedup_input}
use keytap.Resolver.Steps.{resolve_oldest}
use keytap.Resolver.Safety.{InRange}
use keytap.Resolver.Remap.{IsPlain, remap, on_press, on_other}
use keytap.Resolver.Plain.{
  Follows, ResolvedTo, recount, press-ResolvedTo, release-ResolvedTo, oldest_other-ResolvedTo,
}

-- After the counting: an event that is not queued is one that nothing comes of, and for one that is queued `resolve`
-- sends what `res` says.
abbrev pub Counted :
    (ℕ → KeyAction)
    → Cells ℕ
    → InputEvent
    → Cells ℕ × List InputEvent
    → Outcome (Bool × Resolver)
    → Type 0
Counted m held ev res (ok (false, r)) = Follows m 0 res.0 res.0 r × (res.1 ≡ [])
Counted m held ev res (ok (true, r)) =
    Follows m 0 res.0 held r
    × ((now : Timeval) (r' : Resolver)
        → Follows m 1 res.0 held r'
        → ResolvedTo m 1 res.0 res.1 (resolve_oldest now r' ev))
Counted m held ev res (halt h) = ⊥

not_zero : (n : ℕ) → (suc n == 0) ≡ false
not_zero n = ground arith

not_one : (n : ℕ) → (suc (suc n) == 1) ≡ false
not_one n = ground arith

less : (n : ℕ) → suc (suc n) - 1 ≡ suc n
less n = omega arith

nonzero : ◌≢◌ {A = ℕ} 1 0
nonzero e = omega (arith, e)

module _ (m : ℕ → KeyAction) (plain : (c : ℕ) → c < key_max → IsPlain (m c)) (held : Cells ℕ)
    (ev : InputEvent) (r : Resolver) (f : Follows m 0 held held r) where
  -- Events that are no keys, or whose codes are above `key_max`.
  passed : is_key ev ≡ false → Counted m held ev (held, ev ∷ []) (ok (true, r))
  unfolding resolve_oldest
  passed other = (f, λ now r' f'. rw other (f', refl))

  too_high :
      is_key ev ≡ true → ltb key_max ev.code ≡ true → Counted m held ev (held, []) (ok (true, r))
  unfolding resolve_oldest
  too_high key high = (f, λ now r' f'. rw key (rw high (f', refl)))

  module _ (key : is_key ev ≡ true) (lt : ev.code < key_max) where
    -- The counter of the key has changed to `n`, on both sides.
    abbrev now_held : ℕ → Cells ℕ
    now_held n = update held ev.code n

    now_counted : (n : ℕ) → (c : ℕ) → update r.input_counts ev.code n c ≡ now_held n c
    now_counted n c = elim (Bool-cases (ev.code == c)) [
      | inl here ↦ rw here refl
      | inr other ↦ rw other (f.counts c)
    ]

    still_down :
        (n : ℕ) → (n == 0) ≡ (held ev.code == 0) → (c : ℕ) → (now_held n c == 0) ≡ (held c == 0)
    still_down n e c = elim (Bool-cases (ev.code == c)) [
      | inl here ↦ rw here (rw (sym ((==_iff _ _).0 here)) e)
      | inr other ↦ rw other refl
    ]

    dropped :
        (n : ℕ)
        → (n == 0) ≡ (held ev.code == 0)
        → Follows m 0
            (now_held n)
            (now_held n)
            (record r { input_counts = update r.input_counts ev.code n })
    dropped n e = recount _ _ _ f (now_counted n) (still_down n e)

    queued :
        (n : ℕ)
        → Follows m 0
            (now_held n)
            held
            (record r { input_counts = update r.input_counts ev.code n })
    queued n = recount _ _ _ f (now_counted n) (λ c. refl)

    elsewhere : (n c : ℕ) → c ≢ ev.code → now_held n c ≡ held c
    elsewhere n c ne = update_ne held ev.code c n (λ e. ne (sym e))

    high : ltb key_max ev.code ≡ false
    high = le→ltb _ _ (omega (arith, lt))

    unchanged : (n : ℕ) → held ev.code ≡ n → (c : ℕ) → now_held n c ≡ held c
    unchanged n e c = elim (Bool-cases (ev.code == c)) [
      | inl here ↦ rw here (sym e ∙ ap held ((==_iff _ _).0 here))
      | inr other ↦ rw other refl
    ]

    released :
        (n : ℕ)
        → value_is ev 0 ≡ true
        → held ev.code ≡ n
        → Counted m held ev
            (now_held (n - 1), if n == 1 then on_other (m ev.code) ev else [])
            (if n == 0
              then ok (false, r)
              else ok
                  (n - 1 == 0, record r { input_counts = update r.input_counts ev.code (n - 1) }))
    unfolding resolve_oldest
    released zero up e = (
      recount r.input_counts _ _ f (λ c. f.counts c ∙ sym (unchanged 0 e c))
          (still_down 0 (ground (arith, e))),
      refl,
    )
    released (suc zero) up e = (
      queued 0,
      λ now r' f'. rw key (
          rw high (
            rw up (
              release-ResolvedTo m plain 1 (now_held 0) held now ev lt r' f' (elsewhere 0)
                (omega (arith, e)) (update_self held ev.code 0)))),
    )
    released (suc (suc n)) up e = rw (less n) (
        rw (not_one n)
          (rw (not_zero (suc n)) (rw (not_zero n) (dropped (suc n) (ground (arith, e)), refl))))

    pressed :
        (n : ℕ)
        → value_is ev 0 ≡ false
        → value_is ev 1 ≡ true
        → held ev.code ≡ n
        → Counted m held ev
            (now_held (n + 1), if n == 0 then on_press (m ev.code) ev else [])
            (ok (n == 0, record r { input_counts = update r.input_counts ev.code (n + 1) }))
    unfolding resolve_oldest
    pressed zero up down e = (
      queued 1,
      λ now r' f'. rw key (
          rw high (
            rw up (
              rw down (
                press-ResolvedTo m plain 1 (now_held 1) held now ev lt r' f' (elsewhere 1) e
                  (λ z. nonzero (sym (update_self held ev.code 1) ∙ z)))))),
    )
    pressed (suc n) up down e = rw (not_zero n) (dropped (suc n + 1) (ground (arith, e)), refl)

    neither :
        value_is ev 0 ≡ false
        → value_is ev 1 ≡ false
        → Counted m held ev
            (
              now_held (held ev.code),
              if value_is ev 2
                  then (if held ev.code == 0 then [] else on_other (m ev.code) ev)
                  else [],
            )
            (ok (true, r))
    neither up down =
        rw (fun_ext (unchanged (held ev.code) refl))
          (f, λ now r' f'. oldest_other-ResolvedTo m plain 1 held held now ev lt r' f' up down key)

  -- What the counting makes of any event in range.
  pub counted : InRange ev → Counted m held ev (remap m held ev) (resolve_dedup_input r ev)
  unfolding remap resolve_dedup_input
  counted range = elim (Bool-cases (is_key ev)) [
    | inr other ↦ rw other (passed other)
    | inl key ↦ elim (Bool-cases (ltb key_max ev.code)) [
      | inl high ↦ rw key (rw high (too_high key high))
      | inr low ↦
          let lt : ev.code < key_max = omega (arith, ltb→le _ _ low, range key) in
          elim (Bool-cases (value_is ev 0)) [
            | inl up ↦ rw key (
                rw low (
                  rw up (
                    rw (lt→ltb _ _ lt)
                      (rw (f.counts ev.code) (released key lt (held ev.code) up refl)))))
            | inr n0 ↦ elim (Bool-cases (value_is ev 1)) [
              | inl down ↦ rw key (
                  rw low (
                    rw n0 (
                      rw down (
                        rw (lt→ltb _ _ lt)
                          (rw (f.counts ev.code) (pressed key lt (held ev.code) n0 down refl))))))
              | inr n1 ↦ rw key (rw low (rw n0 (rw n1 (neither key lt n0 n1))))
            ]
          ]
    ]
  ]
