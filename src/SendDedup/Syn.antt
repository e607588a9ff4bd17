-- ===== src/SendDedup/Syn.antt =====
-- `EV_SYN` through `send_dedup`, and that the calls return.
use keytap.Base.{
  Bool-cases, inl, inr, ◌≡◌, arith, Bool, true, false, Outcome, ok, halt, ◌>>=◌, ◌==◌,
  if◌then◌else◌, List, [], ◌∷◌, Option, some, none, All, >>=-eq-ok, subst,
}
use keytap.Input.{InputEvent, ev_syn}
use keytap.SendDedup.{SendDedup, send_dedup, send_all, send_rest, prepend}
use keytap.Resolver.Safety.{InRange}

-- Every `EV_SYN` of the list follows another event since the one before; the flag says whether one
-- has been sent before the list begins.
abbrev pub SynSeparated : Bool → List InputEvent → Type 0
SynSeparated b [] = Unit
SynSeparated b (e ∷ es) =
    if e.type == ev_syn then (b ≡ true) × SynSeparated false es else SynSeparated true es

-- One call, with the state that is left.
abbrev SeparatesStep : SendDedup → Outcome (SendDedup × Option InputEvent) → Type 0
SeparatesStep d (ok (d', none)) = d'.sent_something ≡ d.sent_something
SeparatesStep d (ok (d', some e)) =
    if e.type == ev_syn
    then (d.sent_something ≡ true) × (d'.sent_something ≡ false)
    else d'.sent_something ≡ true
SeparatesStep d (halt h) = Unit

send_dedup-SeparatesStep : (d : SendDedup) (ev : InputEvent) → SeparatesStep d (send_dedup d ev)
unfolding send_dedup
send_dedup-SeparatesStep d ev = ground arith

-- The call returns for an event in range.
abbrev pub SendReturns {ℓ} : {A : Type ℓ} → Outcome A → Type 0
SendReturns (ok a) = Unit
SendReturns (halt h) = ⊥

send_dedup-SendReturns :
    (d : SendDedup) (ev : InputEvent) → InRange ev → SendReturns (send_dedup d ev)
unfolding send_dedup
send_dedup-SendReturns d ev range = ground (arith)

one_more :
    (d d₁ : SendDedup) (ev : InputEvent) (more : List InputEvent)
    → SeparatesStep d (ok (d₁, some ev))
    → SynSeparated d₁.sent_something more
    → SynSeparated d.sent_something (ev ∷ more)
one_more d d₁ ev more step rest = elim (Bool-cases (ev.type == ev_syn)) [
  | inl syn ↦ let (before, after) = rw syn at step in rw syn (before, rw after at rest)
  | inr other ↦ let after = rw other at step in rw other (rw after at rest)
]

joined :
    (d d₁ d₂ d' : SendDedup) (out : Option InputEvent) (more outs : List InputEvent)
    → ◌≡◌ {A = Outcome (SendDedup × List InputEvent)} (ok (d₂, prepend out more)) (ok (d', outs))
    → SeparatesStep d (ok (d₁, out))
    → SynSeparated d₁.sent_something more
    → SynSeparated d.sent_something outs
joined d d₁ d₂ d' none more outs e step rest =
    let same : more ≡ outs = cc in rw (← same, ← step) rest
joined d d₁ d₂ d' (some ev) more outs e step rest =
    let same : ev ∷ more ≡ outs = cc in rw (← same) (one_more d d₁ ev more step rest)

-- After any sequence of events, if the calls return, the application has got no `EV_SYN` that does not
-- follow another event.
pub send_all-SynSeparated :
    (evs : List InputEvent) (d d' : SendDedup) (outs : List InputEvent)
    → send_all d evs ≡ ok (d', outs)
    → SynSeparated d.sent_something outs
unfolding send_all
send_all-SynSeparated [] d d' outs e = ground arith
send_all-SynSeparated (ev ∷ evs) d d' outs e =
    let ((d₁, out), first, rest) = >>=-eq-ok (send_dedup d ev) _ e in
    let ((d₂, more), later, last) = >>=-eq-ok (send_all d₁ evs) _ rest in
    let step : SeparatesStep d (ok (d₁, out)) =
      subst (SeparatesStep d) first (send_dedup-SeparatesStep d ev) in
    joined d d₁ d₂ d' out more outs last step (send_all-SynSeparated evs d₁ d₂ more later)

-- The calls return for events in range.
pub send_all-SendReturns :
    (evs : List InputEvent) (d : SendDedup) → All InRange evs → SendReturns (send_all d evs)
unfolding send_all
send_all-SendReturns [] d h = tt
send_all-SendReturns (ev ∷ evs) d h =
    first (send_dedup d ev) (send_dedup-SendReturns d ev h.0)
      (λ d'. send_all-SendReturns evs d' h.1)
  where
    rest :
        (out : Option InputEvent) (m : Outcome (SendDedup × List InputEvent))
        → SendReturns m
        → SendReturns (m >>= send_rest out)
    rest out (ok x) r = tt
    rest out (halt h) r = r

    first :
        (m : Outcome (SendDedup × Option InputEvent))
        → SendReturns m
        → ((d' : SendDedup) → SendReturns (send_all d' evs))
        → SendReturns (m >>= (λ x. send_all x.0 evs >>= send_rest x.1))
    first (ok (d', out)) r ih = rest out _ (ih d')
    first (halt h) r ih = r
