-- ===== src/ServeLoop/Receive.antt =====
-- The loop's body for one event: what it leaves, and when it stops the program.
use keytap.Base.{
  All-append, update_ne, update_self, zero, suc, ℕ, ◌+◌, ◌%◌, ◌<◌, ◌≡◌, ◌≢◌, refl, arith, Bool,
  true, false, not, Outcome, ok, halt, exit_with, ◌>>=◌, List, [], ◌∷◌, ◌++◌, Option, some, none,
  subst, sym, Cells, update, ap₂, ◌∙◌, ap, if-cases, ltb, ◌==◌,
}
use keytap.TimeUtil.{Timeval}
use keytap.Input.{InputEvent, key_max, is_key, value_is}
use keytap.Resolver.{Resolver, urmax, resolve_dedup_input}
use keytap.Resolver.Ring.{pending, window, window_snoc}
use keytap.Resolver.Safety.{InRange}
use keytap.SendDedup.{SendDedup, send_all}
use keytap.SendDedup.Syn.{send_all-SendReturns, SendReturns}
use keytap.ServeLoop.{served_as, queue_event, enqueue, recv_event, Served, send_drained}
use keytap.ServeLoop.Safety.{Inv, DrainReturns, drain-DrainReturns}

-- A write just past the window does not touch it.
window-update :
    (u : Cells InputEvent) (ev : InputEvent) (n s k : ℕ)
    → n < urmax
    → k ≡ (s + n) % urmax
    → window (update u k ev) s n ≡ window u s n
window-update u ev zero s k h e = refl
window-update u ev (suc n) s k h e =
    ap₂ ◌∷◌ (update_ne u k (s % urmax) ev (omega arith))
      (window-update u ev n (s + 1) k (omega arith) (omega arith))

-- `enqueue` appends the event to a queue that is not full.
pub pending-enqueue :
    (r : Resolver) (ev : InputEvent)
    → r.ur_len < urmax
    → pending (enqueue r ev) ≡ pending r ++ (ev ∷ [])
unfolding enqueue
pending-enqueue r ev h =
    ap (window u' r.ur_start) {y = suc r.ur_len} (omega arith)
    ∙ window_snoc u' r.ur_len r.ur_start
    ∙ ap₂ (λ xs e. xs ++ (e ∷ [])) (window-update r.unresolved ev r.ur_len r.ur_start k h refl)
        (update_self r.unresolved k ev)
  where
    k : ℕ
    k = (r.ur_start + r.ur_len) % urmax

    u' : Cells InputEvent
    u' = update r.unresolved k ev

-- The input counters are all that `resolve_dedup_input` changes; it returns for events in range.
abbrev OnlyCounts : Resolver → Outcome (Bool × Resolver) → Type 0
OnlyCounts r (ok (b, r')) = r' ≡ record r { input_counts = r'.input_counts }
OnlyCounts r (halt h) = ⊥

resolve_dedup_input-OnlyCounts :
    (r : Resolver) (ev : InputEvent) → InRange ev → OnlyCounts r (resolve_dedup_input r ev)
unfolding resolve_dedup_input
resolve_dedup_input-OnlyCounts r ev range =
    if-cases (OnlyCounts r) (not (is_key ev)) _ _ (λ other. refl)
      λ key.
        if-cases (OnlyCounts r) (ltb key_max ev.code) _ _ (λ high. refl)
          λ low.
            let inside : ltb ev.code key_max ≡ true = ground (arith, range) in
            if-cases (OnlyCounts r) (value_is ev 0) _ _
              (λ up. rw inside (
                if-cases (OnlyCounts r) (r.input_counts ev.code == 0) _ _ (λ z. refl) (λ nz. refl)))
              λ n0.
                if-cases (OnlyCounts r) (value_is ev 1) _ _ (λ down. rw inside refl) (λ n1. refl)

-- What the loop's body may do with an event: go on with the invariant, or stop at a full ring.
abbrev pub Receives : Resolver → Outcome (Option Served) → Type 0
Receives r (ok (some s)) = Inv s.resolver
Receives r (ok none) = ⊥
Receives r (halt h) = (h ≡ exit_with 1) × (r.ur_len ≡ urmax)

send_drained-Receives :
    (r : Resolver) (d : SendDedup) (m : Outcome (Option (Resolver × List InputEvent)))
    → DrainReturns m
    → Receives r (m >>= send_drained d)
send_drained-Receives r d (ok (some (r', sent))) (v, a) =
    served (send_all d sent) (send_all-SendReturns sent d a)
  where
    served :
        (m : Outcome (SendDedup × List InputEvent))
        → SendReturns m
        → Receives r (m >>= served_as r')
    served (ok (d', out)) h = v
    served (halt e) h = absurd h
send_drained-Receives r d (ok none) h = absurd h
send_drained-Receives r d (halt e) h = absurd h

enqueue-Inv :
    (r : Resolver) (ev : InputEvent) → Inv r → InRange ev → r.ur_len ≢ urmax → Inv (enqueue r ev)
enqueue-Inv r ev v range room = record {
  valid = unfold enqueue in record { fits = omega arith; start_in = v.valid.start_in };
  ready =
      unfold enqueue in
      record { root = v.ready.root; current = v.ready.current; releases = v.ready.releases };
  queued = rw (pending-enqueue r ev (omega arith)) (All-append InRange _ _ v.queued (range, tt));
}

counts-Inv : {r r' : Resolver} → r' ≡ record r { input_counts = r'.input_counts } → Inv r → Inv r'
counts-Inv {r} {r'} e v = subst Inv (sym e) (record {
  valid = record { fits = v.valid.fits; start_in = v.valid.start_in };
  ready = record { root = v.ready.root; current = v.ready.current; releases = v.ready.releases };
  queued = v.queued;
})

queue_event-Receives :
    (clock : ℕ → Timeval) (r r' : Resolver) (d : SendDedup) (ev : InputEvent) (b : Bool)
    → r'.ur_len ≡ r.ur_len
    → Inv r'
    → InRange ev
    → Receives r (queue_event clock d ev (b, r'))
unfolding queue_event
queue_event-Receives clock r r' d ev false e v range = v
queue_event-Receives clock r r' d ev true e v range =
    if-cases (Receives r) (r'.ur_len == urmax) _ _ (λ full. (refl, ground arith))
      λ room. send_drained-Receives r d _ (
        drain-DrainReturns (urmax + 1) clock (enqueue r' ev)
          (enqueue-Inv r' ev v range (ground arith))
          (unfold enqueue in ground (arith, v.valid.fits)))

-- With the invariant, and for any event whose code is not `key_max`, the body of the loop ends with
-- the invariant again, unless the ring is full: then it exits. It never runs out of fuel and never
-- leaves an array.
pub recv_event-Receives :
    (clock : ℕ → Timeval) (r : Resolver) (d : SendDedup) (ev : InputEvent)
    → Inv r
    → InRange ev
    → Receives r (recv_event clock r d ev)
unfolding recv_event
recv_event-Receives clock r d ev v range =
    counted (resolve_dedup_input r ev) (resolve_dedup_input-OnlyCounts r ev range)
  where
    counted :
        (m : Outcome (Bool × Resolver)) → OnlyCounts r m → Receives r (m >>= queue_event clock d ev)
    counted (ok (b, r')) e =
        queue_event-Receives clock r r' d ev b (ap (λ (x : Resolver). x.ur_len) e) (counts-Inv e v)
          range
    counted (halt h) e = absurd e
