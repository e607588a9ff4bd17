-- ===== src/ServeLoop/Emptying.antt =====
-- A pass over the keyboards whose keymaps have only keys and chains of keys, next to a description of it that has no
-- queue: the events in turn, each made by `remap` into those that are sent.
use keytap.Base.{
  ℕ, suc, ◌+◌, ◌<◌, ◌≡◌, refl, arith, Bool, true, false, List, Cells, Outcome, ok, halt, ◌>>=◌, ltb,
  ◌==◌, Option, some, none, All, append-nil, update_self, ◌∙◌, if-cases, not, ltb→le, ◌%◌,
}
use keytap.TimeUtil.{Timeval}
use keytap.Input.{InputEvent, is_key, value_is, key_max}
use keytap.KeyAction.{KeyAction, none, ref, simple, macro, dual, map}
use keytap.Resolver.{Resolver, urmax, ur_at}
use keytap.Resolver.Steps.{Resolved, resolve, resolve_oldest, finish_resolve}
use keytap.Resolver.Safety.{InRange, macro_events-InRange}
use keytap.Resolver.Remap.{IsPlain, remap, remap_key, on_press, on_other}
use keytap.Resolver.Plain.{Follows, ResolvedTo}
use keytap.SendDedup.{SendDedup, send_all}
use keytap.SendDedup.Syn.{send_all-SendReturns, SendReturns}
use keytap.ServeLoop.{
  Served, enqueue, drain, drain_round, queue_event, recv_event, send_drained, served_as,
}
use keytap.ServeLoop.Counting.{Counted, counted}

-- The inner loop leaves no event, and has sent `sent`.
abbrev Emptied :
    (ℕ → KeyAction)
    → Cells ℕ
    → List InputEvent
    → Outcome (Option (Resolver × List InputEvent))
    → Type 0
Emptied m held sent (ok (some (r, evs))) = Follows m 0 held held r × (evs ≡ sent)
Emptied m held sent (ok none) = ⊥
Emptied m held sent (halt h) = ⊥

module _ (m : ℕ → KeyAction) (held down : Cells ℕ) (sent : List InputEvent) where
  last_round :
      (fuel : ℕ) (clock : ℕ → Timeval) (x : Resolved)
      → ResolvedTo m 1 held sent x
      → Emptied m held sent
          ((x >>= λ res. ok (finish_resolve res)) >>= drain_round (drain (suc fuel) clock))
  unfolding finish_resolve drain resolve
  last_round fuel clock (ok (true, r, evs)) (f, e) = rw f.waiting (
    record {
      waiting = refl;
      start_in = omega arith;
      counts = f.counts;
      root = f.root;
      current = f.current;
      releases = f.releases;
    },
    append-nil evs ∙ e,
  )
  last_round fuel clock (ok (false, r, evs)) h = absurd h
  last_round fuel clock (halt x) h = absurd h

  drain-Emptied :
      (fuel : ℕ) (clock : ℕ → Timeval) (r : Resolver) (ev : InputEvent)
      → ur_at r 0 ≡ ev
      → Follows m 1 held down r
      → ((now : Timeval) (r' : Resolver)
          → Follows m 1 held down r'
          → ResolvedTo m 1 held sent (resolve_oldest now r' ev))
      → Emptied m held sent (drain (suc (suc fuel)) clock r)
  unfolding drain resolve
  drain-Emptied fuel clock r ev e f turn = rw f.waiting (
      rw e (
        last_round fuel (λ k. clock (k + 1)) _
          (turn (clock 0) _ (record {
            waiting = refl;
            start_in = f.start_in;
            counts = f.counts;
            root = f.root;
            current = f.current;
            releases = f.releases;
          }))))

-- The events are sent to the deduper, and what it lets through is what was served.
abbrev pub ServedWith :
    (ℕ → KeyAction) → Cells ℕ → List InputEvent → SendDedup → Outcome (Option Served) → Type 0
ServedWith m held sent d (ok (some s)) =
    Follows m 0 held held s.resolver × (send_all d sent ≡ ok (s.deduper, s.out))
ServedWith m held sent d (ok none) = ⊥
ServedWith m held sent d (halt h) = ⊥

module _ (m : ℕ → KeyAction) (held : Cells ℕ) (sent : List InputEvent) (d : SendDedup)
    (range : All InRange sent) where
  sent-ServedWith :
      (r : Resolver)
      → Follows m 0 held held r
      → ServedWith m held sent d (send_all d sent >>= served_as r)
  sent-ServedWith r f = by_result (send_all d sent) refl (send_all-SendReturns sent d range)
    where
      by_result :
          (x : Outcome (SendDedup × List InputEvent))
          → send_all d sent ≡ x
          → SendReturns x
          → ServedWith m held sent d (x >>= served_as r)
      by_result (ok (d', out)) e h = (f, e)
      by_result (halt x) e h = absurd h

  drained-ServedWith :
      (x : Outcome (Option (Resolver × List InputEvent)))
      → Emptied m held sent x
      → ServedWith m held sent d (x >>= send_drained d)
  drained-ServedWith (ok (some (r, evs))) (f, e) = rw e (sent-ServedWith r f)
  drained-ServedWith (ok none) h = absurd h
  drained-ServedWith (halt x) h = absurd h

on_press-InRange : (ka : KeyAction) (ev : InputEvent) → IsPlain ka → All InRange (on_press ka ev)
on_press-InRange (simple c) ev p = ((λ key. omega (arith, p)), tt)
on_press-InRange (macro ms) ev p = macro_events-InRange ms p
on_press-InRange none ev p = tt
on_press-InRange (ref ka) ev p = tt
on_press-InRange (dual t h mode hold_ms dtms) ev p = tt
on_press-InRange (map m) ev p = tt

on_other-InRange : (ka : KeyAction) (ev : InputEvent) → IsPlain ka → All InRange (on_other ka ev)
on_other-InRange (simple c) ev p =
    if-cases (All InRange) (c == 0) _ _ (λ _. tt) (λ _. ((λ key. omega (arith, p)), tt))
on_other-InRange (macro ms) ev p = tt
on_other-InRange none ev p = tt
on_other-InRange (ref ka) ev p = tt
on_other-InRange (dual t h mode hold_ms dtms) ev p = tt
on_other-InRange (map m) ev p = tt

remap_key-InRange :
    (ka : KeyAction) (n : ℕ) (ev : InputEvent) → IsPlain ka → All InRange (remap_key ka n ev).1
remap_key-InRange ka n ev p =
    if-cases (λ (x : ℕ × List InputEvent). All InRange x.1) (value_is ev 0) _ _
      (λ up. if-cases (All InRange) (n == 1) _ _ (λ _. on_other-InRange ka ev p) (λ _. tt))
      λ n0.
        if-cases (λ (x : ℕ × List InputEvent). All InRange x.1) (value_is ev 1) _ _
          (λ down. if-cases (All InRange) (n == 0) _ _ (λ _. on_press-InRange ka ev p) (λ _. tt))
          λ n1.
            if-cases (All InRange) (value_is ev 2) _ _
              (λ again.
                if-cases (All InRange) (n == 0) _ _ (λ _. tt) (λ _. on_other-InRange ka ev p))
              (λ _. tt)

module _ (m : ℕ → KeyAction) (plain : (c : ℕ) → c < key_max → IsPlain (m c)) (held : Cells ℕ)
    (ev : InputEvent) (range : InRange ev) where
  remap-InRange : All InRange (remap m held ev).1
  unfolding remap
  remap-InRange =
      if-cases P (not (is_key ev)) _ _ (λ other. (range, tt))
        λ key.
          if-cases P (ltb key_max ev.code) _ _ (λ high. tt)
            λ low.
              remap_key-InRange (m ev.code) (held ev.code) ev
                (plain ev.code (omega (arith, ltb→le _ _ low, range (ground arith))))
    where
      P : Cells ℕ × List InputEvent → Type 0
      P x = All InRange x.1

  room : (r : Resolver) → r.ur_len ≡ 0 → (r.ur_len == urmax) ≡ false
  room r e = ground (arith, e)

  enqueue_first : (r : Resolver) → r.ur_len ≡ 0 → ur_at (enqueue r ev) 0 ≡ ev
  unfolding enqueue
  enqueue_first r e = rw e (update_self r.unresolved ((r.ur_start + 0) % urmax) ev)

  Follows-enqueue :
      {now_held : Cells ℕ} (r : Resolver)
      → Follows m 0 now_held held r
      → Follows m 1 now_held held (enqueue r ev)
  unfolding enqueue
  Follows-enqueue r f = record {
    waiting = omega (arith, f.waiting);
    start_in = f.start_in;
    counts = f.counts;
    root = f.root;
    current = f.current;
    releases = f.releases;
  }

  queued-ServedWith :
      (clock : ℕ → Timeval) (d : SendDedup) (x : Outcome (Bool × Resolver))
      → Counted m held ev (remap m held ev) x
      → ServedWith m (remap m held ev).0 (remap m held ev).1 d (x >>= queue_event clock d ev)
  unfolding queue_event send_all
  queued-ServedWith clock d (ok (false, r)) (f, e) = (f, rw e refl)
  queued-ServedWith clock d (ok (true, r)) (f, turn) = rw (room r f.waiting) (
      drained-ServedWith m _ _ d remap-InRange _ (
        drain-Emptied m _ held _ 1023 clock (enqueue r ev) ev (enqueue_first r f.waiting)
          (Follows-enqueue r f) turn))
  queued-ServedWith clock d (halt h) c = absurd c

  pub recv_event-ServedWith :
      (clock : ℕ → Timeval) (r : Resolver) (d : SendDedup)
      → Follows m 0 held held r
      → ServedWith m (remap m held ev).0 (remap m held ev).1 d (recv_event clock r d ev)
  unfolding recv_event
  recv_event-ServedWith clock r d f =
      queued-ServedWith clock d _ (counted m plain held ev r f range)
