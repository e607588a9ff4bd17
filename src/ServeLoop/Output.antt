-- ===== src/ServeLoop/Output.antt =====
-- What `serve_loop` passes to the application has gone through the deduper.
use keytap.Base.{
  refl, ◌≡◌, ◌==◌, ◌+◌, ◌>>=◌, if-cases, true, false, Bool, ok, halt, some, none, [], ◌∷◌, Outcome,
  ℕ, List, Option,
}
use keytap.TimeUtil.{Timeval}
use keytap.Input.{InputEvent}
use keytap.Resolver.{Resolver, urmax, resolve_dedup_input}
use keytap.SendDedup.{SendDedup, send_all}
use keytap.SendDedup.Runs.{Passed, Passed-refl, Passed-append}
use keytap.ServeLoop.{Served, served_as, send_drained, drain, enqueue, queue_event, recv_event}
use keytap.ServeLoop.Keyboards.{
  Kbd, Read, idle, again, gone, event, Pass, received, serve_keyboard, joined, then_rest,
  serve_keyboards,
}

-- A step that returns leaves the deduper in the state after the events that it sent.
abbrev pub ServedThrough : SendDedup → Outcome (Option Served) → Type 0
ServedThrough d (ok none) = Unit
ServedThrough d (ok (some s)) = Passed d s.deduper s.out
ServedThrough d (halt h) = Unit

abbrev pub PassedThrough : SendDedup → Outcome (Option Pass) → Type 0
PassedThrough d (ok none) = Unit
PassedThrough d (ok (some p)) = Passed d p.deduper p.out
PassedThrough d (halt h) = Unit

sent-ServedThrough :
    (d : SendDedup) (r : Resolver) (sent : List InputEvent)
    → ServedThrough d (send_all d sent >>= served_as r)
sent-ServedThrough d r sent = through (send_all d sent) refl
  where
    through :
        (m : Outcome (SendDedup × List InputEvent))
        → send_all d sent ≡ m
        → ServedThrough d (m >>= served_as r)
    through (ok (d', out)) e = record { given = sent; run = e }
    through (halt h) e = tt

drained-ServedThrough :
    (d : SendDedup) (m : Outcome (Option (Resolver × List InputEvent)))
    → ServedThrough d (m >>= send_drained d)
drained-ServedThrough d (ok none) = tt
drained-ServedThrough d (ok (some (r, sent))) = sent-ServedThrough d r sent
drained-ServedThrough d (halt h) = tt

queue_event-ServedThrough :
    (clock : ℕ → Timeval) (d : SendDedup) (ev : InputEvent) (m : Outcome (Bool × Resolver))
    → ServedThrough d (m >>= queue_event clock d ev)
unfolding queue_event
queue_event-ServedThrough clock d ev (ok (false, r)) = Passed-refl d
queue_event-ServedThrough clock d ev (ok (true, r)) =
    if-cases (ServedThrough d) (r.ur_len == urmax) _ _ (λ full. tt)
      (λ room. drained-ServedThrough d (drain (urmax + 1) clock (enqueue r ev)))
queue_event-ServedThrough clock d ev (halt h) = tt

received-PassedThrough :
    (k : Kbd) (rs : ℕ → Resolver) (d : SendDedup) (m : Outcome (Option Served))
    → ServedThrough d m
    → PassedThrough d (m >>= received k rs)
received-PassedThrough k rs d (ok none) p = tt
received-PassedThrough k rs d (ok (some s)) p = p
received-PassedThrough k rs d (halt h) p = tt

serve_keyboard-PassedThrough :
    (r : Read) (k : Kbd) (rs : ℕ → Resolver) (d : SendDedup)
    → PassedThrough d (serve_keyboard r k rs d)
unfolding serve_keyboard recv_event
serve_keyboard-PassedThrough idle k rs d = Passed-refl d
serve_keyboard-PassedThrough again k rs d = Passed-refl d
serve_keyboard-PassedThrough gone k rs d = Passed-refl d
serve_keyboard-PassedThrough (event clock ev) k rs d =
    received-PassedThrough k rs d (recv_event clock (rs k.grab) d ev)
      (queue_event-ServedThrough clock d ev (resolve_dedup_input (rs k.grab) ev))

joined-PassedThrough :
    (d : SendDedup) (s : Pass) (m : Outcome (Option Pass))
    → Passed d s.deduper s.out
    → PassedThrough s.deduper m
    → PassedThrough d (m >>= joined s)
joined-PassedThrough d s (ok none) p q = tt
joined-PassedThrough d s (ok (some t)) p q = Passed-append p q
joined-PassedThrough d s (halt h) p q = tt

then-PassedThrough :
    (d : SendDedup) (rest : (ℕ → Resolver) → SendDedup → Outcome (Option Pass))
    (m : Outcome (Option Pass))
    → ((rs : ℕ → Resolver) (d' : SendDedup) → PassedThrough d' (rest rs d'))
    → PassedThrough d m
    → PassedThrough d (m >>= then_rest rest)
then-PassedThrough d rest (ok none) ih p = tt
then-PassedThrough d rest (ok (some s)) ih p =
    joined-PassedThrough d s (rest s.resolvers s.deduper) p (ih s.resolvers s.deduper)
then-PassedThrough d rest (halt h) ih p = tt

pub serve_keyboards-PassedThrough :
    (reads : ℕ → Read) (ks : List Kbd) (rs : ℕ → Resolver) (d : SendDedup)
    → PassedThrough d (serve_keyboards reads ks rs d)
unfolding serve_keyboards
serve_keyboards-PassedThrough reads [] rs d = Passed-refl d
serve_keyboards-PassedThrough reads (k ∷ ks) rs d =
    then-PassedThrough d (serve_keyboards reads ks) (serve_keyboard (reads k.fd) k rs d)
      (λ rs' d'. serve_keyboards-PassedThrough reads ks rs' d')
      (serve_keyboard-PassedThrough (reads k.fd) k rs d)
