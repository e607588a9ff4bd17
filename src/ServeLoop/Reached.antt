-- ===== src/ServeLoop/Reached.antt =====
-- The states of a grab over a whole run of the loop, from `resolver_init` on its keymap.
use keytap.Base.{
  ℕ, ◌≡◌, ◌⊎◌, inl, inr, refl, arith, Outcome, ok, halt, exit_with, Option, some, none, subst,
}
use keytap.TimeUtil.{Timeval}
use keytap.Input.{InputEvent}
use keytap.KeyAction.{KeyAction}
use keytap.Resolver.{Resolver, urmax, resolver_init}
use keytap.Resolver.Safety.{IsKeymap, InRange}
use keytap.SendDedup.{SendDedup}
use keytap.ServeLoop.{Served, recv_event}
use keytap.ServeLoop.Safety.{Inv}
use keytap.ServeLoop.Receive.{Receives, recv_event-Receives}

-- The resolver of a grab with keymap `km`, after any number of events. Other grabs use the deduper in
-- between, so that it may be any at each event.
pub data Reached (km : KeyAction) : Resolver → Type 0 where
  initial : Reached km (resolver_init km)
  received :
      {r : Resolver}
      → Reached km r
      → (clock : ℕ → Timeval) (d : SendDedup) (ev : InputEvent) (s : Served) → InRange ev
      → recv_event clock r d ev ≡ ok (some s)
      → Reached km s.resolver

pub resolver_init-Inv : (km : KeyAction) → IsKeymap km → Inv (resolver_init km)
unfolding resolver_init
resolver_init-Inv km k = record {
  valid = record { fits = omega arith; start_in = omega arith };
  ready = record { root = k; current = k; releases = λ i lt. inl (omega arith) };
  queued = tt;
}

Reached-Inv : {km : KeyAction} {r : Resolver} → IsKeymap km → Reached km r → Inv r
Reached-Inv k initial = resolver_init-Inv _ k
Reached-Inv k (received {r} before clock d ev s range e) =
    subst (Receives r) e (recv_event-Receives clock r d ev (Reached-Inv k before) range)

-- A grab with a filled keymap, after any run over events whose codes are not `key_max`: the loop takes the
-- next such event and goes on, or it exits since 1024 events wait. It does nothing else.
pub loop_goes_on :
    {km : KeyAction} {r : Resolver} (clock : ℕ → Timeval) (d : SendDedup) (ev : InputEvent)
    → IsKeymap km
    → Reached km r
    → InRange ev
    → ((s : Served) × (recv_event clock r d ev ≡ ok (some s)) × Inv s.resolver)
      ⊎ ((recv_event clock r d ev ≡ halt (exit_with 1)) × (r.ur_len ≡ urmax))
loop_goes_on {km} {r} clock d ev k reached range =
    outcome (recv_event clock r d ev) refl
      (recv_event-Receives clock r d ev (Reached-Inv k reached) range)
  where
    outcome :
        (m : Outcome (Option Served))
        → recv_event clock r d ev ≡ m
        → Receives r m
        → ((s : Served) × (recv_event clock r d ev ≡ ok (some s)) × Inv s.resolver)
          ⊎ ((recv_event clock r d ev ≡ halt (exit_with 1)) × (r.ur_len ≡ urmax))
    outcome (ok (some s)) e v = inl (s, e, v)
    outcome (ok none) e v = absurd v
    outcome (halt h) e (stop, full) = inr (rw e (rw stop refl), full)
