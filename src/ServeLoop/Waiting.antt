-- ===== src/ServeLoop/Waiting.antt =====
-- Why the inner loop of `serve_loop` stops: no event waits without a reason.
use keytap.Base.{ℕ, ◌+◌, ◌≡◌, true, false, Outcome, ok, halt, List, ◌++◌, Option}
use keytap.TimeUtil.{Timeval}
use keytap.Input.{InputEvent}
use keytap.Resolver.{Resolver}
use keytap.Resolver.Steps.{resolve}
use keytap.Resolver.Waiting.{Idle}

-- The loop as a sequence of calls: those that return true, and a last one that returns false, for a resolver
-- whose queue is empty or whose oldest event waits.
pub data Worked : (ℕ → Timeval) → Resolver → Resolver → List InputEvent → Type 0 where
  stops :
      {clock : ℕ → Timeval} {r r' : Resolver} {sent : List InputEvent}
      → resolve (clock 0) r ≡ ok (false, r', sent)
      → Idle (clock 0) r
      → Worked clock r r' sent
  goes :
      {clock : ℕ → Timeval} {r r1 r' : Resolver} {sent rest : List InputEvent}
      → resolve (clock 0) r ≡ ok (true, r1, sent)
      → Worked (λ k. clock (k + 1)) r1 r' rest
      → Worked clock r r' (sent ++ rest)

abbrev pub WorksOff :
    (ℕ → Timeval) → Resolver → Outcome (Option (Resolver × List InputEvent)) → Type 0
WorksOff clock r (ok Option.none) = ⊥
WorksOff clock r (ok (Option.some (r', sent))) = Worked clock r r' sent
WorksOff clock r (halt h) = Unit
