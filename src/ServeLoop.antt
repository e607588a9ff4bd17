-- ===== src/ServeLoop.antt =====
-- sdiol.c, `serve_loop`: what the loop does with an event that it has read from a keyboard.
pub mod Drain
pub mod Safety
pub mod Receive
pub mod Counting
pub mod Emptying
pub mod Remapping
pub mod Reached
pub mod OutOfBounds
pub mod Keyboards
pub mod Passes
pub mod Rounds
pub mod Deadline
pub mod Adding
pub mod Running
pub mod Runs
pub mod Descriptors
pub mod Ledger
pub mod Waiting
pub mod Tapping
pub mod Output
use keytap.Base.{
  ℕ, zero, suc, ◌+◌, ◌%◌, Bool, true, false, update, Outcome, ok, halt, exit_with, ◌>>=◌, ◌==◌,
  if◌then◌else◌, List, [], ◌++◌, Option, some, none, not,
}
use keytap.TimeUtil.{Timeval}
use keytap.Input.{InputEvent}
use keytap.Resolver.{Resolver, urmax, resolve_dedup_input}
use keytap.Resolver.Steps.{resolve}
use keytap.SendDedup.{SendDedup, send_all}

-- `r->unresolved[(r->ur_start + r->ur_len++) % URMAX] = ev`
unfoldable pub enqueue : Resolver → InputEvent → Resolver
enqueue r ev = record r {
  unresolved = update r.unresolved ((r.ur_start + r.ur_len) % urmax) ev;
  ur_len = r.ur_len + 1;
}

-- The events sent so far, in front of those that the rest of the loop sends.
abbrev pub sent_before :
    List InputEvent → Option (Resolver × List InputEvent) → Option (Resolver × List InputEvent)
sent_before sent none = none
sent_before sent (some (r, rest)) = some (r, sent ++ rest)

-- A round of the inner loop, on the result of `resolve`.
abbrev pub drain_round :
    (Resolver → Outcome (Option (Resolver × List InputEvent)))
    → Bool × Resolver × List InputEvent
    → Outcome (Option (Resolver × List InputEvent))
drain_round again (false, r, sent) = ok (some (r, sent))
drain_round again (true, r, sent) = do rest ← again r; ok (sent_before sent rest)

-- `while(resolve(r));` on fuel, with what the clock reads at each round. `none` means that the fuel
-- ran out.
unfoldable pub drain : ℕ → (ℕ → Timeval) → Resolver → Outcome (Option (Resolver × List InputEvent))
drain zero clock r = ok none
drain (suc fuel) clock r = resolve (clock 0) r >>= drain_round (drain fuel (λ k. clock (k + 1)))

-- What the loop keeps for one grab: its resolver, and the deduper that all grabs share.
pub record Served : Type 0 where
  pub resolver : Resolver
  pub deduper : SendDedup
  -- the events passed to the application, in order
  pub out : List InputEvent

abbrev pub served_as : Resolver → SendDedup × List InputEvent → Outcome (Option Served)
served_as r (d, out) = ok (some (record { resolver = r; deduper = d; out = out }))

abbrev pub send_drained : SendDedup → Option (Resolver × List InputEvent) → Outcome (Option Served)
send_drained d none = ok none
send_drained d (some (r, sent)) = send_all d sent >>= served_as r

-- The event is queued, unless `resolve_dedup_input` said no, and the queue is worked off. A round of
-- that loop takes an event off the queue, so `urmax + 1` rounds are enough.
unfoldable pub queue_event :
    (ℕ → Timeval) → SendDedup → InputEvent → Bool × Resolver → Outcome (Option Served)
unfolding enqueue
queue_event clock d ev (false, r) = ok (some (record { resolver = r; deduper = d; out = [] }))
queue_event clock d ev (true, r) =
    if r.ur_len == urmax
    then halt (exit_with 1)
    else drain (urmax + 1) clock (enqueue r ev) >>= send_drained d

-- The loop's body for an event read from a keyboard.
unfoldable pub recv_event :
    (ℕ → Timeval) → Resolver → SendDedup → InputEvent → Outcome (Option Served)
unfolding resolve_dedup_input queue_event
recv_event clock r d ev = resolve_dedup_input r ev >>= queue_event clock d ev
