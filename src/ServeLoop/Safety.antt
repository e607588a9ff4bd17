-- ===== src/ServeLoop/Safety.antt =====
-- The loop's body returns for events in range, and keeps what the next event needs.
use keytap.Base.{
  All-append, All-append_left, zero, suc, ℕ, ◌+◌, ◌<◌, ◌≢◌, inl, inr, arith, true, false, Outcome,
  ok, halt, ◌>>=◌, List, Option, some, none, All, subst, sym,
}
use keytap.TimeUtil.{Timeval}
use keytap.Input.{InputEvent}
use keytap.Resolver.{Resolver, ur_at}
use keytap.Resolver.Steps.{Resolved, resolve}
use keytap.Resolver.Ring.{
  IsValid, pending, window_pop, StaysValid, resolve-StaysValid, QueueStep, resolve_queue,
}
use keytap.Resolver.Safety.{IsReady, InRange, ReadyAfter}
use keytap.Resolver.Returns.{resolve-ReadyAfter}
use keytap.ServeLoop.{drain, drain_round, sent_before}

-- Between two events: the ring is in bounds, the keymaps are filled, and the queued events in range.
pub record Inv (r : Resolver) : Type 0 where
  pub valid : IsValid r
  pub ready : IsReady r
  pub queued : All InRange (pending r)

oldest-InRange : (r : Resolver) → All InRange (pending r) → r.ur_len ≢ 0 → InRange (ur_at r 0)
oldest-InRange r q ne = (subst (All InRange) (window_pop r.unresolved r.ur_start r.ur_len ne) q).0

-- What `resolve` keeps, put together.
abbrev KeepsInv : Resolver → Resolved → Type 0
KeepsInv r (ok (true, r', sent)) = Inv r' × (r'.ur_len < r.ur_len) × All InRange sent
KeepsInv r (ok (false, r', sent)) = Inv r' × All InRange sent
KeepsInv r (halt h) = ⊥

keeps :
    (r : Resolver) (m : Resolved)
    → Inv r
    → StaysValid r m
    → QueueStep r m
    → ReadyAfter m
    → KeepsInv r m
keeps r (ok (true, r', sent)) v s q a = (
  record { valid = s.0; ready = a.0; queued = (subst (All InRange) q v.queued).1 },
  omega arith,
  a.1,
)
keeps r (ok (false, r', sent)) v s (inl same) a =
    (record { valid = s.0; ready = a.0; queued = subst (All InRange) (sym same) v.queued }, a.1)
keeps r (ok (false, r', sent)) v s (inr (value, cut)) a = (
  record {
    valid = s.0;
    ready = a.0;
    queued = All-append_left InRange (pending r') _ (subst (All InRange) cut v.queued);
  },
  a.1,
)
keeps r (halt h) v s q a = a

resolve-KeepsInv : (now : Timeval) (r : Resolver) → Inv r → KeepsInv r (resolve now r)
resolve-KeepsInv now r v =
    keeps r (resolve now r) v (resolve-StaysValid now r v.valid) (resolve_queue now r)
      (resolve-ReadyAfter now r v.ready (oldest-InRange r v.queued))

-- The inner loop returns, with the invariant, and sends events in range.
abbrev pub DrainReturns : Outcome (Option (Resolver × List InputEvent)) → Type 0
DrainReturns (ok (some (r, sent))) = Inv r × All InRange sent
DrainReturns (ok none) = ⊥
DrainReturns (halt h) = ⊥

after_sent :
    (sent : List InputEvent)
    → All InRange sent
    → (m : Outcome (Option (Resolver × List InputEvent))) → DrainReturns m
    → DrainReturns (m >>= (λ rest. ok (sent_before sent rest)))
after_sent sent a (ok (some (r, rest))) (v, b) = (v, All-append InRange sent rest a b)
after_sent sent a (ok none) d = d
after_sent sent a (halt h) d = d

round-DrainReturns :
    (r : Resolver) (again : Resolver → Outcome (Option (Resolver × List InputEvent)))
    → ((r' : Resolver) → Inv r' → r'.ur_len < r.ur_len → DrainReturns (again r'))
    → (m : Resolved) → KeepsInv r m
    → DrainReturns (m >>= drain_round again)
round-DrainReturns r again ih (ok (false, r', sent)) k = k
round-DrainReturns r again ih (ok (true, r', sent)) k =
    after_sent sent k.2 (again r') (ih r' k.0 k.1)
round-DrainReturns r again ih (halt h) k = k

pub drain-DrainReturns :
    (fuel : ℕ) (clock : ℕ → Timeval) (r : Resolver)
    → Inv r
    → r.ur_len < fuel
    → DrainReturns (drain fuel clock r)
unfolding drain
drain-DrainReturns zero clock r v h = elim h [ ]
drain-DrainReturns (suc fuel) clock r v h =
    round-DrainReturns r (drain fuel (λ k. clock (k + 1)))
      (λ r' v' less. drain-DrainReturns fuel (λ k. clock (k + 1)) r' v' (omega arith)) _
      (resolve-KeepsInv (clock 0) r v)
