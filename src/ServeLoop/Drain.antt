-- ===== src/ServeLoop/Drain.antt =====
-- The inner loop of `serve_loop`: it ends, and it takes events off the queue in order.
use keytap.Base.{
  sym, ◌∙◌, append-nil, ap, ℕ, zero, suc, ◌+◌, ◌<◌, ◌≤◌, ◌≡◌, inl, inr, arith, true, false, Outcome,
  ok, halt, ◌>>=◌, List, [], ◌∷◌, ◌++◌, Option, some, none, length, ap,
}
use keytap.TimeUtil.{Timeval}
use keytap.Input.{InputEvent}
use keytap.Resolver.{ur_at, Resolver}
use keytap.Resolver.Steps.{Resolved}
use keytap.Resolver.Ring.{
  IsValid, pending, StaysValid, resolve-StaysValid, QueueStep, resolve_queue,
}
use keytap.ServeLoop.{drain_round, drain, sent_before}

-- What the loop leaves: a valid queue, whose oldest events may have gone, and whose newest may have.
pub record Drained (r r' : Resolver) : Type 0 where
  pub valid : IsValid r'
  pub taken : List InputEvent
  pub early : List InputEvent
  pub split : pending r ≡ taken ++ (pending r' ++ early)
  pub at_most_one : length early ≤ 1

abbrev pub DrainsTo : Resolver → Outcome (Option (Resolver × List InputEvent)) → Type 0
DrainsTo r (ok none) = ⊥
DrainsTo r (ok (some (r', sent))) = Drained r r'
DrainsTo r (halt h) = Unit

after_resolved :
    (r r' : Resolver) (sent : List InputEvent)
    → StaysValid r (ok (true, r', sent))
    → QueueStep r (ok (true, r', sent))
    → (m : Outcome (Option (Resolver × List InputEvent))) → DrainsTo r' m
    → DrainsTo r (m >>= (λ rest. ok (sent_before sent rest)))
after_resolved r r' sent v q (halt h) d = tt
after_resolved r r' sent v q (ok none) d = absurd d
after_resolved r r' sent v q (ok (some (r'', rest))) d = record {
  valid = d.valid;
  taken = ur_at r 0 ∷ d.taken;
  early = d.early;
  split = rw q (ap (◌∷◌ (ur_at r 0)) d.split);
  at_most_one = d.at_most_one;
}

after_waiting :
    (r r' : Resolver) (sent : List InputEvent)
    → StaysValid r (ok (false, r', sent))
    → QueueStep r (ok (false, r', sent))
    → Drained r r'
after_waiting r r' sent v (inl same) = record {
  valid = v.0;
  taken = [];
  early = [];
  split = sym same ∙ sym (append-nil (pending r'));
  at_most_one = omega arith;
}
after_waiting r r' sent v (inr (value, cut)) = record {
  valid = v.0;
  taken = [];
  early = _;
  split = cut;
  at_most_one = omega arith;
}

round-DrainsTo :
    (r : Resolver) (again : Resolver → Outcome (Option (Resolver × List InputEvent)))
    → ((r' : Resolver) → IsValid r' → r'.ur_len < r.ur_len → DrainsTo r' (again r'))
    → (m : Resolved) → StaysValid r m
    → QueueStep r m
    → DrainsTo r (m >>= drain_round again)
round-DrainsTo r again ih (halt h) s q = tt
round-DrainsTo r again ih (ok (false, r', sent)) s q = after_waiting r r' sent s q
round-DrainsTo r again ih (ok (true, r', sent)) s q =
    after_resolved r r' sent s q _ (ih r' s.0 (omega arith))

-- From a valid ring, with more fuel than events wait, the loop does not run out of fuel, and if no call
-- stops the program its queue is the old one less some of the oldest
-- events and at most one of the newest.
pub drain-DrainsTo :
    (fuel : ℕ) (clock : ℕ → Timeval) (r : Resolver)
    → IsValid r
    → r.ur_len < fuel
    → DrainsTo r (drain fuel clock r)
unfolding drain
drain-DrainsTo zero clock r v h = elim h [ ]
drain-DrainsTo (suc fuel) clock r v h =
    round-DrainsTo r (drain fuel (λ k. clock (k + 1)))
      (λ r' v' less. drain-DrainsTo fuel (λ k. clock (k + 1)) r' v' (omega arith)) _
      (resolve-StaysValid (clock 0) r v) (resolve_queue (clock 0) r)
