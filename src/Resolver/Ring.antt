-- ===== src/Resolver/Ring.antt =====
-- The ring `unresolved` as a queue: which events wait, and what `resolve` does to them.
use keytap.Base.{
  Bool-cases, ◌==◌, ◌>>=◌, ℕ, zero, suc, ◌+◌, ◌-◌, ◌%◌, ◌<◌, ◌≤◌, ◌≡◌, ◌⊎◌, inl, inr, refl, ap, ap₂,
  arith, Bool, true, false, List, [], ◌∷◌, ◌++◌, Cells, ok, halt, pos, ◌≢◌, ◌∙◌,
}
use keytap.TimeUtil.{Timeval}
use keytap.Input.{InputEvent}
use keytap.Resolver.{Resolver, urmax, ur_at}
use keytap.Resolver.Steps.{Resolved, resolve, finish_resolve, release_early}
use keytap.Resolver.Frame.{Frame, Keeps, resolve_start-Keeps}

-- The `n` events from index `s` on, going round at `urmax`.
abbrev pub window : Cells InputEvent → ℕ → ℕ → List InputEvent
window u s zero = []
window u s (suc n) = u (s % urmax) ∷ window u (s + 1) n

-- The events that wait, oldest first.
abbrev pub pending : Resolver → List InputEvent
pending r = window r.unresolved r.ur_start r.ur_len

pub record IsValid (r : Resolver) : Type 0 where
  pub fits : r.ur_len ≤ urmax
  pub start_in : r.ur_start < urmax

suc-sub-one : (n : ℕ) → suc n - 1 ≡ n
suc-sub-one n = omega arith

window-mod :
    (u : Cells InputEvent) (n s t : ℕ) → s % urmax ≡ t % urmax → window u s n ≡ window u t n
window-mod u zero s t e = refl
window-mod u (suc n) s t e = ap₂ ◌∷◌ (ap u e) (window-mod u n (s + 1) (t + 1) (omega arith))

pub window_snoc :
    (u : Cells InputEvent) (n s : ℕ)
    → window u s (suc n) ≡ window u s n ++ (u ((s + n) % urmax) ∷ [])
window_snoc u zero s = ap (λ k. u (k % urmax) ∷ []) (omega arith)
window_snoc u (suc n) s =
    ap (◌∷◌ (u (s % urmax)))
      (window_snoc u n (s + 1) ∙ ap (λ k. window u (s + 1) n ++ (u (k % urmax) ∷ [])) (omega arith))

-- The oldest event of a queue that is not empty, and the newest.
pub window_pop :
    (u : Cells InputEvent) (s n : ℕ)
    → n ≢ 0
    → window u s n ≡ u ((s + 0) % urmax) ∷ window u ((s + 1) % urmax) (n - 1)
window_pop u s zero h = absurd (h refl)
window_pop u s (suc n) h = rw (suc-sub-one n) (
    ap₂ ◌∷◌ (ap (λ k. u (k % urmax)) (omega arith))
      (window-mod u n (s + 1) ((s + 1) % urmax) (omega arith)))

window_last :
    (u : Cells InputEvent) (s n : ℕ)
    → n ≢ 0
    → window u s n ≡ window u s (n - 1) ++ (u ((s + (n - 1)) % urmax) ∷ [])
window_last u s zero h = absurd (h refl)
window_last u s (suc n) h = rw (suc-sub-one n) (window_snoc u n s)

-- What `resolve` may do to the queue. A resolved event was the oldest, and leaves it; otherwise the
-- queue stays, or its newest event, with value 0, has left it.
abbrev pub QueueStep : Resolver → Resolved → Type 0
QueueStep r (ok (true, r', sent)) = pending r ≡ ur_at r 0 ∷ pending r'
QueueStep r (ok (false, r', sent)) =
    (pending r' ≡ pending r)
    ⊎ (((ur_at r (r.ur_len - 1)).value ≡ pos 0)
        × (pending r ≡ pending r' ++ (ur_at r (r.ur_len - 1) ∷ [])))
QueueStep r (halt h) = Unit

release_early-QueueStep :
    {r r' : Resolver} (sent : List InputEvent)
    → Frame r r'
    → r.ur_len ≢ 0
    → QueueStep r (ok (finish_resolve (false, r', sent)))
unfolding finish_resolve release_early
release_early-QueueStep {r} {r'} sent f ne =
    ground (arith, window_last r.unresolved r.ur_start r.ur_len ne)

finish_resolve-QueueStep :
    {r r' : Resolver} (b : Bool) (sent : List InputEvent)
    → Frame r r'
    → r.ur_len ≢ 0
    → QueueStep r (ok (finish_resolve (b, r', sent)))
unfolding finish_resolve
finish_resolve-QueueStep {r} {r'} true sent f ne =
    ground (arith, window_pop r.unresolved r.ur_start r.ur_len ne)
finish_resolve-QueueStep false sent f ne = release_early-QueueStep sent f ne

of_oldest :
    (r : Resolver) (m : Resolved)
    → Keeps r m
    → r.ur_len ≢ 0
    → QueueStep r (m >>= (λ res. ok (finish_resolve res)))
of_oldest r (ok (b, r', sent)) k ne = finish_resolve-QueueStep b sent k ne
of_oldest r (halt h) k ne = tt

-- `resolve` takes the oldest event off the queue when it returns true. When it returns false it
-- leaves the queue as it is, or takes off the newest event, which then has value 0.
pub resolve_queue : (now : Timeval) (r : Resolver) → QueueStep r (resolve now r)
unfolding resolve
resolve_queue now r = elim (Bool-cases (r.ur_len == 0)) [
  | inl empty ↦ rw empty (inl refl)
  | inr some ↦ rw some (of_oldest r _ (resolve_start-Keeps now r) (ground arith))
]

-- The queue stays within the ring, and loses an event whenever `resolve` returns true.
abbrev pub StaysValid : Resolver → Resolved → Type 0
StaysValid r (ok (true, r', sent)) = IsValid r' × (suc r'.ur_len ≡ r.ur_len)
StaysValid r (ok (false, r', sent)) = IsValid r' × (r'.ur_len ≤ r.ur_len)
StaysValid r (halt h) = Unit

of_oldest-StaysValid :
    (r : Resolver) (m : Resolved)
    → Keeps r m
    → r.ur_len ≢ 0
    → IsValid r
    → StaysValid r (m >>= (λ res. ok (finish_resolve res)))
unfolding finish_resolve release_early
of_oldest-StaysValid r (ok (true, r', sent)) k ne v = ground arith
of_oldest-StaysValid r (ok (false, r', sent)) k ne v = ground arith
of_oldest-StaysValid r (halt h) k ne v = tt

pub resolve-StaysValid : (now : Timeval) (r : Resolver) → IsValid r → StaysValid r (resolve now r)
unfolding resolve
resolve-StaysValid now r v = elim (Bool-cases (r.ur_len == 0)) [
  | inl empty ↦ rw empty (v, omega arith)
  | inr some ↦ rw some (of_oldest-StaysValid r _ (resolve_start-Keeps now r) (ground arith) v)
]
