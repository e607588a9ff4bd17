-- ===== src/ServeLoop/Remapping.antt =====
-- A pass over keyboards whose keymaps have only keys and chains of keys, next to a description of it without a
-- queue: each event in turn is made into those that are sent.
use keytap.Base.{
  ℕ, ◌<◌, ◌≡◌, refl, List, [], ◌∷◌, inl, inr, ◌++◌, if◌then◌else◌, true, false, Bool, Cells, update,
  Outcome, ok, halt, ◌>>=◌, Option, some, none, Bool-cases, ◌==◌, inl, subst, ==_iff, inr, ap, sym,
  append_assoc, Bool, append-nil, ◌∙◌,
}
use keytap.Input.{InputEvent, key_max}
use keytap.KeyAction.{KeyAction}
use keytap.Resolver.{Resolver}
use keytap.Resolver.Remap.{IsPlain, remap}
use keytap.Resolver.Plain.{Follows}
use keytap.SendDedup.{SendDedup, send_all}
use keytap.SendDedup.Runs.{send_all-append}
use keytap.ServeLoop.{Served, recv_event}
use keytap.ServeLoop.Emptying.{ServedWith, recv_event-ServedWith}
use keytap.ServeLoop.Keyboards.{
  Kbd, Read, idle, again, gone, event, Pass, received, serve_keyboard, joined, then_rest,
  serve_keyboards,
}
use keytap.ServeLoop.Passes.{ReadInRange, staying, is_gone}

-- For each grab its cells, and how often its keys are held.
abbrev pub Keymaps : Type 0
Keymaps = ℕ → ℕ → KeyAction

abbrev pub Holds : Type 0
Holds = ℕ → Cells ℕ

-- The events that a pass reads, in order, each with its grab.
abbrev pub Incoming : Type 0
Incoming = ℕ × InputEvent

abbrev pub event_of : Kbd → Read → List Incoming
event_of k (event clock ev) = (k.grab, ev) ∷ []
event_of k _ = []

abbrev pub read_events : (ℕ → Read) → List Kbd → List Incoming
read_events reads [] = []
read_events reads (k ∷ ks) = event_of k (reads k.fd) ++ read_events reads ks

-- What comes of such events when each is dealt with at once: how often the keys are held then, and what is sent.
unfoldable pub remap_all : Keymaps → Holds → List Incoming → Holds × List InputEvent
unfolding remap
remap_all ms held [] = (held, [])
remap_all ms held ((g, ev) ∷ evs) =
    let (now_held, sent) = remap (ms g) (held g) ev in
    let (at_end, rest) = remap_all ms (update held g now_held) evs in (at_end, sent ++ rest)

-- What follows some events.
abbrev pub then_remap : Keymaps → List Incoming → Holds × List InputEvent → Holds × List InputEvent
then_remap ms evs (held, sent) =
    let (at_end, rest) = remap_all ms held evs in (at_end, sent ++ rest)

pub remap_all-append :
    (ms : Keymaps) (held : Holds) (evs more : List Incoming)
    → remap_all ms held (evs ++ more) ≡ then_remap ms more (remap_all ms held evs)
unfolding remap_all
remap_all-append ms held [] more = refl
remap_all-append ms held ((g, ev) ∷ evs) more =
    let (now_held, sent) = remap (ms g) (held g) ev in
    let (mid, rest) = remap_all ms (update held g now_held) evs in
    let (at_end, out) = remap_all ms mid more in
    rw (remap_all-append ms (update held g now_held) evs more)
      (ap (λ (all : List InputEvent). (at_end, all)) (sym (append_assoc sent rest out)))

-- No resolver has an event in its queue, and each has counted what its grab's keys are held.
abbrev pub AtRest : Keymaps → Holds → (ℕ → Resolver) → Type 0
AtRest ms held rs = (g : ℕ) → Follows (ms g) 0 (held g) (held g) (rs g)

-- The pass came to its end with resolvers at rest and these keyboards, and passed on what the deduper lets through of
-- `sent`.
abbrev pub PassesAs :
    Keymaps → SendDedup → List Kbd → Holds × List InputEvent → Outcome (Option Pass) → Type 0
PassesAs ms d kbs (held, sent) (ok (some p)) =
    AtRest ms held p.resolvers × (p.kbs ≡ kbs) × (send_all d sent ≡ ok (p.deduper, p.out))
PassesAs ms d kbs res (ok none) = ⊥
PassesAs ms d kbs res (halt h) = ⊥

module _ (ms : Keymaps) (plain : (g c : ℕ) → c < key_max → IsPlain (ms g c)) where
  AtRest-update :
      (held : Holds) (rs : ℕ → Resolver) (g : ℕ) (h : Cells ℕ) (r : Resolver)
      → AtRest ms held rs
      → Follows (ms g) 0 h h r
      → AtRest ms (update held g h) (update rs g r)
  AtRest-update held rs g h r rest f i = elim (Bool-cases (g == i)) [
    | inl here ↦ rw here (subst (λ j. Follows (ms j) 0 h h r) ((==_iff _ _).0 here) f)
    | inr other ↦ rw other (rest i)
  ]

  read-PassesAs :
      (k : Kbd) (read : Read) (held : Holds) (rs : ℕ → Resolver) (d : SendDedup)
      → ReadInRange read
      → AtRest ms held rs
      → PassesAs ms d
          (if is_gone read then [] else k ∷ [])
          (remap_all ms held (event_of k read))
          (serve_keyboard read k rs d)
  unfolding serve_keyboard send_all remap_all
  read-PassesAs k idle held rs d range rest = (rest, refl, refl)
  read-PassesAs k again held rs d range rest = (rest, refl, refl)
  read-PassesAs k gone held rs d range rest = (rest, refl, refl)
  read-PassesAs k (event clock ev) held rs d range rest =
      of_served (recv_event clock (rs k.grab) d ev) (
        recv_event-ServedWith (ms k.grab) (plain k.grab) (held k.grab) ev range clock (rs k.grab) d
          (rest k.grab))
    where
      of_served :
          (x : Outcome (Option Served))
          → ServedWith
              (ms k.grab)
              (remap (ms k.grab) (held k.grab) ev).0
              (remap (ms k.grab) (held k.grab) ev).1
              d
              x
          → PassesAs ms d (k ∷ []) (remap_all ms held ((k.grab, ev) ∷ [])) (x >>= received k rs)
      of_served (ok (some s)) (f, e) = (
        AtRest-update held rs k.grab (remap (ms k.grab) (held k.grab) ev).0 s.resolver rest f,
        refl,
        ap (send_all d) (append-nil (remap (ms k.grab) (held k.grab) ev).1) ∙ e,
      )
      of_served (ok none) h = absurd h
      of_served (halt x) h = absurd h

  joined-PassesAs :
      (d : SendDedup) (sent : List InputEvent) (p : Pass) (kbs : List Kbd)
      (res : Holds × List InputEvent) (x : Outcome (Option Pass))
      → send_all d sent ≡ ok (p.deduper, p.out)
      → PassesAs ms p.deduper kbs res x
      → PassesAs ms d (p.kbs ++ kbs) (res.0, sent ++ res.1) (x >>= joined p)
  joined-PassesAs d sent p kbs (held, rest) (ok (some q)) e (at_rest, same, e') = (
    at_rest,
    ap (λ ks. p.kbs ++ ks) same,
    send_all-append sent rest d p.deduper q.deduper p.out q.out e e',
  )
  joined-PassesAs d sent p kbs res (ok none) e h = absurd h
  joined-PassesAs d sent p kbs res (halt x) e h = absurd h

  then-PassesAs :
      (d : SendDedup) (kbs kbs' : List Kbd) (held : Holds) (evs more : List Incoming)
      (rest : (ℕ → Resolver) → SendDedup → Outcome (Option Pass)) (x : Outcome (Option Pass))
      → ((h : Holds) (rs : ℕ → Resolver) (d' : SendDedup)
          → AtRest ms h rs
          → PassesAs ms d' kbs' (remap_all ms h more) (rest rs d'))
      → PassesAs ms d kbs (remap_all ms held evs) x
      → PassesAs ms d (kbs ++ kbs') (remap_all ms held (evs ++ more)) (x >>= then_rest rest)
  then-PassesAs d kbs kbs' held evs more rest (ok (some p)) ih (at_rest, same, e) =
      rw (remap_all-append ms held evs more) (
        rw (sym same) (
          joined-PassesAs d (remap_all ms held evs).1 p kbs'
            (remap_all ms (remap_all ms held evs).0 more) (rest p.resolvers p.deduper) e
            (ih (remap_all ms held evs).0 p.resolvers p.deduper at_rest)))
  then-PassesAs d kbs kbs' held evs more rest (ok none) ih h = absurd h
  then-PassesAs d kbs kbs' held evs more rest (halt x) ih h = absurd h

  -- A pass over the keyboards, from resolvers without queued events, with keymaps of keys and chains of keys only
  -- and events in range: it does not stop the program, leaves no event waiting, and the application gets what the
  -- deduper lets through of what `remap_all` makes of the events read.
  pub serve_keyboards-PassesAs :
      (reads : ℕ → Read) (ks : List Kbd) (held : Holds) (rs : ℕ → Resolver) (d : SendDedup)
      → ((fd : ℕ) → ReadInRange (reads fd))
      → AtRest ms held rs
      → PassesAs ms d
          (staying reads ks)
          (remap_all ms held (read_events reads ks))
          (serve_keyboards reads ks rs d)
  unfolding serve_keyboards send_all remap_all
  serve_keyboards-PassesAs reads [] held rs d range rest = (rest, refl, refl)
  serve_keyboards-PassesAs reads (k ∷ ks) held rs d range rest =
      subst
        (λ kbs.
          PassesAs ms d kbs (remap_all ms held (read_events reads (k ∷ ks)))
            (serve_keyboards reads (k ∷ ks) rs d))
        (with_head (is_gone (reads k.fd)))
        (then-PassesAs d _ (staying reads ks) held (event_of k (reads k.fd)) (read_events reads ks)
          (serve_keyboards reads ks) (serve_keyboard (reads k.fd) k rs d)
          (λ h rs' d' r. serve_keyboards-PassesAs reads ks h rs' d' range r)
          (read-PassesAs k (reads k.fd) held rs d (range k.fd) rest))
    where
      with_head :
          (b : Bool)
          → (if b then [] else k ∷ []) ++ staying reads ks
            ≡ (if b then staying reads ks else k ∷ staying reads ks)
      with_head true = refl
      with_head false = refl
