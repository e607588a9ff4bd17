-- ===== src/ServeLoop/Ledger.antt =====
-- The descriptors of the keyboards over a whole run of `serve_loop`: how often each is opened and closed.
use keytap.Base.{
  ℕ, ◌+◌, ◌≤◌, ◌≡◌, ◌∙◌, subst, arith, Outcome, ok, halt, ◌>>=◌, List, [], ◌∷◌, ◌++◌, Option, some,
  none, length, All,
}
use keytap.KeyAction.{KeyAction}
use keytap.Devices.{max_kbs}
use keytap.App.{App}
use keytap.ServeLoop.Keyboards.{Kbd}
use keytap.ServeLoop.Passes.{IsUsable, staying}
use keytap.ServeLoop.Rounds.{
  Loop, start_loop, Next, go_on, finished, Turn, After, closed_before, next_of, serve_rounds,
  serve_round, Ending, ending, ended, serve_loop,
}
use keytap.ServeLoop.Running.{
  GoodLoop, TurnFits, StopsSo, RoundKeeps, Fate, serves, skips, ends, fate, new_kbs,
}
use keytap.ServeLoop.Runs.{serve_round-RoundKeeps, start-GoodLoop}
use keytap.ServeLoop.Descriptors.{fds, occurs, occurs-append, occurs-fds, leaving-staying, Closed}

module _ (app : App) where
  open app use {State, IsGood}

  abbrev pub then_added : Turn app → (List Kbd → List Kbd) → List Kbd → Fate → List Kbd
  then_added t rest kbs serves =
      new_kbs app t kbs ++ rest (staying t.reads kbs ++ new_kbs app t kbs)
  then_added t rest kbs skips = rest kbs
  then_added t rest kbs ends = []

  -- The keyboards that inotify adds in a run: in each round that comes to inotify those found, while there is room.
  abbrev pub additions : List (Turn app) → List Kbd → List Kbd
  additions [] kbs = []
  additions (t ∷ ts) kbs = then_added t (additions ts) kbs (fate app t)

  -- Of the keyboards there were and those that were added, all that are gone were closed, and no other.
  abbrev Accounts : List Kbd → List Kbd → List Kbd → List ℕ → Type 0
  Accounts before added kbs closed =
      (fd : ℕ)
      → occurs fd closed + occurs fd (fds kbs) ≡ occurs fd (fds before) + occurs fd (fds added)

  abbrev AccountsFor : List Kbd → List Kbd → Outcome (Option (After app)) → Type 0
  AccountsFor before added (ok none) = ⊥
  AccountsFor before added (ok (some a)) = Accounts before added a.loop.kbs a.closed
  AccountsFor before added (halt h) = StopsSo app h

  -- What was closed before the rest of the run.
  closed_before-AccountsFor :
      (before mid added more : List Kbd) (closed : List ℕ) (m : Outcome (Option (After app)))
      → Accounts before added mid closed
      → AccountsFor mid more m
      → AccountsFor before (added ++ more) (m >>= closed_before app closed)
  closed_before-AccountsFor before mid added more closed (ok none) p h = absurd h
  closed_before-AccountsFor before mid added more closed (halt x) p h = h
  closed_before-AccountsFor before mid added more closed (ok (some b)) p h =
      λ fd. omega (arith, p fd, h fd, occurs-append fd closed b.closed, occurs-fds fd added more)

  module _ (keymaps : ℕ → KeyAction) where
    next-AccountsFor :
        (t : Turn app) (l : Loop) (rest : List Kbd → List Kbd)
        (again : Loop → State → Outcome (Option (After app)))
        → ((l' : Loop) (s : State)
            → GoodLoop app keymaps l' s
            → AccountsFor l'.kbs (rest l'.kbs) (again l' s))
        → (f : Fate) (m : Outcome (Option (After app))) → RoundKeeps app keymaps t l f m
        → AccountsFor l.kbs (then_added t rest l.kbs f) (m >>= next_of app again)
    next-AccountsFor t l rest again ih f (ok none) h = absurd h
    next-AccountsFor t l rest again ih f (halt x) h = h
    next-AccountsFor t l rest again ih serves (ok (some a)) (good, (on, now, closed)) = rw on (
        closed_before-AccountsFor l.kbs a.loop.kbs (new_kbs app t l.kbs) _ a.closed
          (again a.loop a.state)
          (λ fd. rw now (
            rw closed (
              omega (
                arith,
                occurs-fds fd (staying t.reads l.kbs) (new_kbs app t l.kbs),
                leaving-staying fd t.reads l.kbs,
              ))))
          (subst (λ ks. AccountsFor a.loop.kbs (rest ks) (again a.loop a.state)) now
            (ih a.loop a.state good)))
    next-AccountsFor t l rest again ih skips (ok (some a)) (good, (on, same, closed)) = rw on (
        closed_before-AccountsFor l.kbs a.loop.kbs [] _ a.closed (again a.loop a.state)
          (λ fd. rw same (rw closed (omega arith)))
          (subst (λ ks. AccountsFor a.loop.kbs (rest ks) (again a.loop a.state)) same
            (ih a.loop a.state good)))
    next-AccountsFor t l rest again ih ends (ok (some a)) (good, ((n, over), same, closed)) =
        rw over (λ fd. rw same (rw closed (omega arith)))

    serve_rounds-AccountsFor :
        (ts : List (Turn app)) (l : Loop) (s : State)
        → GoodLoop app keymaps l s
        → All (TurnFits app keymaps) ts
        → AccountsFor l.kbs (additions ts l.kbs) (serve_rounds app ts l s)
    unfolding serve_rounds
    serve_rounds-AccountsFor [] l s good range = λ fd. omega arith
    serve_rounds-AccountsFor (t ∷ ts) l s good range =
        next-AccountsFor t l (additions ts) (serve_rounds app ts)
          (λ l' s' g. serve_rounds-AccountsFor ts l' s' g range.1) (fate app t)
          (serve_round app t l s) (serve_round-RoundKeeps app keymaps t l s good range.0)

    -- Without keyboards the loop does not begin.
    abbrev pub added_by : List Kbd → List (Turn app) → List Kbd
    added_by [] ts = []
    added_by (k ∷ ks) ts = additions ts (k ∷ ks)

    abbrev pub ClosesAll : List Kbd → List (Turn app) → Outcome (Option (Ending app)) → Type 0
    ClosesAll kbs ts (ok none) = ⊥
    ClosesAll kbs ts (ok (some r)) = Closed r.retval r.closed (fds kbs) (fds (added_by kbs ts))
    ClosesAll kbs ts (halt h) = StopsSo app h

    ended-ClosesAll :
        (k : Kbd) (ks : List Kbd) (ts : List (Turn app)) (m : Outcome (Option (After app)))
        → AccountsFor (k ∷ ks) (additions ts (k ∷ ks)) m
        → ClosesAll (k ∷ ks) ts (m >>= ended app)
    ended-ClosesAll k ks ts (ok none) h = absurd h
    ended-ClosesAll k ks ts (halt x) h = h
    ended-ClosesAll k ks ts (ok (some a)) acc = at_end a.next
      where
        at_end : (n : Next) → ClosesAll (k ∷ ks) ts (ok (some (ending app a n)))
        at_end go_on = λ fd. omega (arith, acc fd)
        at_end (finished n) = λ fd. occurs-append fd a.closed (fds a.loop.kbs) ∙ acc fd

    -- A run of `serve_loop` with at most `max_kbs` keyboards, these and all that are found later with filled
    -- keymaps, no event with the code `key_max`, and an application in order: when it returns, each descriptor was
    -- closed exactly as often as keyboards with it were there at the start or were added, which are those that
    -- inotify found in the rounds that came to it, while there was room; while it runs, none was closed more often. Or the program stopped, at a full
    -- ring, on a failed read from inotify, or as the application does.
    pub serve_loop-ClosesAll :
        (kbs : List Kbd) (ts : List (Turn app)) (s : State)
        → All (IsUsable keymaps) kbs
        → length kbs ≤ max_kbs
        → IsGood s
        → All (TurnFits app keymaps) ts
        → ClosesAll kbs ts (serve_loop app keymaps kbs ts s)
    unfolding serve_loop
    serve_loop-ClosesAll [] ts s usable fits good range = λ fd. omega arith
    serve_loop-ClosesAll (k ∷ ks) ts s usable fits good range =
        ended-ClosesAll k ks ts (serve_rounds app ts (start_loop keymaps (k ∷ ks)) s) (
          serve_rounds-AccountsFor ts (start_loop keymaps (k ∷ ks)) s
            (start-GoodLoop app keymaps (k ∷ ks) s usable fits good) range)
