-- ===== src/ServeLoop/Runs.antt =====
-- Whole runs of `serve_loop`.
use keytap.Base.{
  ℕ, ◌≤◌, inl, inr, Bool-cases, Outcome, ok, halt, ◌>>=◌, List, [], ◌∷◌, Option, some, none, length,
  All,
}
use keytap.KeyAction.{KeyAction}
use keytap.Devices.{max_kbs}
use keytap.App.{App, Keeps}
use keytap.ServeLoop.Keyboards.{Kbd, serve_keyboards}
use keytap.ServeLoop.Passes.{serve_keyboards-Passes, ReadInRange, IsUsable}
use keytap.ServeLoop.Reached.{resolver_init-Inv}
use keytap.ServeLoop.Rounds.{
  Loop, start_loop, Selected, interrupted, failed, ready, Next, go_on, finished, Turn, After,
  timed_out, after_app, after_select, serve_round, closed_before, next_round, next_of, serve_rounds,
}
use keytap.ServeLoop.Running.{
  GoodLoop, TurnFits, StopsSo, RoundKeeps, Fate, fate, fate_of, skipped-RoundKeeps,
  stopped-RoundKeeps, passed-RoundKeeps,
}

module _ (app : App) (keymaps : ℕ → KeyAction) where
  open app use {State, handle_select, IsGood, Stops, handle_select-Keeps}

  after_app-RoundKeeps :
      (t : Turn app) (l : Loop) (s : State)
      → GoodLoop app keymaps l s
      → TurnFits app keymaps t
      → RoundKeeps app keymaps t l
          (fate_of app ready (timed_out app t.time_left))
          (after_app app t l s)
  after_app-RoundKeeps t l s g range = elim (Bool-cases (timed_out app t.time_left)) [
    | inl over ↦ rw over (stopped-RoundKeeps app keymaps t l s 0 g)
    | inr on ↦ rw on (
        passed-RoundKeeps app keymaps t l s (serve_keyboards t.reads l.kbs l.resolvers l.deduper)
          (serve_keyboards-Passes keymaps t.reads l.kbs l.resolvers l.deduper g.resolvers g.usable
            (each l.kbs))
          g.fits g.usable range.1 g.application)
  ]
    where
      each : (ks : List Kbd) → All (λ (k : Kbd). ReadInRange (t.reads k.fd)) ks
      each [] = tt
      each (k ∷ ks) = (range.0 k.fd, each ks)

  handled-RoundKeeps :
      (t : Turn app) (l : Loop) (s : State) (m : Outcome State)
      → GoodLoop app keymaps l s
      → TurnFits app keymaps t
      → Keeps IsGood Stops m
      → RoundKeeps app keymaps t l
          (fate_of app ready (timed_out app t.time_left))
          (m >>= after_app app t l)
  handled-RoundKeeps t l s (ok s') g range v =
      after_app-RoundKeeps t l s'
        (record { resolvers = g.resolvers; usable = g.usable; fits = g.fits; application = v })
        range
  handled-RoundKeeps t l s (halt h) g range v = inr (inr v)

  -- A round in which the events read are in range and the keyboards found have filled keymaps, from a loop in order: it
  -- ends with the invariant of every resolver with a filled keymap, at most `max_kbs` keyboards, all with filled keymaps, and
  -- the application in order. Either no keyboard changed, or exactly those that are gone were
  -- closed, and those that inotify found were added as long as there was room. Or the program stops at a full
  -- ring, on a failed read from inotify, or as the application does.
  pub serve_round-RoundKeeps :
      (t : Turn app) (l : Loop) (s : State)
      → GoodLoop app keymaps l s
      → TurnFits app keymaps t
      → RoundKeeps app keymaps t l (fate app t) (serve_round app t l s)
  unfolding serve_round
  serve_round-RoundKeeps t l s g range = elim (Bool-cases t.keep_going) [
    | inl on ↦ rw on (selected t.selected)
    | inr off ↦ rw off (stopped-RoundKeeps app keymaps t l s 0 g)
  ]
    where
      selected :
          (sel : Selected)
          → RoundKeeps app keymaps t l
              (fate_of app sel (timed_out app t.time_left))
              (after_select app t l s sel)
      selected interrupted = skipped-RoundKeeps app keymaps t l s g
      selected failed = stopped-RoundKeeps app keymaps t l s 1 g
      selected ready =
          handled-RoundKeeps t l s (handle_select t.ready_fds s) g range
            (handle_select-Keeps t.ready_fds s g.application)

  -- What a run may come to.
  abbrev pub RunKeeps : Outcome (Option (After app)) → Type 0
  RunKeeps (ok (some a)) = GoodLoop app keymaps a.loop a.state
  RunKeeps (ok none) = ⊥
  RunKeeps (halt h) = StopsSo app h

  closed_before-RunKeeps :
      (before : List ℕ) (m : Outcome (Option (After app)))
      → RunKeeps m
      → RunKeeps (m >>= closed_before app before)
  closed_before-RunKeeps before (ok (some a)) v = v
  closed_before-RunKeeps before (ok none) v = absurd v
  closed_before-RunKeeps before (halt h) v = v

  next-RunKeeps :
      (t : Turn app) (l : Loop) (again : Loop → State → Outcome (Option (After app)))
      → ((l' : Loop) (s' : State) → GoodLoop app keymaps l' s' → RunKeeps (again l' s'))
      → (f : Fate) (m : Outcome (Option (After app))) → RoundKeeps app keymaps t l f m
      → RunKeeps (m >>= next_of app again)
  next-RunKeeps t l again ih f (ok (some a)) (g, kept) = goes a.next
    where
      goes : (n : Next) → RunKeeps (next_round app again a n)
      goes (finished retval) = g
      goes go_on = closed_before-RunKeeps a.closed (again a.loop a.state) (ih a.loop a.state g)
  next-RunKeeps t l again ih f (ok none) w = absurd w
  next-RunKeeps t l again ih f (halt h) w = w

  serve_rounds-RunKeeps :
      (ts : List (Turn app)) (l : Loop) (s : State)
      → GoodLoop app keymaps l s
      → All (TurnFits app keymaps) ts
      → RunKeeps (serve_rounds app ts l s)
  unfolding serve_rounds
  serve_rounds-RunKeeps [] l s g range = g
  serve_rounds-RunKeeps (t ∷ ts) l s g range =
      next-RunKeeps t l (serve_rounds app ts)
        (λ l' s' g'. serve_rounds-RunKeeps ts l' s' g' range.1) (fate app t) (serve_round app t l s)
        (serve_round-RoundKeeps t l s g range.0)

  pub start-GoodLoop :
      (kbs : List Kbd) (s : State)
      → All (IsUsable keymaps) kbs
      → length kbs ≤ max_kbs
      → IsGood s
      → GoodLoop app keymaps (start_loop keymaps kbs) s
  start-GoodLoop kbs s usable fits good = record {
    resolvers = λ g k. resolver_init-Inv (keymaps g) k;
    usable = usable;
    fits = fits;
    application = good;
  }

  -- A run of the loop from its start, over any turns of the system in which no event has the code `key_max`, with
  -- at most `max_kbs` keyboards, these and all that are found later with filled keymaps, and an application in order: no
  -- array is left, no inner loop runs for ever, and after every number of rounds the resolvers of all filled keymaps have
  -- their invariant, there are at most `max_kbs` keyboards, all with filled keymaps, and the application is in order; or the program stopped at a full ring, on a failed
  -- read from inotify, or as the application does.
  pub serve_rounds-start :
      (kbs : List Kbd) (s : State) (ts : List (Turn app))
      → All (IsUsable keymaps) kbs
      → length kbs ≤ max_kbs
      → IsGood s
      → All (TurnFits app keymaps) ts
      → RunKeeps (serve_rounds app ts (start_loop keymaps kbs) s)
  serve_rounds-start kbs s ts usable fits good range =
      serve_rounds-RunKeeps ts (start_loop keymaps kbs) s (start-GoodLoop kbs s usable fits good)
        range
