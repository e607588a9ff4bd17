-- ===== src/Commands/Remapped.antt =====
-- `main_local` with keymaps of keys and chains of keys only, as a whole: from the events that the keyboards give to
-- those that are written to the virtual keyboard.
use keytap.Base.{
  ℕ, ◌≡◌, refl, sym, ap, ◌∙◌, subst, ◌<◌, Bool, true, false, if◌then◌else◌, Outcome, ok, halt,
  exit_with, ◌>>=◌, List, [], ◌∷◌, Option, some, none, All, arith,
}
use keytap.Input.{InputEvent, key_max}
use keytap.KeyAction.{KeyAction}
use keytap.Resolver.{resolver_init}
use keytap.Resolver.Remap.{IsPlain}
use keytap.SendDedup.{SendDedup, send_all, fresh}
use keytap.ServeLoop.Keyboards.{Kbd, serve_keyboards}
use keytap.ServeLoop.Remapping.{
  Keymaps, Holds, AtRest, remap_all, read_events, serve_keyboards-PassesAs,
}
use keytap.ServeLoop.Rounds.{
  Loop, start_loop, Selected, interrupted, failed, ready, Next, go_on, finished, Turn, After,
  timed_out, after_pass, after_select, stopped, serve_round, next_of, serve_rounds, Ending, ending,
  ended, serve_loop,
}
use keytap.ServeLoop.Running.{TurnInRange}
use keytap.Commands.Local.{local_app, LocalRun, local_ended, close_output, main_local}
use keytap.Commands.Dealing.{
  Course, ends, skips, passes, course_of, course, round_events, run_events, DealtWith, Deals,
  RoundDeals, pass-RoundDeals, nothing-DealtWith, then-Deals,
}

module _ (ms : Keymaps) (plain : (g c : ℕ) → c < key_max → IsPlain (ms g c)) where
  serve_round-RoundDeals :
      (t : Turn local_app) (l : Loop) (held : Holds) (written : List InputEvent)
      → AtRest ms held l.resolvers
      → TurnInRange local_app t
      → RoundDeals ms held l.deduper written t l (course t) (serve_round local_app t l written)
  unfolding serve_round
  serve_round-RoundDeals t l held written rest range = going t.keep_going
    where
      timed :
          (over : Bool)
          → RoundDeals ms held l.deduper written t l (course_of true ready over) (
              if over
              then stopped local_app 0 l written
              else serve_keyboards t.reads l.kbs l.resolvers l.deduper
                >>= after_pass local_app t written)
      timed true = (0, refl, refl, refl)
      timed false =
          pass-RoundDeals ms held l.deduper written t l
            (serve_keyboards t.reads l.kbs l.resolvers l.deduper)
            (serve_keyboards-PassesAs ms plain t.reads l.kbs held l.resolvers l.deduper range rest)

      selected :
          (sel : Selected)
          → RoundDeals ms held l.deduper written t l
              (course_of true sel (timed_out local_app t.time_left))
              (after_select local_app t l written sel)
      selected interrupted = (refl, refl, refl)
      selected failed = (1, refl, refl, refl)
      selected ready = timed (timed_out local_app t.time_left)

      going :
          (b : Bool)
          → RoundDeals ms held l.deduper written t l
              (course_of b t.selected (timed_out local_app t.time_left))
              (if b
                then after_select local_app t l written t.selected
                else stopped local_app 0 l written)
      going true = selected t.selected
      going false = (0, refl, refl, refl)

  -- What a run of rounds does from some state on.
  abbrev RunDeals :
      List (Turn local_app) → (Loop → List InputEvent → Outcome (Option (After local_app))) → Type 0
  RunDeals ts again =
      (l : Loop) (held : Holds) (written : List InputEvent)
      → AtRest ms held l.resolvers
      → Deals ms held l.deduper written (run_events ts l.kbs) (again l written)

  module _ (l : Loop) (held : Holds) (written : List InputEvent) (rest : AtRest ms held l.resolvers)
      (a : After local_app) (same : a.loop ≡ l) where
    AtRest-same : AtRest ms held a.loop.resolvers
    AtRest-same = subst (λ (x : Loop). AtRest ms held x.resolvers) (sym same) rest

    still_there :
        (n : Next)
        → a.state ≡ written
        → DealtWith ms held l.deduper written [] (record a { next = n })
    still_there n unchanged =
        nothing-DealtWith ms held l.deduper written (record a { next = n }) AtRest-same
          (ap (λ (x : Loop). x.deduper) same) unchanged

  next-Deals :
      (t : Turn local_app) (ts : List (Turn local_app)) (l : Loop) (held : Holds)
      (written : List InputEvent)
      (again : Loop → List InputEvent → Outcome (Option (After local_app)))
      → RunDeals ts again
      → AtRest ms held l.resolvers
      → (c : Course) (m : Outcome (Option (After local_app)))
      → RoundDeals ms held l.deduper written t l c m
      → Deals ms held l.deduper written
          (round_events c t (run_events ts) l.kbs)
          (m >>= next_of local_app again)
  unfolding remap_all
  next-Deals t ts l held written again ih rest c (ok none) h = absurd h
  next-Deals t ts l held written again ih rest c (halt x) h = h
  next-Deals t ts l held written again ih rest ends (ok (some a)) (n, e, same, unchanged) =
      rw e (still_there l held written rest a same (finished n) unchanged)
  next-Deals t ts l held written again ih rest skips (ok (some a)) (e, same, unchanged) = rw e (
      then-Deals ms held l.deduper written [] (run_events ts l.kbs) a (again a.loop a.state)
        (still_there l held written rest a same a.next unchanged)
        (subst
          (λ (x : Loop).
            Deals ms held a.loop.deduper a.state (run_events ts x.kbs) (again a.loop a.state))
          same (ih a.loop held a.state (AtRest-same l held written rest a same))))
  next-Deals t ts l held written again ih rest passes (ok (some a)) (e, same, w) = rw e (
      then-Deals ms held l.deduper written (read_events t.reads l.kbs) _ a (again a.loop a.state) w
        (subst
          (λ kbs.
            Deals ms (remap_all ms held (read_events t.reads l.kbs)).0 a.loop.deduper a.state
              (run_events ts kbs) (again a.loop a.state))
          same (ih a.loop _ a.state w.at_rest)))

  serve_rounds-Deals :
      (ts : List (Turn local_app)) (l : Loop) (held : Holds) (written : List InputEvent)
      → AtRest ms held l.resolvers
      → All (TurnInRange local_app) ts
      → Deals ms held l.deduper written (run_events ts l.kbs) (serve_rounds local_app ts l written)
  unfolding serve_rounds
  serve_rounds-Deals [] l held written rest range =
      still_there l held written rest
        (record { next = go_on; loop = l; state = written; closed = [] }) refl go_on refl
  serve_rounds-Deals (t ∷ ts) l held written rest range =
      next-Deals t ts l held written (serve_rounds local_app ts)
        (λ l' held' written' rest'. serve_rounds-Deals ts l' held' written' rest' range.1) rest
        (course t) (serve_round local_app t l written)
        (serve_round-RoundDeals t l held written rest range.0)

-- No key is held.
abbrev pub none_held : Holds
none_held g c = 0

-- The command has written what the deduper lets through of `sent`, or could not read from inotify.
abbrev pub WritesOut : List InputEvent → Outcome (Option LocalRun) → Type 0
WritesOut sent (ok none) = ⊥
WritesOut sent (ok (some r)) = (d : SendDedup) × (send_all fresh sent ≡ ok (d, r.written))
WritesOut sent (halt h) = h ≡ exit_with 3

start-AtRest : (ms : Keymaps) → AtRest ms none_held (λ g. resolver_init (KeyAction.map (ms g)))
unfolding resolver_init
start-AtRest ms g = record {
  waiting = refl;
  start_in = omega arith;
  counts = λ c. refl;
  root = refl;
  current = refl;
  releases = λ c lt. refl;
}

-- `main_local` with an output that opened, one or more keyboards, keymaps of keys and chains of keys, and no event
-- of the code `key_max`: whatever else the system gives, the program is stopped by nothing but a failed read from
-- inotify, and after any number of rounds it has written exactly what the deduper lets through of what
-- `remap_all`, which has no queue, makes of the events read.
pub main_local-WritesOut :
    (ms : Keymaps) (out_fd : ℕ) (k : Kbd) (kbs : List Kbd) (turns : List (Turn local_app))
    → ((g c : ℕ) → c < key_max → IsPlain (ms g c))
    → All (TurnInRange local_app) turns
    → WritesOut
        (remap_all ms none_held (run_events turns (k ∷ kbs))).1
        (main_local (some out_fd) (λ g. KeyAction.map (ms g)) (k ∷ kbs) turns)
unfolding main_local serve_loop
main_local-WritesOut ms out_fd k kbs turns plain range =
    of_rounds (serve_rounds local_app turns start [])
      (serve_rounds-Deals ms plain turns start none_held [] (start-AtRest ms) range)
  where
    start : Loop
    start = start_loop (λ g. KeyAction.map (ms g)) (k ∷ kbs)

    sent : List InputEvent
    sent = (remap_all ms none_held (run_events turns (k ∷ kbs))).1

    closed :
        (r : Ending local_app) (v : Option ℕ) (d : SendDedup)
        → send_all fresh sent ≡ ok (d, r.state)
        → WritesOut sent (ok (some (close_output out_fd r v)))
    closed r none d e = (d, e)
    closed r (some n) d e = (d, e)

    over :
        (a : After local_app) (n : Next) (d : SendDedup)
        → send_all fresh sent ≡ ok (d, a.state)
        → WritesOut sent (local_ended out_fd (some (ending local_app a n)))
    over a go_on d e = closed (ending local_app a go_on) none d e
    over a (finished n) d e = closed (ending local_app a (finished n)) (some n) d e

    of_rounds :
        (m : Outcome (Option (After local_app)))
        → Deals ms none_held fresh [] (run_events turns (k ∷ kbs)) m
        → WritesOut sent ((m >>= ended local_app) >>= local_ended out_fd)
    of_rounds (ok (some a)) w =
        over a a.next a.loop.deduper (w.through ∙ ap (λ x. ok (a.loop.deduper, x)) (sym w.appended))
    of_rounds (ok none) h = absurd h
    of_rounds (halt x) h = h
