-- ===== src/Commands/Writing.antt =====
-- What `main_local` writes to the virtual keyboard over a whole run.
use keytap.Base.{
  ℕ, ◌≡◌, ap, sym, ◌∙◌, append_assoc, append-nil, if-cases, Outcome, ok, halt, ◌>>=◌, List, [], ◌∷◌,
  ◌++◌, Option, some, none,
}
use keytap.Input.{InputEvent}
use keytap.SendDedup.{SendDedup}
use keytap.SendDedup.Runs.{Passed, Passed-refl, Passed-append}
use keytap.ServeLoop.Keyboards.{Kbd, Pass, serve_keyboards}
use keytap.ServeLoop.Output.{PassedThrough, serve_keyboards-PassedThrough}
use keytap.ServeLoop.Rounds.{
  Loop, Selected, interrupted, failed, ready, notify, Next, go_on, finished, Turn, After, send_out,
  timed_out, after_pass, after_select, serve_round, closed_before, next_round, next_of,
  serve_rounds,
}
use keytap.Commands.Local.{local_app}

-- After a part of the run that began with deduper `d` and these events written: what has been written since then has
-- gone through the deduper.
pub record WritesOn (d : SendDedup) (written : List InputEvent) (a : After local_app) : Type 0 where
  pub out : List InputEvent
  pub through : Passed d a.loop.deduper out
  pub appended : a.state ≡ written ++ out

abbrev pub Writes : SendDedup → List InputEvent → Outcome (Option (After local_app)) → Type 0
Writes d written (ok none) = Unit
Writes d written (ok (some a)) = WritesOn d written a
Writes d written (halt h) = Unit

pub send_out-append :
    (evs written : List InputEvent) → send_out local_app written evs ≡ written ++ evs
send_out-append [] written = sym (append-nil written)
send_out-append (ev ∷ evs) written =
    send_out-append evs (written ++ (ev ∷ [])) ∙ append_assoc written (ev ∷ []) evs

nothing-WritesOn :
    (l : Loop) (written : List InputEvent) (n : Next)
    → WritesOn l.deduper written (record { next = n; loop = l; state = written; closed = [] })
nothing-WritesOn l written n = record {
  out = [];
  through = Passed-refl l.deduper;
  appended = sym (append-nil written);
}

after_pass-Writes :
    (t : Turn local_app) (d : SendDedup) (written : List InputEvent) (m : Outcome (Option Pass))
    → PassedThrough d m
    → Writes d written (m >>= after_pass local_app t written)
after_pass-Writes t d written (ok none) p = tt
after_pass-Writes t d written (ok (some p)) through = noted (notify t.notified p.kbs)
  where
    noted :
        (m : Outcome (List Kbd))
        → Writes d written (
            m >>= λ kbs. ok (
              some (record {
                next = go_on;
                loop = record { kbs = kbs; resolvers = p.resolvers; deduper = p.deduper };
                state = send_out local_app written p.out;
                closed = p.closed;
              })))
    noted (ok kbs) = record {
      out = p.out;
      through = through;
      appended = send_out-append p.out written;
    }
    noted (halt h) = tt
after_pass-Writes t d written (halt h) p = tt

serve_round-Writes :
    (t : Turn local_app) (l : Loop) (written : List InputEvent)
    → Writes l.deduper written (serve_round local_app t l written)
unfolding serve_round
serve_round-Writes t l written =
    if-cases (Writes l.deduper written) t.keep_going _ _ (λ on. selected t.selected)
      (λ off. nothing-WritesOn l written (finished 0))
  where
    selected : (sel : Selected) → Writes l.deduper written (after_select local_app t l written sel)
    selected interrupted = nothing-WritesOn l written go_on
    selected failed = nothing-WritesOn l written (finished 1)
    selected ready =
        if-cases (Writes l.deduper written) (timed_out local_app t.time_left) _ _
          (λ over. nothing-WritesOn l written (finished 0))
          (λ on.
            after_pass-Writes t l.deduper written
              (serve_keyboards t.reads l.kbs l.resolvers l.deduper)
              (serve_keyboards-PassedThrough t.reads l.kbs l.resolvers l.deduper))

-- A round, and what follows it.
later-Writes :
    (d : SendDedup) (written : List InputEvent) (a : After local_app) (before : List ℕ)
    (m : Outcome (Option (After local_app)))
    → WritesOn d written a
    → Writes a.loop.deduper a.state m
    → Writes d written (m >>= closed_before local_app before)
later-Writes d written a before (ok none) w v = tt
later-Writes d written a before (ok (some b)) w v = record {
  out = w.out ++ v.out;
  through = Passed-append w.through v.through;
  appended = v.appended ∙ ap (λ x. x ++ v.out) w.appended ∙ append_assoc written w.out v.out;
}
later-Writes d written a before (halt h) w v = tt

next-Writes :
    (d : SendDedup) (written : List InputEvent)
    (again : Loop → List InputEvent → Outcome (Option (After local_app)))
    → ((l : Loop) (s : List InputEvent) → Writes l.deduper s (again l s))
    → (m : Outcome (Option (After local_app))) → Writes d written m
    → Writes d written (m >>= next_of local_app again)
next-Writes d written again ih (ok none) w = tt
next-Writes d written again ih (ok (some a)) w = goes a.next
  where
    goes : (n : Next) → Writes d written (next_round local_app again a n)
    goes (finished retval) = w
    goes go_on = later-Writes d written a a.closed (again a.loop a.state) w (ih a.loop a.state)
next-Writes d written again ih (halt h) w = tt

pub serve_rounds-Writes :
    (ts : List (Turn local_app)) (l : Loop) (written : List InputEvent)
    → Writes l.deduper written (serve_rounds local_app ts l written)
unfolding serve_rounds
serve_rounds-Writes [] l written = nothing-WritesOn l written go_on
serve_rounds-Writes (t ∷ ts) l written =
    next-Writes l.deduper written (serve_rounds local_app ts) (λ l' s. serve_rounds-Writes ts l' s)
      (serve_round local_app t l written) (serve_round-Writes t l written)
