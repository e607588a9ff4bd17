-- ===== src/Commands/Dealing.antt =====
-- A round of the loop of `main_local` with keymaps of keys and chains of keys only: which events it reads, and what
-- comes of them.
use keytap.Base.{
  ℕ, ◌≡◌, refl, sym, ap, ◌∙◌, append-nil, append_assoc, Bool, true, false, Outcome, ok, halt,
  exit_with, ◌>>=◌, List, [], ◌∷◌, ◌++◌, Option, some, none,
}
use keytap.Input.{InputEvent}
use keytap.SendDedup.{SendDedup, send_all}
use keytap.SendDedup.Runs.{send_all-append}
use keytap.ServeLoop.Keyboards.{Kbd, Pass}
use keytap.ServeLoop.Passes.{staying}
use keytap.ServeLoop.Remapping.{
  Keymaps, Holds, Incoming, AtRest, remap_all, remap_all-append, read_events, PassesAs,
}
use keytap.ServeLoop.Rounds.{
  Loop, Selected, interrupted, failed, ready, Notified, quiet, broken, found, add_found, notify,
  go_on, finished, Turn, After, timed_out, after_pass, closed_before, send_out,
}
use keytap.Commands.Local.{local_app}
use keytap.Commands.Writing.{send_out-append}

-- What a round does: it is the last one, `select` was interrupted, or it passes over the keyboards.
pub data Course : Type 0 where
  ends skips passes : Course

abbrev pub course_of : Bool → Selected → Bool → Course
course_of false sel over = ends
course_of true interrupted over = skips
course_of true failed over = ends
course_of true ready true = ends
course_of true ready false = passes

abbrev pub course : Turn local_app → Course
course t = course_of t.keep_going t.selected (timed_out local_app t.time_left)

-- The keyboards after a pass, if inotify could be read.
abbrev pub kbs_after : Notified → List Kbd → List Kbd
kbs_after (found os) kbs = add_found os kbs
kbs_after _ kbs = kbs

abbrev pub round_events :
    Course → Turn local_app → (List Kbd → List Incoming) → List Kbd → List Incoming
round_events ends t later kbs = []
round_events skips t later kbs = later kbs
round_events passes t later kbs =
    read_events t.reads kbs ++ later (kbs_after t.notified (staying t.reads kbs))

-- The events that the keyboards give in a run.
abbrev pub run_events : List (Turn local_app) → List Kbd → List Incoming
run_events [] kbs = []
run_events (t ∷ ts) kbs = round_events (course t) t (run_events ts) kbs

-- The loop has dealt with these events since it was at `held`, `d` and `written`.
pub record DealtWith (ms : Keymaps) (held : Holds) (d : SendDedup) (written : List InputEvent)
    (evs : List Incoming) (a : After local_app) : Type 0 where
  pub out : List InputEvent
  pub through : send_all d (remap_all ms held evs).1 ≡ ok (a.loop.deduper, out)
  pub appended : a.state ≡ written ++ out
  pub at_rest : AtRest ms (remap_all ms held evs).0 a.loop.resolvers

module _ (ms : Keymaps) (held : Holds) (d : SendDedup) (written : List InputEvent) where
  abbrev pub Deals : List Incoming → Outcome (Option (After local_app)) → Type 0
  Deals evs (ok (some a)) = DealtWith ms held d written evs a
  Deals evs (ok none) = ⊥
  Deals evs (halt h) = h ≡ exit_with 3

  -- A round, as its course says.
  abbrev pub RoundDeals :
      Turn local_app → Loop → Course → Outcome (Option (After local_app)) → Type 0
  RoundDeals t l c (ok none) = ⊥
  RoundDeals t l c (halt h) = h ≡ exit_with 3
  RoundDeals t l ends (ok (some a)) =
      (n : ℕ) × (a.next ≡ finished n) × (a.loop ≡ l) × (a.state ≡ written)
  RoundDeals t l skips (ok (some a)) = (a.next ≡ go_on) × (a.loop ≡ l) × (a.state ≡ written)
  RoundDeals t l passes (ok (some a)) =
      (a.next ≡ go_on)
      × (a.loop.kbs ≡ kbs_after t.notified (staying t.reads l.kbs))
      × DealtWith ms held d written (read_events t.reads l.kbs) a

  pub pass-RoundDeals :
      (t : Turn local_app) (l : Loop) (m : Outcome (Option Pass))
      → PassesAs ms d (staying t.reads l.kbs) (remap_all ms held (read_events t.reads l.kbs)) m
      → RoundDeals t l passes (m >>= after_pass local_app t written)
  unfolding notify
  pass-RoundDeals t l (ok (some p)) (rest, same, e) = noted t.notified refl
    where
      at_notice :
          (n : Notified)
          → n ≡ t.notified
          → kbs_after n (staying t.reads l.kbs) ≡ kbs_after t.notified (staying t.reads l.kbs)
      at_notice n same_n = ap (λ x. kbs_after x (staying t.reads l.kbs)) same_n

      dealt :
          (kbs : List Kbd)
          → DealtWith ms held d written (read_events t.reads l.kbs) (record {
            next = go_on;
            loop = record { kbs = kbs; resolvers = p.resolvers; deduper = p.deduper };
            state = send_out local_app written p.out;
            closed = p.closed;
          })
      dealt kbs = record {
        out = p.out;
        through = e;
        appended = send_out-append p.out written;
        at_rest = rest;
      }

      noted :
          (n : Notified)
          → n ≡ t.notified
          → RoundDeals t l passes (
              notify n p.kbs >>= λ kbs. ok (
                some (record {
                  next = go_on;
                  loop = record { kbs = kbs; resolvers = p.resolvers; deduper = p.deduper };
                  state = send_out local_app written p.out;
                  closed = p.closed;
                })))
      noted quiet n = (refl, same ∙ at_notice quiet n, dealt p.kbs)
      noted (found os) n =
          (refl, ap (add_found os) same ∙ at_notice (found os) n, dealt (add_found os p.kbs))
      noted broken n = refl
  pass-RoundDeals t l (ok none) h = absurd h
  pass-RoundDeals t l (halt x) h = absurd h

  pub nothing-DealtWith :
      (a : After local_app)
      → AtRest ms held a.loop.resolvers
      → a.loop.deduper ≡ d
      → a.state ≡ written
      → DealtWith ms held d written [] a
  unfolding remap_all send_all
  nothing-DealtWith a rest same unchanged = record {
    out = [];
    through = ap (λ x. ok (x, [])) (sym same);
    appended = unchanged ∙ sym (append-nil written);
    at_rest = rest;
  }

-- What comes later goes on from what a round has left.
pub then-Deals :
    (ms : Keymaps) (held : Holds) (d : SendDedup) (written : List InputEvent)
    (evs more : List Incoming) (a : After local_app) (m : Outcome (Option (After local_app)))
    → DealtWith ms held d written evs a
    → Deals ms (remap_all ms held evs).0 a.loop.deduper a.state more m
    → Deals ms held d written (evs ++ more) (m >>= closed_before local_app a.closed)
then-Deals ms held d written evs more a (ok (some b)) w v = record {
  out = w.out ++ v.out;
  through = rw (remap_all-append ms held evs more) (
      send_all-append (remap_all ms held evs).1 (remap_all ms (remap_all ms held evs).0 more).1 d
        a.loop.deduper b.loop.deduper w.out v.out w.through v.through);
  appended = v.appended ∙ ap (λ x. x ++ v.out) w.appended ∙ append_assoc written w.out v.out;
  at_rest = rw (remap_all-append ms held evs more) v.at_rest;
}
then-Deals ms held d written evs more a (ok none) w h = absurd h
then-Deals ms held d written evs more a (halt x) w h = h
