-- ===== src/ServeLoop/Running.antt =====
-- The rounds of `serve_loop`, with any application that has the laws of `App`.
use keytap.Base.{
  ℕ, ◌≤◌, ◌≡◌, ◌⊎◌, inl, inr, refl, Bool, true, false, arith, ap, sym, ◌∙◌, if◌then◌else◌, Outcome,
  ok, halt, Halt, exit_with, ◌>>=◌, List, [], ◌∷◌, ◌++◌, append-nil, Option, some, none, length,
  All,
}
use keytap.Input.{InputEvent}
use keytap.KeyAction.{KeyAction}
use keytap.Devices.{max_kbs}
use keytap.App.{App, InBound}
use keytap.App.{watch_rd, Watched}
use keytap.App.Watching.{watch_rd-InBound}
use keytap.ServeLoop.Keyboards.{Kbd, Pass}
use keytap.ServeLoop.Passes.{AllInv, IsUsable, ReadInRange, staying, leaving, Passes}
use keytap.ServeLoop.Rounds.{
  Selected, interrupted, failed, ready, timed_out, finished, Loop, Notified, quiet, broken, found,
  go_on, watch_kbs, add_found, notify, Turn, After, watched, send_out, after_pass,
}
use keytap.ServeLoop.Adding.{
  accepted, found_by, FoundUsable, staying-Usable, add_found-accepted, length-staying,
  add_found-Usable, length-add_found,
}

watch_kbs-InBound : (ks : List Kbd) (w : Watched) → InBound w → InBound (watch_kbs ks w)
watch_kbs-InBound [] w h = h
watch_kbs-InBound (k ∷ ks) w h = watch_kbs-InBound ks (watch_rd k.fd w) (watch_rd-InBound k.fd w h)

-- What a round does with the keyboards.
pub data Fate : Type 0 where
  serves skips ends : Fate

module _ (app : App) where
  open app use {State, send, IsGood, Stops, send-IsGood, prep_select, prep_select-InBound}

  -- Whatever is watched is not above the greatest descriptor, which `select` is told: inotify, every keyboard and
  -- all that the application watches.
  pub watched-InBound : (s : State) (inot : ℕ) (l : Loop) → InBound (watched app s inot l)
  watched-InBound s inot l =
      watch_kbs-InBound l.kbs (watch_rd inot (prep_select s))
        (watch_rd-InBound inot (prep_select s) (prep_select-InBound s))

  abbrev pub TurnInRange : Turn app → Type 0
  TurnInRange t = (fd : ℕ) → ReadInRange (t.reads fd)

  -- How the loop may stop the program: at a full ring, on a failed read from inotify, or as the application does.
  abbrev pub StopsSo : Halt → Type 0
  StopsSo h = (h ≡ exit_with 1) ⊎ (h ≡ exit_with 3) ⊎ Stops h

  -- What becomes of a round: it comes to the keyboards and inotify, it goes round without them, or the loop ends.
  abbrev pub fate_of : Selected → Bool → Fate
  fate_of interrupted late = skips
  fate_of failed late = ends
  fate_of ready true = ends
  fate_of ready false = serves

  abbrev pub fate : Turn app → Fate
  fate t = if t.keep_going then fate_of t.selected (timed_out app t.time_left) else ends

  -- The keyboards that inotify adds in a round that comes to it.
  abbrev pub new_kbs : Turn app → List Kbd → List Kbd
  new_kbs t kbs = accepted (found_by t.notified) (length (staying t.reads kbs))

  -- The keyboards after a round, and those closed: nothing changed, or those that are gone were closed and those found were
  -- added.
  abbrev pub Kept : Turn app → Loop → After app → Fate → Type 0
  Kept t l a serves =
      (a.next ≡ go_on)
      × (a.loop.kbs ≡ staying t.reads l.kbs ++ new_kbs t l.kbs)
      × (a.closed ≡ leaving t.reads l.kbs)
  Kept t l a skips = (a.next ≡ go_on) × (a.loop.kbs ≡ l.kbs) × (a.closed ≡ [])
  Kept t l a ends = ((n : ℕ) × (a.next ≡ finished n)) × (a.loop.kbs ≡ l.kbs) × (a.closed ≡ [])

  send_out-IsGood : (evs : List InputEvent) (s : State) → IsGood s → IsGood (send_out app s evs)
  send_out-IsGood [] s g = g
  send_out-IsGood (ev ∷ evs) s g = send_out-IsGood evs (send s ev) (send-IsGood s ev g)

  module _ (keymaps : ℕ → KeyAction) where
    -- The resolvers of filled keymaps have their invariants, the keyboards have such keymaps and fit their array, and the
    -- application is in order.
    pub record GoodLoop (l : Loop) (s : State) : Type 0 where
      pub resolvers : AllInv keymaps l.resolvers
      pub usable : All (IsUsable keymaps) l.kbs
      pub fits : length l.kbs ≤ max_kbs
      pub application : IsGood s

    -- A turn that reads no event with the code `key_max`, and finds only keyboards whose grabs have filled keymaps.
    abbrev pub TurnFits : Turn app → Type 0
    TurnFits t = TurnInRange t × All (FoundUsable keymaps) (found_by t.notified)

    abbrev pub RoundKeeps : Turn app → Loop → Fate → Outcome (Option (After app)) → Type 0
    RoundKeeps t l f (ok (some a)) = GoodLoop a.loop a.state × Kept t l a f
    RoundKeeps t l f (ok none) = ⊥
    RoundKeeps t l f (halt h) = StopsSo h

    pub skipped-RoundKeeps :
        (t : Turn app) (l : Loop) (s : State)
        → GoodLoop l s
        → RoundKeeps t l skips
            (ok (some (record { next = go_on; loop = l; state = s; closed = [] })))
    skipped-RoundKeeps t l s g = (g, (refl, refl, refl))

    pub stopped-RoundKeeps :
        (t : Turn app) (l : Loop) (s : State) (n : ℕ)
        → GoodLoop l s
        → RoundKeeps t l ends
            (ok (some (record { next = finished n; loop = l; state = s; closed = [] })))
    stopped-RoundKeeps t l s n g = (g, ((n, refl), refl, refl))

    after_pass-RoundKeeps :
        (t : Turn app) (l : Loop) (s : State) (p : Pass) (n : Notified)
        → n ≡ t.notified
        → AllInv keymaps p.resolvers
        → p.kbs ≡ staying t.reads l.kbs
        → p.closed ≡ leaving t.reads l.kbs
        → length l.kbs ≤ max_kbs
        → All (IsUsable keymaps) l.kbs
        → All (FoundUsable keymaps) (found_by n)
        → IsGood s
        → RoundKeeps t l serves (
            notify n p.kbs >>= λ kbs. ok (
              some (record {
                next = go_on;
                loop = record { kbs = kbs; resolvers = p.resolvers; deduper = p.deduper };
                state = send_out app s p.out;
                closed = p.closed;
              })))
    unfolding notify
    after_pass-RoundKeeps t l s p quiet e v stay leave fits usable found_usable g = (
      record {
        resolvers = v;
        usable = rw stay (staying-Usable keymaps t.reads l.kbs usable);
        fits = rw stay (omega (arith, fits, length-staying t.reads l.kbs));
        application = send_out-IsGood p.out s g;
      },
      (
        refl,
        stay
            ∙ sym (append-nil (staying t.reads l.kbs))
            ∙ ap
                (λ x.
                  staying t.reads l.kbs ++ accepted (found_by x) (length (staying t.reads l.kbs)))
                e,
        leave,
      ),
    )
    after_pass-RoundKeeps t l s p broken e v stay leave fits usable found_usable g = inr (inl refl)
    after_pass-RoundKeeps t l s p (found os) e v stay leave fits usable found_usable g = (
      record {
        resolvers = v;
        usable =
            add_found-Usable keymaps os p.kbs found_usable
              (rw stay (staying-Usable keymaps t.reads l.kbs usable));
        fits =
            length-add_found os p.kbs (rw stay (omega (arith, fits, length-staying t.reads l.kbs)));
        application = send_out-IsGood p.out s g;
      },
      (
        refl,
        all
            ∙ ap
                (λ x.
                  staying t.reads l.kbs ++ accepted (found_by x) (length (staying t.reads l.kbs)))
                e,
        leave,
      ),
    )
      where
        all :
            add_found os p.kbs
            ≡ staying t.reads l.kbs ++ accepted os (length (staying t.reads l.kbs))
        all = ap (add_found os) stay ∙ add_found-accepted os (staying t.reads l.kbs)

    pub passed-RoundKeeps :
        (t : Turn app) (l : Loop) (s : State) (m : Outcome (Option Pass))
        → Passes keymaps (staying t.reads l.kbs) (leaving t.reads l.kbs) m
        → length l.kbs ≤ max_kbs
        → All (IsUsable keymaps) l.kbs
        → All (FoundUsable keymaps) (found_by t.notified)
        → IsGood s
        → RoundKeeps t l serves (m >>= after_pass app t s)
    passed-RoundKeeps t l s (ok (some p)) (v, stay, leave) fits usable found_usable g =
        after_pass-RoundKeeps t l s p t.notified refl v stay leave fits usable found_usable g
    passed-RoundKeeps t l s (ok none) w fits usable found_usable g = absurd w
    passed-RoundKeeps t l s (halt h) w fits usable found_usable g = inl w
