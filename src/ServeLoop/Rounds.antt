-- ===== src/ServeLoop/Rounds.antt =====
-- sdiol.c, `serve_loop`: its rounds, over an application. What the system gives in a round is a `Turn`.
use keytap.Base.{
  ℕ, pos, Bool, false, ◌&&◌, ◌==ℤ◌, ltb, if◌then◌else◌, Outcome, ok, halt, exit_with, ◌>>=◌, List,
  [], ◌∷◌, ◌++◌, Option, some, none, length, map,
}
use keytap.TimeUtil.{Timeval}
use keytap.Input.{InputEvent}
use keytap.KeyAction.{KeyAction}
use keytap.Resolver.{Resolver, resolver_init}
use keytap.SendDedup.{SendDedup, fresh}
use keytap.Devices.{max_kbs}
use keytap.App.{App, Watched, watch_rd}
use keytap.ServeLoop.Keyboards.{Kbd, Read, Pass, serve_keyboards}

-- `kbs` are the first `n_kbs` cells of the array. Each grab has its resolver, and all share the deduper.
pub record Loop : Type 0 where
  pub kbs : List Kbd
  pub resolvers : ℕ → Resolver
  pub deduper : SendDedup

-- The resolvers are set up late, when the send function is known.
abbrev pub start_loop : (ℕ → KeyAction) → List Kbd → Loop
start_loop keymaps kbs = record {
  kbs = kbs;
  resolvers = λ g. resolver_init (keymaps g);
  deduper = fresh;
}

-- `select` returns -1 with EINTR, or with another error, or else it returns.
pub data Selected : Type 0 where
  interrupted failed ready : Selected

-- What is read from inotify: it is not readable; the read fails; for each event the keyboard that `open_input`
-- gives, if it gives one.
pub data Notified : Type 0 where
  quiet broken : Notified
  found : List (Option Kbd) → Notified

-- The loop goes on, or `serve_loop` returns a value.
pub data Next : Type 0 where
  go_on : Next
  finished : ℕ → Next

-- The sets for `select`: those of the application, inotify and the keyboards.
abbrev pub watch_kbs : List Kbd → Watched → Watched
watch_kbs [] w = w
watch_kbs (k ∷ ks) w = watch_kbs ks (watch_rd k.fd w)

unfoldable pub add_found : List (Option Kbd) → List Kbd → List Kbd
add_found [] kbs = kbs
add_found (none ∷ os) kbs = add_found os kbs
add_found (some k ∷ os) kbs =
    add_found os (if ltb (length kbs) max_kbs then kbs ++ (k ∷ []) else kbs)

-- `handle_inotify_events`
unfoldable pub notify : Notified → List Kbd → Outcome (List Kbd)
unfolding add_found
notify quiet kbs = ok kbs
notify broken kbs = halt (exit_with 3)
notify (found os) kbs = ok (add_found os kbs)

abbrev pub is_zero : Timeval → Bool
is_zero t = (t.tv_sec ==ℤ pos 0) && (t.tv_usec ==ℤ pos 0)

module _ (app : App) where
  open app use {State, Ready, send, prep_select, handle_select}

  -- `keep_going` at the head of the loop, the result of `select` and what the application's calls give, the
  -- time that `select` left of its timeout if it was given one, and what the keyboards and inotify give.
  pub record Turn : Type 0 where
    pub keep_going : Bool
    pub selected : Selected
    pub ready_fds : Ready
    pub time_left : Option Timeval
    pub reads : ℕ → Read
    pub notified : Notified

  -- What a round leaves, with the descriptors of keyboards that it closed.
  pub record After : Type 0 where
    pub next : Next
    pub loop : Loop
    pub state : State
    pub closed : List ℕ

  abbrev pub watched : State → ℕ → Loop → Watched
  watched s inot l = watch_kbs l.kbs (watch_rd inot (prep_select s))

  abbrev pub send_out : State → List InputEvent → State
  send_out s [] = s
  send_out s (ev ∷ evs) = send_out (send s ev) evs

  abbrev pub timed_out : Option Timeval → Bool
  timed_out none = false
  timed_out (some left) = is_zero left

  abbrev pub stopped : ℕ → Loop → State → Outcome (Option After)
  stopped retval l s =
      ok (some (record { next = finished retval; loop = l; state = s; closed = [] }))

  -- After the keyboards: what they sent is with the application, and new ones may come.
  abbrev pub after_pass : Turn → State → Option Pass → Outcome (Option After)
  after_pass t s none = ok none
  after_pass t s (some p) = notify t.notified p.kbs >>= λ kbs. ok (
      some (record {
        next = go_on;
        loop = record { kbs = kbs; resolvers = p.resolvers; deduper = p.deduper };
        state = send_out s p.out;
        closed = p.closed;
      }))

  abbrev pub after_app : Turn → Loop → State → Outcome (Option After)
  after_app t l s =
      if timed_out t.time_left
      then stopped 0 l s
      else serve_keyboards t.reads l.kbs l.resolvers l.deduper >>= after_pass t s

  abbrev pub after_select : Turn → Loop → State → Selected → Outcome (Option After)
  after_select t l s interrupted =
      ok (some (record { next = go_on; loop = l; state = s; closed = [] }))
  after_select t l s failed = stopped 1 l s
  after_select t l s ready = handle_select t.ready_fds s >>= after_app t l

  unfoldable pub serve_round : Turn → Loop → State → Outcome (Option After)
  unfolding serve_keyboards notify
  serve_round t l s = if t.keep_going then after_select t l s t.selected else stopped 0 l s

  -- What a loop came to, with all descriptors of keyboards closed until then.
  abbrev pub closed_before : List ℕ → Option After → Outcome (Option After)
  closed_before before none = ok none
  closed_before before (some a) = ok (some (record a { closed = before ++ a.closed }))

  abbrev pub next_round :
      (Loop → State → Outcome (Option After)) → After → Next → Outcome (Option After)
  next_round again a (finished retval) = ok (some a)
  next_round again a go_on = again a.loop a.state >>= closed_before a.closed

  abbrev pub next_of :
      (Loop → State → Outcome (Option After)) → Option After → Outcome (Option After)
  next_of again none = ok none
  next_of again (some a) = next_round again a a.next

  -- The rounds for a sequence of turns; it ends early when `serve_loop` leaves its loop.
  unfoldable pub serve_rounds : List Turn → Loop → State → Outcome (Option After)
  unfolding serve_round
  serve_rounds [] l s = ok (some (record { next = go_on; loop = l; state = s; closed = [] }))
  serve_rounds (t ∷ ts) l s = serve_round t l s >>= next_of (serve_rounds ts)

  -- The keyboards that are left when the loop has ended are closed. That of inotify, which is closed then too, is
  -- left out.
  abbrev pub close_kbs : After → List ℕ
  close_kbs a = a.closed ++ map (λ (k : Kbd). k.fd) a.loop.kbs

  -- What `serve_loop` comes to: its return value, or `none` while it runs.
  pub record Ending : Type 0 where
    pub retval : Option ℕ
    pub state : State
    pub closed : List ℕ

  abbrev pub ending : After → Next → Ending
  ending a go_on = record { retval = none; state = a.state; closed = a.closed }
  ending a (finished n) = record { retval = some n; state = a.state; closed = close_kbs a }

  abbrev pub ended : Option After → Outcome (Option Ending)
  ended none = ok none
  ended (some a) = ok (some (ending a a.next))

  -- `kbs` are the keyboards that `open_inputs` gives; without any the function gives up.
  unfoldable pub serve_loop :
      (ℕ → KeyAction) → List Kbd → List Turn → State → Outcome (Option Ending)
  unfolding serve_rounds
  serve_loop keymaps [] ts s = ok (some (record { retval = some 1; state = s; closed = [] }))
  serve_loop keymaps (k ∷ ks) ts s = serve_rounds ts (start_loop keymaps (k ∷ ks)) s >>= ended
