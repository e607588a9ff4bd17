-- ===== src/Commands/Closing.antt =====
-- `main_serve_unix` gives back what it took, on every path.
use keytap.Base.{
  ℤ, pos, negsuc, inl, inr, ℕ, ◌≡◌, ◌≢◌, ◌≤◌, ◌⊎◌, refl, arith, ap, ◌∙◌, Bool, true, false,
  if-cases, Outcome, ok, halt, ◌>>=◌, List, [], ◌∷◌, ◌++◌, Option, some, none, length, All, ℤ,
}
use keytap.Base.Options
use keytap.KeyAction.{KeyAction}
use keytap.ServeLoop.Passes.{IsUsable}
use keytap.Config.Lua.{Bytes}
use keytap.Devices.{max_kbs}
use keytap.Server.Laws.{IsServing}
use keytap.Server.Watch.{server_app}
use keytap.Permissions.{Call}
use keytap.Networking.{Act, unix_socket_open, unix_socket_close}
use keytap.Networking.Ledger.{Ledger, empty, replay, replay_act}
use keytap.Networking.Unix.{
  held, unix_socket_open-replay, AreTwo, unix_socket_open-two, unix_socket_close-replay,
}
use keytap.ServeLoop.Keyboards.{Kbd}
use keytap.ServeLoop.Rounds.{Turn, After, Ending, ended, serve_rounds, serve_loop, start_loop}
use keytap.ServeLoop.Running.{TurnFits, StopsSo}
use keytap.ServeLoop.Runs.{RunKeeps, serve_rounds-start}
use keytap.Commands.ServeUnix.{
  Surroundings, Run, start_server, clean_up, returned, after_loop, with_perms, with_socket,
  main_serve_unix,
}

replay-append :
    (l : Ledger) (xs ys : List Act) {m : Ledger}
    → replay l xs ≡ some m
    → replay l (xs ++ ys) ≡ replay m ys
unfolding replay
replay-append l [] ys e = ap (λ x. replay x ys) (cc)
replay-append l (x ∷ xs) ys {m} e = stepped (replay_act l x) e (λ l' e'. replay-append l' xs ys e')
  where
    stepped :
        (o : Option Ledger)
        → Options.◌>>=◌ o (λ l'. replay l' xs) ≡ some m
        → ((l' : Ledger) → replay l' xs ≡ some m → replay l' (xs ++ ys) ≡ replay m ys)
        → Options.◌>>=◌ o (λ l'. replay l' (xs ++ ys)) ≡ replay m ys
    stepped none e ih = cc
    stepped (some l') e ih = ih l' e

-- `serve_loop` comes to something, and otherwise stops the program as its rounds do.
abbrev pub LoopEnds : Outcome (Option (Ending server_app)) → Type 0
LoopEnds (ok (some r)) = Unit
LoopEnds (ok none) = ⊥
LoopEnds (halt h) = StopsSo server_app h

-- The command comes to something: while it runs, it holds the socket and the lock; when it has returned, nothing is left
-- open or locked.
abbrev pub GivesBack : Option (ℕ × ℕ) → Outcome (Option Run) → Type 0
GivesBack fds (ok (some r)) =
    ((r.retval ≡ none) × (replay empty r.acts ≡ some (held fds)))
    ⊎ ((v : ℤ) × (r.retval ≡ some v) × (replay empty r.acts ≡ some empty))
GivesBack fds (ok none) = ⊥
GivesBack fds (halt h) = StopsSo server_app h

ended-LoopEnds :
    (keymaps : ℕ → KeyAction) (m : Outcome (Option (After server_app)))
    → RunKeeps server_app keymaps m
    → LoopEnds (m >>= ended server_app)
ended-LoopEnds keymaps (ok (some a)) v = tt
ended-LoopEnds keymaps (ok none) v = v
ended-LoopEnds keymaps (halt h) v = v

start_server-IsServing : (sockfd : ℕ) → IsServing (start_server sockfd)
start_server-IsServing sockfd = record { single = omega arith; first = refl; fits = omega arith }

pub serve_loop-LoopEnds :
    (keymaps : ℕ → KeyAction) (kbs : List Kbd) (ts : List (Turn server_app)) (sockfd : ℕ)
    → All (IsUsable keymaps) kbs
    → length kbs ≤ max_kbs
    → All (TurnFits server_app keymaps) ts
    → LoopEnds (serve_loop server_app keymaps kbs ts (start_server sockfd))
unfolding serve_loop
serve_loop-LoopEnds keymaps [] ts sockfd usable fits range = tt
serve_loop-LoopEnds keymaps (k ∷ ks) ts sockfd usable fits range =
    ended-LoopEnds keymaps
      (serve_rounds server_app ts (start_loop keymaps (k ∷ ks)) (start_server sockfd))
      (serve_rounds-start server_app keymaps (k ∷ ks) (start_server sockfd) ts usable fits
        (start_server-IsServing sockfd) range)

module _ (e : Surroundings) (sockfd lockfd : ℕ) (acts : List Act) (perms : List Call)
    (two : sockfd ≢ lockfd) (opened : replay empty acts ≡ some (held (some (sockfd, lockfd)))) where
  cleaned : replay empty (clean_up e sockfd lockfd acts) ≡ some empty
  cleaned =
      replay-append empty acts (unix_socket_close e.calls sockfd lockfd) opened
      ∙ unix_socket_close-replay e.calls sockfd lockfd two

  returned-GivesBack :
      (r : Ending server_app) (v : Option ℕ)
      → GivesBack (some (sockfd, lockfd)) (ok (some (returned e sockfd lockfd acts perms r v)))
  returned-GivesBack r none = inl (refl, opened)
  returned-GivesBack r (some n) = inr (pos n, refl, cleaned)

  after_loop-GivesBack :
      (m : Outcome (Option (Ending server_app)))
      → LoopEnds m
      → GivesBack (some (sockfd, lockfd)) (m >>= after_loop e sockfd lockfd acts perms)
  after_loop-GivesBack (ok (some r)) v = returned-GivesBack r r.retval
  after_loop-GivesBack (ok none) v = absurd v
  after_loop-GivesBack (halt h) v = v

with_perms-GivesBack :
    (e : Surroundings) (sockfd lockfd : ℕ) (acts : List Act) (p : Bool × List Call)
    → sockfd ≢ lockfd
    → replay empty acts ≡ some (held (some (sockfd, lockfd)))
    → LoopEnds (serve_loop server_app e.keymaps e.kbs e.turns (start_server sockfd))
    → GivesBack (some (sockfd, lockfd)) (with_perms e sockfd lockfd acts p)
with_perms-GivesBack e sockfd lockfd acts (false, perms) two opened ends =
    inr (negsuc 0, refl, cleaned e sockfd lockfd acts perms two opened)
with_perms-GivesBack e sockfd lockfd acts (true, perms) two opened ends =
    if-cases (GivesBack (some (sockfd, lockfd))) e.listens _ _
      (λ on.
        after_loop-GivesBack e sockfd lockfd acts perms two opened
          (serve_loop server_app e.keymaps e.kbs e.turns (start_server sockfd)) ends)
      (λ off. inr (negsuc 0, refl, cleaned e sockfd lockfd acts perms two opened))

-- Serving on a unix socket, with whatever the system gives: two descriptors for the lock file and the socket, at most
-- `max_kbs` keyboards, these and all that are found later with filled keymaps, and no event with the code `key_max`. While the command runs it holds
-- the socket and the locked file that it opened; when it returns, after whatever failure, nothing is open or locked;
-- nothing is closed twice, and the socket's path is touched only under the lock. Or the program stops: at
-- a full ring, on a failed read from inotify, or on a failed `accept`.
pub main_serve_unix-GivesBack :
    (e : Surroundings) (user group mode : Option Bytes) (socket : Bytes)
    → ((sockfd lockfd : ℕ)
        → e.calls.socket ≡ some sockfd
        → e.calls.opened ≡ some lockfd
        → sockfd ≢ lockfd)
    → All (IsUsable e.keymaps) e.kbs
    → length e.kbs ≤ max_kbs
    → All (TurnFits server_app e.keymaps) e.turns
    → GivesBack (unix_socket_open e.calls socket).0 (main_serve_unix e user group mode socket)
unfolding main_serve_unix
main_serve_unix-GivesBack e user group mode socket two usable fits range =
    socketed (unix_socket_open e.calls socket) (unix_socket_open-replay e.calls socket two)
      (unix_socket_open-two e.calls socket two)
  where
    socketed :
        (o : Option (ℕ × ℕ) × List Act)
        → replay empty o.1 ≡ some (held o.0)
        → AreTwo o.0
        → GivesBack o.0 (with_socket e socket user group mode o)
    socketed (none, acts) r t = inr (pos 1, refl, r)
    socketed (some (sockfd, lockfd), acts) r t =
        with_perms-GivesBack e sockfd lockfd acts _ t r
          (serve_loop-LoopEnds e.keymaps e.kbs e.turns sockfd usable fits range)
