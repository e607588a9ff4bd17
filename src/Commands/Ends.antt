-- ===== src/Commands/Ends.antt =====
-- The program ends, or goes on, in one of a few ways.
use keytap.Base.{
  ℕ, ◌≡◌, ◌≤◌, ◌⊎◌, inl, inr, Outcome, ok, halt, Halt, exit_with, ◌>>=◌, List, [], ◌∷◌, Option,
  some, none, length, All, ℤ, pos, negsuc,
}
use keytap.Input.{InputEvent}
use keytap.KeyAction.{KeyAction}
use keytap.Config.Lua.{Bytes}
use keytap.ServeLoop.Passes.{IsUsable}
use keytap.Devices.{max_kbs}
use keytap.EventReader.{Sscanf, Lines, before_read, read_chunk}
use keytap.EventReader.Laws.{LeavesNoLine, read_chunk-LeavesNoLine}
use keytap.EventReader.Stream.{
  Got, stopped, interrupted, failed, ended, bytes, Reading, read_loop, read_on, sent_then,
}
use keytap.ServeLoop.Keyboards.{Kbd}
use keytap.ServeLoop.Rounds.{Turn, Ending, serve_loop}
use keytap.ServeLoop.Running.{TurnFits, StopsSo}
use keytap.Server.Watch.{server_app}
use keytap.Commands.ServeUnix.{Run, start_server}
use keytap.Commands.Closing.{GivesBack, LoopEnds, serve_loop-LoopEnds}
use keytap.Commands.Local.{local_app, LocalRun}
use keytap.Commands.Tidy.{TidyRun}
use keytap.Commands.Remote.{
  ReadRun, main_read, read_ended, connected, connection_ended, accepting, tcp_ended,
}
use keytap.Commands.Main.{Status, of_local, of_unix, of_tcp, of_read}

-- The reader's loop ends, or goes on.
abbrev pub Comes {ℓ} : {A : Type ℓ} → Option A → Type 0
Comes none = ⊥
Comes (some x) = Unit

sent_then-Comes : (evs : List InputEvent) (m : Option Reading) → Comes m → Comes (sent_then evs m)
sent_then-Comes evs none h = h
sent_then-Comes evs (some r) h = tt

read_loop-Comes :
    (sscanf : Sscanf) (gs : List Got) (buffer : Bytes) → Comes (read_loop sscanf gs buffer)
unfolding read_loop
read_loop-Comes sscanf [] buffer = tt
read_loop-Comes sscanf (stopped ∷ gs) buffer = tt
read_loop-Comes sscanf (interrupted ∷ gs) buffer = read_loop-Comes sscanf gs (before_read buffer)
read_loop-Comes sscanf (failed ∷ gs) buffer = tt
read_loop-Comes sscanf (ended ∷ gs) buffer = tt
read_loop-Comes sscanf (bytes chunk ∷ gs) buffer =
    lines (read_chunk sscanf buffer chunk) (read_chunk-LeavesNoLine sscanf buffer chunk)
      (λ left. read_loop-Comes sscanf gs left)
  where
    lines :
        (m : Option Lines)
        → LeavesNoLine m
        → ((left : Bytes) → Comes (read_loop sscanf gs left))
        → Comes (read_on (read_loop sscanf gs) m)
    lines none h ih = h
    lines (some (evs, left)) h ih = sent_then-Comes evs (read_loop sscanf gs left) (ih left)

pub main_read-Comes :
    (output : Option ℕ) (sscanf : Sscanf) (gots : List Got) → Comes (main_read output sscanf gots)
unfolding main_read
main_read-Comes none sscanf gots = tt
main_read-Comes (some out_fd) sscanf gots =
    closed (read_loop sscanf gots []) (read_loop-Comes sscanf gots [])
  where
    closed : (m : Option Reading) → Comes m → Comes (read_ended out_fd m)
    closed none h = h
    closed (some r) h = tt

-- The exit status, or `none` while the program runs; or it stops by `exit`: with 0 for the help text, and else
-- with 1 at a full ring, 3 on a failed read from inotify, 7 on a failed `accept`.
abbrev pub MainEnds : Status → Type 0
MainEnds (ok none) = ⊥
MainEnds (ok (some v)) = Unit
MainEnds (halt h) = (h ≡ exit_with 0) ⊎ (h ≡ exit_with 1) ⊎ (h ≡ exit_with 3) ⊎ (h ≡ exit_with 7)

server_stops : (h : Halt) → StopsSo server_app h → MainEnds (halt h)
server_stops h s = inr s

local_stops : (h : Halt) → StopsSo local_app h → MainEnds (halt h)
local_stops h (inl one) = inr (inl one)
local_stops h (inr (inl three)) = inr (inr (inl three))
local_stops h (inr (inr nothing)) = absurd nothing

pub of_local-MainEnds : (m : Outcome (Option LocalRun)) → TidyRun m → MainEnds (m >>= of_local)
of_local-MainEnds (ok none) h = h
of_local-MainEnds (ok (some r)) h = tt
of_local-MainEnds (halt h) s = local_stops h s

pub of_unix-MainEnds :
    (fds : Option (ℕ × ℕ)) (m : Outcome (Option Run)) → GivesBack fds m → MainEnds (m >>= of_unix)
of_unix-MainEnds fds (ok none) h = h
of_unix-MainEnds fds (ok (some r)) h = tt
of_unix-MainEnds fds (halt h) s = server_stops h s

pub of_read-MainEnds : (m : Option ReadRun) → Comes m → MainEnds (of_read m)
of_read-MainEnds none h = h
of_read-MainEnds (some r) h = tt

pub connected-Comes :
    (o : ℤ × List ℤ) (output : Option ℕ) (sscanf : Sscanf) (gots : List Got)
    → Comes (connected o output sscanf gots)
connected-Comes (negsuc n, tried) output sscanf gots = tt
connected-Comes (pos sock, tried) output sscanf gots =
    closed (main_read output sscanf gots) (main_read-Comes output sscanf gots)
  where
    closed : (m : Option ReadRun) → Comes m → Comes (connection_ended (pos sock) tried m)
    closed none h = h
    closed (some r) h = tt

pub accepting-MainEnds :
    (o : ℤ × List ℤ) (keymaps : ℕ → KeyAction) (kbs : List Kbd) (turns : List (Turn server_app))
    → All (IsUsable keymaps) kbs
    → length kbs ≤ max_kbs
    → All (TurnFits server_app keymaps) turns
    → MainEnds (accepting o keymaps kbs turns >>= of_tcp)
accepting-MainEnds (negsuc n, tried) keymaps kbs turns usable fits range = tt
accepting-MainEnds (pos fd, tried) keymaps kbs turns usable fits range =
    ends (serve_loop server_app keymaps kbs turns (start_server fd))
      (serve_loop-LoopEnds keymaps kbs turns fd usable fits range)
  where
    ends :
        (m : Outcome (Option (Ending server_app)))
        → LoopEnds m
        → MainEnds (m >>= tcp_ended fd tried >>= of_tcp)
    ends (ok none) h = h
    ends (ok (some r)) h = tt
    ends (halt h) s = server_stops h s
