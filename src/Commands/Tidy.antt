-- ===== src/Commands/Tidy.antt =====
-- The virtual keyboard of `main_local` gets a tidy stream of events.
use keytap.Base.{
  ℕ, sym, false, Outcome, ok, halt, ◌>>=◌, List, [], ◌∷◌, Option, some, none, length, ◌≤◌, All,
  subst,
}
use keytap.Input.{InputEvent}
use keytap.KeyAction.{KeyAction}
use keytap.ServeLoop.Passes.{IsUsable}
use keytap.Devices.{max_kbs}
use keytap.SendDedup.{fresh}
use keytap.SendDedup.Alternating.{Alternates, send_all-Alternates}
use keytap.SendDedup.Syn.{SynSeparated, send_all-SynSeparated}
use keytap.ServeLoop.Keyboards.{Kbd}
use keytap.ServeLoop.Rounds.{
  start_loop, Next, go_on, finished, Turn, After, Ending, ending, ended, serve_rounds, serve_loop,
}
use keytap.ServeLoop.Running.{TurnFits, StopsSo}
use keytap.ServeLoop.Runs.{RunKeeps, serve_rounds-start}
use keytap.Commands.Local.{local_app, LocalRun, local_ended, close_output, main_local}
use keytap.Commands.Writing.{WritesOn, Writes, serve_rounds-Writes}

-- Each key is pressed and released in turn, a press first, and no `EV_SYN` follows another with nothing between.
pub record Tidy (written : List InputEvent) : Type 0 where
  pub keys : (c : ℕ) → Alternates c 0 written
  pub syns : SynSeparated false written

WritesOn-Tidy : (a : After local_app) → WritesOn fresh [] a → Tidy a.state
WritesOn-Tidy a w = subst Tidy (sym w.appended) (record {
  keys = send_all-Alternates w.through.given fresh a.loop.deduper w.out w.through.run;
  syns = send_all-SynSeparated w.through.given fresh a.loop.deduper w.out w.through.run;
})

abbrev TidyEnding : Outcome (Option (Ending local_app)) → Type 0
TidyEnding (ok none) = ⊥
TidyEnding (ok (some r)) = Tidy r.state
TidyEnding (halt h) = StopsSo local_app h

-- The command comes to something: what it has written is tidy.
abbrev pub TidyRun : Outcome (Option LocalRun) → Type 0
TidyRun (ok none) = ⊥
TidyRun (ok (some r)) = Tidy r.written
TidyRun (halt h) = StopsSo local_app h

ending-TidyEnding :
    (a : After local_app) (n : Next) → Tidy a.state → TidyEnding (ok (some (ending local_app a n)))
ending-TidyEnding a go_on t = t
ending-TidyEnding a (finished n) t = t

ended-TidyEnding :
    (keymaps : ℕ → KeyAction) (m : Outcome (Option (After local_app)))
    → RunKeeps local_app keymaps m
    → Writes fresh [] m
    → TidyEnding (m >>= ended local_app)
ended-TidyEnding keymaps (ok none) k w = absurd k
ended-TidyEnding keymaps (ok (some a)) k w = ending-TidyEnding a a.next (WritesOn-Tidy a w)
ended-TidyEnding keymaps (halt h) k w = k

closed-TidyRun :
    (out_fd : ℕ) (r : Ending local_app) (v : Option ℕ)
    → Tidy r.state
    → Tidy (close_output out_fd r v).written
closed-TidyRun out_fd r none t = t
closed-TidyRun out_fd r (some n) t = t

local_ended-TidyRun :
    (out_fd : ℕ) (m : Outcome (Option (Ending local_app)))
    → TidyEnding m
    → TidyRun (m >>= local_ended out_fd)
local_ended-TidyRun out_fd (ok none) t = absurd t
local_ended-TidyRun out_fd (ok (some r)) t = closed-TidyRun out_fd r r.retval t
local_ended-TidyRun out_fd (halt h) t = t

nothing-Tidy : Tidy []
nothing-Tidy = record { keys = λ c. tt; syns = tt }

-- A run of `main_local` with at most `max_kbs` keyboards, these and all that are found later with filled keymaps, and with
-- no event with the code `key_max`, after any number of rounds, that goes on or returns: the virtual keyboard has got the presses and releases of each key in turn, a press first, and
-- no `EV_SYN` that does not follow another event. Or the program called `exit`, at a full ring or on a
-- failed read from inotify; then nothing is said of what was written.
pub main_local-TidyRun :
    (output : Option ℕ) (keymaps : ℕ → KeyAction) (kbs : List Kbd) (turns : List (Turn local_app))
    → All (IsUsable keymaps) kbs
    → length kbs ≤ max_kbs
    → All (TurnFits local_app keymaps) turns
    → TidyRun (main_local output keymaps kbs turns)
unfolding main_local serve_loop
main_local-TidyRun none keymaps kbs turns usable fits range = nothing-Tidy
main_local-TidyRun (some out_fd) keymaps [] turns usable fits range =
    local_ended-TidyRun out_fd (serve_loop local_app keymaps [] turns []) nothing-Tidy
main_local-TidyRun (some out_fd) keymaps (k ∷ ks) turns usable fits range =
    local_ended-TidyRun out_fd (serve_loop local_app keymaps (k ∷ ks) turns []) (
      ended-TidyEnding keymaps (serve_rounds local_app turns (start_loop keymaps (k ∷ ks)) [])
        (serve_rounds-start local_app keymaps (k ∷ ks) [] turns usable fits tt range)
        (serve_rounds-Writes turns (start_loop keymaps (k ∷ ks)) []))
