-- ===== src/Commands/Local.antt =====
-- sdiol.c, `main_local` and `send_event_locally`: the events go to a virtual keyboard of the program's own.
use keytap.Base.{ℕ, Outcome, ok, ◌>>=◌, List, [], ◌∷◌, ◌++◌, Option, some, none}
use keytap.Input.{InputEvent}
use keytap.KeyAction.{KeyAction}
use keytap.App.{App, none_watched}
use keytap.App.Watching.{none_watched-InBound}
use keytap.ServeLoop.Keyboards.{Kbd}
use keytap.ServeLoop.Rounds.{Turn, Ending, serve_loop}

-- The events that were given to `write`, in order. Its result is not looked at.
abbrev pub send_event_locally : List InputEvent → InputEvent → List InputEvent
send_event_locally written ev = written ++ (ev ∷ [])

-- Null pointers for `prep_select` and `handle_select`.
abbrev pub local_app : App
local_app = record {
  State = List InputEvent;
  Ready = Unit;
  send = send_event_locally;
  prep_select = λ written. none_watched;
  handle_select = λ r written. ok written;
  IsGood = λ written. Unit;
  Stops = λ h. ⊥;
  send-IsGood = λ written ev g. tt;
  handle_select-Keeps = λ r written g. tt;
  prep_select-InBound = λ written. none_watched-InBound;
}

-- The return value, or `none` while the command runs; what was written; the descriptors closed.
pub record LocalRun : Type 0 where
  pub retval : Option ℕ
  pub written : List InputEvent
  pub closed : List ℕ

abbrev pub close_output : ℕ → Ending local_app → Option ℕ → LocalRun
close_output out_fd r none = record { retval = none; written = r.state; closed = r.closed }
close_output out_fd r (some n) = record {
  retval = some n;
  written = r.state;
  closed = r.closed ++ (out_fd ∷ []);
}

abbrev pub local_ended : ℕ → Option (Ending local_app) → Outcome (Option LocalRun)
local_ended out_fd none = ok none
local_ended out_fd (some r) = ok (some (close_output out_fd r r.retval))

-- What `open_output` gives is the first argument, `none` where it fails.
unfoldable pub main_local :
    Option ℕ → (ℕ → KeyAction) → List Kbd → List (Turn local_app) → Outcome (Option LocalRun)
unfolding serve_loop
main_local none keymaps kbs turns =
    ok (some (record { retval = some 1; written = []; closed = [] }))
main_local (some out_fd) keymaps kbs turns =
    serve_loop local_app keymaps kbs turns [] >>= local_ended out_fd
