-- ===== src/SendDedup.antt =====
-- sdiol.c, `send_dedup`: the output side of the server joins the keys of all keyboards by a logical OR
-- before the application's send function gets them. `verbose` only prints, and is left out.
pub mod Or
pub mod Syn
pub mod Runs
pub mod Alternating
use keytap.Base.{
  ℕ, ◌+◌, ◌-◌, Bool, true, false, Cells, load, update, Outcome, ok, ◌>>=◌, ltb, ◌==◌, if◌then◌else◌,
  List, [], ◌∷◌, Option, some, none,
}
use keytap.Input.{InputEvent, ev_syn, key_max, value_is, is_key}

pub record SendDedup : Type 0 where
  -- an array of `key_max` cells
  pub press_count_map : Cells ℕ
  pub sent_something : Bool

-- The deduper of `serve_loop`, whose other fields are zero.
abbrev pub fresh : SendDedup
fresh = record { press_count_map = λ _. 0; sent_something = false }

-- A key release event: the event is sent if this was the last key of this code.
unfoldable pub send_release : SendDedup → InputEvent → Outcome (SendDedup × Option InputEvent)
send_release d ev = do
  count ← load key_max d.press_count_map ev.code
  let counts = update d.press_count_map ev.code (count - 1)
  if ltb count 1
      then ok (d, none)
      else if count - 1 == 0
      then ok (record { press_count_map = counts; sent_something = true }, some ev)
      else ok (record d { press_count_map = counts }, none)

-- A key press event: the event is sent if this was the first key of this code.
unfoldable pub send_press : SendDedup → InputEvent → Outcome (SendDedup × Option InputEvent)
send_press d ev = do
  count ← load key_max d.press_count_map ev.code
  let counts = update d.press_count_map ev.code (count + 1)
  if count == 0
      then ok (record { press_count_map = counts; sent_something = true }, some ev)
      else ok (record d { press_count_map = counts }, none)

-- The new state, and the event for the wrapped send function, if there is one.
unfoldable pub send_dedup : SendDedup → InputEvent → Outcome (SendDedup × Option InputEvent)
unfolding send_release send_press
send_dedup d ev =
    if is_key ev
    then (if ltb key_max ev.code
        then ok (d, none)
        else if value_is ev 0
        then send_release d ev
        else if value_is ev 1
        then send_press d ev
        else if value_is ev 2
        then ok (record d { sent_something = true }, some ev)
        else ok (d, none))
    else if ev.type == ev_syn
    then (if d.sent_something
        then ok (record d { sent_something = false }, some ev)
        else ok (d, none))
    else ok (record d { sent_something = true }, some ev)

abbrev pub prepend : Option InputEvent → List InputEvent → List InputEvent
prepend none out = out
prepend (some ev) out = ev ∷ out

abbrev pub send_rest :
    Option InputEvent → SendDedup × List InputEvent → Outcome (SendDedup × List InputEvent)
send_rest out (d, outs) = ok (d, prepend out outs)

-- The calls for a sequence of events: the last state, and the events that are passed on.
unfoldable pub send_all : SendDedup → List InputEvent → Outcome (SendDedup × List InputEvent)
unfolding send_dedup
send_all d [] = ok (d, [])
send_all d (ev ∷ evs) = do (d', out) ← send_dedup d ev; rest ← send_all d' evs; send_rest out rest
