-- ===== src/Input.antt =====
-- `struct input_event` and the constants of the Linux input interface that the program uses
-- (linux/input.h; names.c lists the key codes). `app.h` passes such events to a send function.
use keytap.Base.{ℕ, ℤ, pos, Bool, ◌==◌, ◌==ℤ◌}
use keytap.TimeUtil.{Timeval}

-- `type` and `code` are 16-bit unsigned, `value` is a 32-bit signed number.
pub record InputEvent : Type 0 where
  pub time : Timeval
  pub type : ℕ
  pub code : ℕ
  pub value : ℤ

abbrev pub ev_syn : ℕ
ev_syn = 0

abbrev pub ev_key : ℕ
ev_key = 1

abbrev pub syn_report : ℕ
syn_report = 0

-- The highest key code, and the size of the arrays indexed by key code.
abbrev pub key_max : ℕ
key_max = 0x2ff

-- `ev.value == n`
abbrev pub value_is : InputEvent → ℕ → Bool
value_is ev n = ev.value ==ℤ pos n

abbrev pub is_key : InputEvent → Bool
is_key ev = ev.type == ev_key

-- A press, a release and an auto-repeat of a key.
abbrev pub key_press : ℕ → Timeval → InputEvent
key_press c t = record { time = t; type = ev_key; code = c; value = pos 1 }

abbrev pub key_release : ℕ → Timeval → InputEvent
key_release c t = record { time = t; type = ev_key; code = c; value = pos 0 }

abbrev pub time_zero : Timeval
time_zero = record { tv_sec = pos 0; tv_usec = pos 0 }

-- The `SYN_REPORT` that the resolver generates.
abbrev pub syn_ev : InputEvent
syn_ev = record { time = time_zero; type = ev_syn; code = syn_report; value = pos 0 }
