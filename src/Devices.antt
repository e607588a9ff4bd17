-- ===== src/Devices.antt =====
-- devices.c: which input devices are grabbed. Opening a device and taking it over are the system's: a
-- `Device` holds what they give.
pub mod Laws
pub mod Places
pub mod Output
use keytap.Base.{ℕ, ◌+◌, Bool, true, false, if◌then◌else◌, ltb, Option, List, [], ◌∷◌, ◌++◌, length}
use keytap.Config.Lua.{Bytes}
use keytap.Config.Grabs.{Regexes, Grab}

abbrev pub max_kbs : ℕ
max_kbs = 16

-- `fd` is what `open` gives, `name` what the device calls itself, and `grabs` whether EVIOCGRAB succeeds.
pub record Device : Type 0 where
  pub fd : Option ℕ
  pub name : Bytes
  pub grabs : Bool

module _ (re : Regexes) where
  open re use {matches}

  -- The first grab whose pattern matches, unless it says to ignore the device.
  unfoldable pub check_grabs : List (Grab re) → Bytes → Option (Grab re)
  check_grabs [] name = Option.none
  check_grabs (g ∷ gs) name =
      if matches g.regex name
      then (if g.ignore then Option.none else Option.some g)
      else check_grabs gs name

  pub record Keyboard : Type 0 where
    pub fd : ℕ
    pub grab : Grab re

  -- What `open_input` leaves: the keyboard, if the device was grabbed, and the descriptors still open.
  pub record Opened : Type 0 where
    pub keyboard : Option Keyboard
    pub open_fds : List ℕ

  abbrev pub take_over : ℕ → Bool → Option (Grab re) → Opened
  take_over fd grabs Option.none = record { keyboard = Option.none; open_fds = fd ∷ [] }
  take_over fd true (Option.some g) = record {
    keyboard = Option.some (record { fd = fd; grab = g });
    open_fds = fd ∷ [];
  }
  take_over fd false (Option.some g) = record { keyboard = Option.none; open_fds = [] }

  abbrev pub open_fd : List (Grab re) → Device → Option ℕ → Opened
  open_fd gs d Option.none = record { keyboard = Option.none; open_fds = [] }
  open_fd gs d (Option.some fd) = take_over fd d.grabs (check_grabs gs d.name)

  unfoldable pub open_input : List (Grab re) → Device → Opened
  unfolding check_grabs
  open_input gs d = open_fd gs d d.fd

  abbrev pub add_keyboard : List Keyboard → Option Keyboard → List Keyboard
  add_keyboard kbs Option.none = kbs
  add_keyboard kbs (Option.some kb) = kbs ++ (kb ∷ [])

  -- The loop of `open_inputs` and of `handle_inotify_events` over the devices that they find.
  unfoldable pub open_devices : List (Grab re) → List Keyboard → List Device → List Keyboard
  unfolding open_input
  open_devices gs kbs [] = kbs
  open_devices gs kbs (d ∷ ds) =
      open_devices gs
        (if ltb (length kbs) max_kbs then add_keyboard kbs (open_input gs d).keyboard else kbs) ds
