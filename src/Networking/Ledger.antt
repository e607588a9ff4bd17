-- ===== src/Networking/Ledger.antt =====
-- What the system knows of a process: its open descriptors and the locked file. A list of calls is replayed on
-- it, and is refused where it closes what is not open, or touches the socket's path without the lock.
use keytap.Base.{ℕ, ◌==◌, if◌then◌else◌, List, [], ◌∷◌, Option, some, none, Bool, false}
use keytap.Base.Options.{◌>>=◌}
use keytap.Networking.{Act, open_fd, close_fd, lock, unlock, bind_path, unlink}

pub record Ledger : Type 0 where
  pub fds : List ℕ
  pub locked : Option ℕ

abbrev pub empty : Ledger
empty = record { fds = []; locked = none }

-- The list without the first place of a descriptor, which must be there.
abbrev pub consed : ℕ → Option (List ℕ) → Option (List ℕ)
consed k none = none
consed k (some ks) = some (k ∷ ks)

pub remove : ℕ → List ℕ → Option (List ℕ)
remove fd [] = none
remove fd (k ∷ ks) = if k == fd then some ks else consed k (remove fd ks)

-- Closing the locked file gives its lock up too.
abbrev pub is_locked : ℕ → Option ℕ → Bool
is_locked fd none = false
is_locked fd (some k) = k == fd

abbrev pub closed : ℕ → Option ℕ → Option (List ℕ) → Option Ledger
closed fd locked none = none
closed fd locked (some fds) =
    some (record { fds = fds; locked = if is_locked fd locked then none else locked })

-- The path is touched only under the lock.
abbrev pub guarded : Ledger → Option ℕ → Option Ledger
guarded l none = none
guarded l (some fd) = some l

unfoldable pub replay_act : Ledger → Act → Option Ledger
unfolding remove
replay_act l (open_fd fd) = some (record l { fds = fd ∷ l.fds })
replay_act l (close_fd fd) = closed fd l.locked (remove fd l.fds)
replay_act l (lock fd) = some (record l { locked = some fd })
replay_act l (unlock fd) = if is_locked fd l.locked then some (record l { locked = none }) else none
replay_act l (bind_path fd) = guarded l l.locked
replay_act l unlink = guarded l l.locked

unfoldable pub replay : Ledger → List Act → Option Ledger
unfolding replay_act
replay l [] = some l
replay l (a ∷ acts) = replay_act l a >>= λ l'. replay l' acts
