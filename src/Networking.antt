-- ===== src/Networking.antt =====
-- networking.c: opening and closing sockets. What the system calls give is a parameter; what a function does to
-- descriptors, to the lock and to the socket's path is the list of its calls.
pub mod Ledger
pub mod Unix
pub mod Addresses
use keytap.Base.{
  ℕ, ◌==◌, if◌then◌else◌, List, [], ◌∷◌, ◌++◌, Option, some, none, Bool, true, false, length, ltb,
}
use keytap.Config.Lua.{Bytes}

-- The calls that succeeded, and `unlink`. `bind_path` makes the socket's file.
pub data Act : Type 0 where
  open_fd close_fd lock unlock bind_path : ℕ → Act
  unlink : Act

-- `open` and `socket` give a descriptor or fail; the others succeed or fail.
pub record UnixCalls : Type 0 where
  pub opened : Option ℕ
  pub locks : Bool
  pub socket : Option ℕ
  pub binds : Bool
  pub unlocks : Bool

-- `UNIX_PATH_MAX` of linux/un.h
abbrev pub unix_path_max : ℕ
unix_path_max = 108

-- `fcntl(fd, F_SETLK, &flock)` with F_UNLCK
abbrev pub try_unlock : UnixCalls → ℕ → List Act
try_unlock c fd = if c.unlocks then unlock fd ∷ [] else []

-- The label `fail_lock` and what follows it, after the calls `before`.
abbrev pub fail_lock : UnixCalls → ℕ → List Act
fail_lock c lockfd = try_unlock c lockfd ++ (close_fd lockfd ∷ [])

-- The socket, if it was opened and bound, and the lock file's descriptor.
abbrev pub bind_socket : UnixCalls → ℕ → Option ℕ → Option (ℕ × ℕ) × List Act
bind_socket c lockfd none = (none, fail_lock c lockfd)
bind_socket c lockfd (some sockfd) =
    if c.binds
    then (some (sockfd, lockfd), open_fd sockfd ∷ bind_path sockfd ∷ [])
    else (none, open_fd sockfd ∷ close_fd sockfd ∷ fail_lock c lockfd)

abbrev pub lock_file : UnixCalls → Option ℕ → Option (ℕ × ℕ) × List Act
lock_file c none = (none, [])
lock_file c (some lockfd) =
    if c.locks
    then (let (fds, acts) = bind_socket c lockfd c.socket in
        (fds, open_fd lockfd ∷ lock lockfd ∷ unlink ∷ acts))
    else (none, open_fd lockfd ∷ close_fd lockfd ∷ [])

unfoldable pub unix_socket_open : UnixCalls → Bytes → Option (ℕ × ℕ) × List Act
unix_socket_open c sock =
    if ltb (length sock) unix_path_max then lock_file c c.opened else (none, [])

unfoldable pub unix_socket_close : UnixCalls → ℕ → ℕ → List Act
unix_socket_close c sockfd lockfd =
    close_fd sockfd ∷ (try_unlock c lockfd ++ (close_fd lockfd ∷ []))
