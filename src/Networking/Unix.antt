-- ===== src/Networking/Unix.antt =====
-- The lock, the socket and the descriptors, from `unix_socket_open` to `unix_socket_close`.
use keytap.Base.{
  sym, ℕ, ◌≡◌, ◌≢◌, refl, arith, ◌==◌, ltb, if-cases, List, [], ◌∷◌, Option, some, none, false,
  ==_refl, length,
}
use keytap.Config.Lua.{Bytes}
use keytap.Networking.{
  Act, UnixCalls, unix_path_max, fail_lock, bind_socket, lock_file, unix_socket_open,
  unix_socket_close,
}
use keytap.Networking.Ledger.{Ledger, empty, replay}

-- What is left open: the socket and the lock file, which is locked; or nothing.
abbrev pub held : Option (ℕ × ℕ) → Ledger
held none = empty
held (some (sockfd, lockfd)) = record { fds = sockfd ∷ lockfd ∷ []; locked = some lockfd }

==_ne : (a b : ℕ) → a ≢ b → (a == b) ≡ false
==_ne a b ne = ground arith

fail_lock-replay :
    (c : UnixCalls) (lockfd : ℕ)
    → replay (record { fds = lockfd ∷ []; locked = some lockfd }) (fail_lock c lockfd) ≡ some empty
unfolding replay
fail_lock-replay c lockfd = ground (arith, ==_refl lockfd)

bind_socket-replay :
    (c : UnixCalls) (lockfd : ℕ) (socket : Option ℕ)
    → ((sockfd : ℕ) → socket ≡ some sockfd → sockfd ≢ lockfd)
    → replay (record { fds = lockfd ∷ []; locked = some lockfd }) (bind_socket c lockfd socket).1
      ≡ some (held (bind_socket c lockfd socket).0)
unfolding replay
bind_socket-replay c lockfd none new = fail_lock-replay c lockfd
bind_socket-replay c lockfd (some sockfd) new =
    if-cases P c.binds _ _ (λ bound. refl)
      (λ unbound.
        rw (==_refl sockfd, ==_ne lockfd sockfd (λ e. new sockfd refl (sym e)))
          (fail_lock-replay c lockfd))
  where
    P : Option (ℕ × ℕ) × List Act → Type 0
    P x = replay (record { fds = lockfd ∷ []; locked = some lockfd }) x.1 ≡ some (held x.0)

-- Opening, on every path, closes nothing that is not open, touches the path only under the lock, and leaves
-- open and locked exactly the socket and the lock file that it returns: nothing, where it fails. The
-- system gives the socket a descriptor other than that of the lock file.
pub unix_socket_open-replay :
    (c : UnixCalls) (sock : Bytes)
    → ((sockfd lockfd : ℕ) → c.socket ≡ some sockfd → c.opened ≡ some lockfd → sockfd ≢ lockfd)
    → replay empty (unix_socket_open c sock).1 ≡ some (held (unix_socket_open c sock).0)
unfolding unix_socket_open replay
unix_socket_open-replay c sock new =
    if-cases P (ltb (length sock) unix_path_max) _ _
      (λ fits. opened c.opened (λ s l es e. new s l es e)) (λ long. refl)
  where
    P : Option (ℕ × ℕ) × List Act → Type 0
    P x = replay empty x.1 ≡ some (held x.0)

    opened :
        (o : Option ℕ) → ((s l : ℕ) → c.socket ≡ some s → o ≡ some l → s ≢ l) → P (lock_file c o)
    opened none new = refl
    opened (some lockfd) new =
        if-cases P c.locks _ _
          (λ locked. bind_socket-replay c lockfd c.socket (λ s e. new s lockfd e refl))
          (λ taken. rw (==_refl lockfd) refl)

-- The descriptors that it returns are two.
abbrev pub AreTwo : Option (ℕ × ℕ) → Type 0
AreTwo none = Unit
AreTwo (some (sockfd, lockfd)) = sockfd ≢ lockfd

pub unix_socket_open-two :
    (c : UnixCalls) (sock : Bytes)
    → ((sockfd lockfd : ℕ) → c.socket ≡ some sockfd → c.opened ≡ some lockfd → sockfd ≢ lockfd)
    → AreTwo (unix_socket_open c sock).0
unfolding unix_socket_open
unix_socket_open-two c sock new =
    if-cases P (ltb (length sock) unix_path_max) _ _ (λ fits. opened c.opened refl c.socket refl)
      (λ long. tt)
  where
    P : Option (ℕ × ℕ) × List Act → Type 0
    P x = AreTwo x.0

    opened : (o : Option ℕ) → c.opened ≡ o → (s : Option ℕ) → c.socket ≡ s → P (lock_file c o)
    opened none eo s es = tt
    opened (some lockfd) eo s es =
        if-cases P c.locks _ _ (λ locked. bound lockfd eo c.socket refl) (λ taken. tt)
      where
        bound :
            (lockfd : ℕ)
            → c.opened ≡ some lockfd
            → (s : Option ℕ) → c.socket ≡ s
            → AreTwo (bind_socket c lockfd s).0
        bound lockfd eo none es = tt
        bound lockfd eo (some sockfd) es =
            if-cases P c.binds _ _ (λ b. new sockfd lockfd es eo) (λ b. tt)

-- Closing afterwards leaves nothing open and nothing locked, if the socket and the lock file are two descriptors.
pub unix_socket_close-replay :
    (c : UnixCalls) (sockfd lockfd : ℕ)
    → sockfd ≢ lockfd
    → replay (held (some (sockfd, lockfd))) (unix_socket_close c sockfd lockfd) ≡ some empty
unfolding unix_socket_close replay
unix_socket_close-replay c sockfd lockfd ne = ground (arith, ==_refl lockfd, ==_refl sockfd)
