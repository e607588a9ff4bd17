-- ===== src/Networking/Addresses.antt =====
-- networking.c, `gai_open`: the first address that works. `socket_fd` is what `socket` returns, which is -1
-- where it fails; the others say whether the calls on that descriptor succeed.
use keytap.Base.{
  ◌≡◌, refl, ℤ, negsuc, ltb_ℤ, Bool, true, false, ◌&&◌, if◌then◌else◌, List, [], ◌∷◌, Option, some,
  none, All, arith, ◌≤ℤ◌,
}

pub record Address : Type 0 where
  pub socket_fd : ℤ
  pub binds : Bool
  pub reuses : Bool
  pub listens : Bool
  pub connects : Bool

-- The result, and the descriptors closed.
abbrev pub Opened : Type 0
Opened = ℤ × List ℤ

abbrev pub closing : ℤ → Opened → Opened
closing fd (out, fds) = (out, fd ∷ fds)

-- The loop over the addresses. The source tests `out_fd < -1` for a failed call.
unfoldable pub try_addresses : Bool → List Address → Opened
try_addresses server_side [] = (negsuc 0, [])
try_addresses server_side (p ∷ ps) =
    let rest = try_addresses server_side ps in
    if ltb_ℤ p.socket_fd (negsuc 0)
    then rest
    else if server_side
    then (if p.binds
        then (if p.reuses
            then (if p.listens then (p.socket_fd, []) else closing p.socket_fd rest)
            else closing p.socket_fd rest)
        else closing p.socket_fd rest)
    else if p.connects
    then (p.socket_fd, [])
    else closing p.socket_fd rest

-- `getaddrinfo` gives a list, or fails.
unfoldable pub gai_open : Bool → Option (List Address) → Opened
unfolding try_addresses
gai_open server_side none = (negsuc 0, [])
gai_open server_side (some ps) = try_addresses server_side ps

-- What makes an address serve: all calls succeed.
abbrev pub works : Bool → Address → Bool
works server_side p = if server_side then p.binds && (p.reuses && p.listens) else p.connects

-- The socket of the first address that works, or -1, and the sockets tried before it.
pub first_working : Bool → List Address → Opened
first_working server_side [] = (negsuc 0, [])
first_working server_side (p ∷ ps) =
    if works server_side p
    then (p.socket_fd, [])
    else closing p.socket_fd (first_working server_side ps)

-- `gai_open` is that reference: the socket of the first address at which all calls succeed, with every socket
-- opened before it closed, and no address tried after it. The results of `socket` are at least -1.
pub gai_open-first_working :
    (server_side : Bool) (ps : List Address)
    → All (λ (p : Address). negsuc 0 ≤ℤ p.socket_fd) ps
    → gai_open server_side (some ps) ≡ first_working server_side ps
unfolding gai_open first_working
gai_open-first_working server_side [] h = refl
gai_open-first_working true (p ∷ ps) h = ground (arith, gai_open-first_working true ps h.1)
gai_open-first_working false (p ∷ ps) h = ground (arith, gai_open-first_working false ps h.1)

-- A failed call of `socket` is not noticed: the other calls are made on the descriptor -1.
pub failed_socket_used :
    (p : Address) (ps : List Address)
    → p.socket_fd ≡ negsuc 0
    → p.connects ≡ false
    → gai_open false (some (p ∷ ps)) ≡ closing (negsuc 0) (gai_open false (some ps))
unfolding gai_open
failed_socket_used p ps failed refused = ground arith
