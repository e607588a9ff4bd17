-- ===== src/ServeLoop/Adding.antt =====
-- The keyboards that inotify adds, and those that stay.
use keytap.Base.{
  ℕ, ◌+◌, ◌≤◌, ◌≡◌, inl, inr, arith, ap, sym, ◌∙◌, ltb, ltb→lt, if◌then◌else◌, Bool-cases, List, [],
  ◌∷◌, ◌++◌, append_assoc, append-nil, Option, some, none, length, length-append, All, All-append,
  if-cases,
}
use keytap.KeyAction.{KeyAction}
use keytap.Devices.{max_kbs}
use keytap.ServeLoop.Keyboards.{Kbd, Read}
use keytap.ServeLoop.Passes.{IsUsable, is_gone, staying}
use keytap.ServeLoop.Rounds.{Notified, found, add_found}

-- The keyboards that inotify adds to `n` others: as many as there is room for.
abbrev pub accepted : List (Option Kbd) → ℕ → List Kbd
accepted [] n = []
accepted (none ∷ os) n = accepted os n
accepted (some k ∷ os) n = if ltb n max_kbs then k ∷ accepted os (n + 1) else accepted os n

abbrev pub found_by : Notified → List (Option Kbd)
found_by (found os) = os
found_by _ = []

abbrev pub FoundUsable : (ℕ → KeyAction) → Option Kbd → Type 0
FoundUsable keymaps none = Unit
FoundUsable keymaps (some k) = IsUsable keymaps k

accepted-Usable :
    (keymaps : ℕ → KeyAction) (os : List (Option Kbd)) (n : ℕ)
    → All (FoundUsable keymaps) os
    → All (IsUsable keymaps) (accepted os n)
accepted-Usable keymaps [] n h = tt
accepted-Usable keymaps (none ∷ os) n h = accepted-Usable keymaps os n h.1
accepted-Usable keymaps (some k ∷ os) n h =
    if-cases (All (IsUsable keymaps)) (ltb n max_kbs) _ _
      (λ room. (h.0, accepted-Usable keymaps os (n + 1) h.1))
      (λ full. accepted-Usable keymaps os n h.1)

pub staying-Usable :
    (keymaps : ℕ → KeyAction) (reads : ℕ → Read) (ks : List Kbd)
    → All (IsUsable keymaps) ks
    → All (IsUsable keymaps) (staying reads ks)
staying-Usable keymaps reads [] h = tt
staying-Usable keymaps reads (k ∷ ks) h =
    if-cases (All (IsUsable keymaps)) (is_gone (reads k.fd)) _ _
      (λ left. staying-Usable keymaps reads ks h.1)
      (λ stays. (h.0, staying-Usable keymaps reads ks h.1))

pub add_found-accepted :
    (os : List (Option Kbd)) (kbs : List Kbd) → add_found os kbs ≡ kbs ++ accepted os (length kbs)
unfolding add_found
add_found-accepted [] kbs = sym (append-nil kbs)
add_found-accepted (none ∷ os) kbs = add_found-accepted os kbs
add_found-accepted (some k ∷ os) kbs = elim (Bool-cases (ltb (length kbs) max_kbs)) [
  | inl room ↦ rw room (
      add_found-accepted os (kbs ++ (k ∷ []))
      ∙ append_assoc kbs (k ∷ []) (accepted os (length (kbs ++ (k ∷ []))))
      ∙ ap (λ n. kbs ++ (k ∷ accepted os n)) (length-append kbs (k ∷ [])))
  | inr full ↦ rw full (add_found-accepted os kbs)
]

length-accepted :
    (os : List (Option Kbd)) (n : ℕ) → n ≤ max_kbs → n + length (accepted os n) ≤ max_kbs
length-accepted [] n h = omega arith
length-accepted (none ∷ os) n h = length-accepted os n h
length-accepted (some k ∷ os) n h = elim (Bool-cases (ltb n max_kbs)) [
  | inl room ↦ rw room (omega (arith, length-accepted os (n + 1) (omega (arith, ltb→lt _ _ room))))
  | inr full ↦ rw full (length-accepted os n h)
]

pub length-staying : (reads : ℕ → Read) (ks : List Kbd) → length (staying reads ks) ≤ length ks
length-staying reads [] = omega arith
length-staying reads (k ∷ ks) = ground (arith, length-staying reads ks)

pub add_found-Usable :
    (keymaps : ℕ → KeyAction) (os : List (Option Kbd)) (kbs : List Kbd)
    → All (FoundUsable keymaps) os
    → All (IsUsable keymaps) kbs
    → All (IsUsable keymaps) (add_found os kbs)
add_found-Usable keymaps os kbs h usable = rw (add_found-accepted os kbs) (
    All-append (IsUsable keymaps) kbs (accepted os (length kbs)) usable
      (accepted-Usable keymaps os (length kbs) h))

pub length-add_found :
    (os : List (Option Kbd)) (kbs : List Kbd)
    → length kbs ≤ max_kbs
    → length (add_found os kbs) ≤ max_kbs
length-add_found os kbs h =
    rw (add_found-accepted os kbs) (
      omega
        (arith, length-append kbs (accepted os (length kbs)), length-accepted os (length kbs) h))
