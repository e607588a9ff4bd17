-- ===== src/ServeLoop/Passes.antt =====
-- The pass over the keyboards: every resolver keeps its invariant, and the keyboards that are gone are
-- closed, each in its turn.
use keytap.Base.{
  ℕ, ◌≡◌, refl, Bool, true, false, Outcome, ok, halt, exit_with, ◌>>=◌, List, [], ◌∷◌, ◌++◌, Option,
  some, none, update, All, if◌then◌else◌, if-cases, ◌==◌,
}
use keytap.Resolver.{Resolver}
use keytap.KeyAction.{KeyAction}
use keytap.Resolver.Safety.{InRange, IsKeymap}
use keytap.SendDedup.{SendDedup}
use keytap.ServeLoop.{Served}
use keytap.ServeLoop.Safety.{Inv}
use keytap.ServeLoop.Receive.{Receives, recv_event-Receives}
use keytap.ServeLoop.Keyboards.{
  Kbd, Read, idle, again, gone, event, Pass, received, serve_keyboard, joined, then_rest,
  serve_keyboards,
}

-- The invariant of the resolvers whose grabs have filled keymaps. A grab that is ignored has none, and its resolver is
-- not used.
abbrev pub AllInv : (ℕ → KeyAction) → (ℕ → Resolver) → Type 0
AllInv keymaps rs = (i : ℕ) → IsKeymap (keymaps i) → Inv (rs i)

-- The keyboard's grab has a filled keymap.
abbrev pub IsUsable : (ℕ → KeyAction) → Kbd → Type 0
IsUsable keymaps k = IsKeymap (keymaps k.grab)

abbrev pub ReadInRange : Read → Type 0
ReadInRange (event clock ev) = InRange ev
ReadInRange _ = Unit

abbrev pub is_gone : Read → Bool
is_gone gone = true
is_gone _ = false

-- The keyboards that stay, and the descriptors of the others, both in order.
abbrev pub staying : (ℕ → Read) → List Kbd → List Kbd
staying reads [] = []
staying reads (k ∷ ks) = if is_gone (reads k.fd) then staying reads ks else k ∷ staying reads ks

abbrev pub leaving : (ℕ → Read) → List Kbd → List ℕ
leaving reads [] = []
leaving reads (k ∷ ks) = if is_gone (reads k.fd) then k.fd ∷ leaving reads ks else leaving reads ks

module _ (keymaps : ℕ → KeyAction) where
  -- The pass goes on with all invariants and these keyboards, or the program exits with 1.
  abbrev pub Passes : List Kbd → List ℕ → Outcome (Option Pass) → Type 0
  Passes kbs closed (ok (some p)) = AllInv keymaps p.resolvers × (p.kbs ≡ kbs) × (p.closed ≡ closed)
  Passes kbs closed (ok none) = ⊥
  Passes kbs closed (halt h) = h ≡ exit_with 1

  update-AllInv :
      (rs : ℕ → Resolver) (g : ℕ) (r : Resolver)
      → AllInv keymaps rs
      → Inv r
      → AllInv keymaps (update rs g r)
  update-AllInv rs g r v w i u = if-cases Inv (g == i) r (rs i) (λ _. w) (λ _. v i u)

  received-Passes :
      (k : Kbd) (rs : ℕ → Resolver) (m : Outcome (Option Served))
      → AllInv keymaps rs
      → Receives (rs k.grab) m
      → Passes (k ∷ []) [] (m >>= received k rs)
  received-Passes k rs (ok (some s)) v w = (update-AllInv rs k.grab s.resolver v w, refl, refl)
  received-Passes k rs (ok none) v w = absurd w
  received-Passes k rs (halt h) v w = w.0

  joined-Passes :
      (s : Pass) (kbs kbs' : List Kbd) (closed closed' : List ℕ) (m : Outcome (Option Pass))
      → s.kbs ≡ kbs
      → s.closed ≡ closed
      → Passes kbs' closed' m
      → Passes (kbs ++ kbs') (closed ++ closed') (m >>= joined s)
  joined-Passes s kbs kbs' closed closed' (ok (some t)) e f (v, g, h) = (v, cc, cc)
  joined-Passes s kbs kbs' closed closed' (ok none) e f w = absurd w
  joined-Passes s kbs kbs' closed closed' (halt h) e f w = w

  then-Passes :
      (kbs kbs' : List Kbd) (closed closed' : List ℕ)
      (rest : (ℕ → Resolver) → SendDedup → Outcome (Option Pass)) (m : Outcome (Option Pass))
      → ((rs : ℕ → Resolver) (d : SendDedup) → AllInv keymaps rs → Passes kbs' closed' (rest rs d))
      → Passes kbs closed m
      → Passes (kbs ++ kbs') (closed ++ closed') (m >>= then_rest rest)
  then-Passes kbs kbs' closed closed' rest (ok (some s)) ih (v, e, f) =
      joined-Passes s kbs kbs' closed closed' (rest s.resolvers s.deduper) e f
        (ih s.resolvers s.deduper v)
  then-Passes kbs kbs' closed closed' rest (ok none) ih w = absurd w
  then-Passes kbs kbs' closed closed' rest (halt h) ih w = w

  one-Passes :
      (r : Read) (k : Kbd) (rs : ℕ → Resolver) (d : SendDedup)
      → AllInv keymaps rs
      → IsUsable keymaps k
      → ReadInRange r
      → Passes
          (if is_gone r then [] else k ∷ [])
          (if is_gone r then k.fd ∷ [] else [])
          (serve_keyboard r k rs d)
  unfolding serve_keyboard
  one-Passes idle k rs d v usable range = (v, refl, refl)
  one-Passes again k rs d v usable range = (v, refl, refl)
  one-Passes gone k rs d v usable range = (v, refl, refl)
  one-Passes (event clock ev) k rs d v usable range =
      received-Passes k rs _ v (recv_event-Receives clock (rs k.grab) d ev (v k.grab usable) range)

  -- A pass in which the events read are in range, of keyboards with filled keymaps, whose resolvers have their invariants: it ends, with all
  -- invariants again; exactly the keyboards that are gone are closed, once each and in order, and the others stay in order.
  -- Or the program exits with 1.
  pub serve_keyboards-Passes :
      (reads : ℕ → Read) (ks : List Kbd) (rs : ℕ → Resolver) (d : SendDedup)
      → AllInv keymaps rs
      → All (IsUsable keymaps) ks
      → All (λ (k : Kbd). ReadInRange (reads k.fd)) ks
      → Passes (staying reads ks) (leaving reads ks) (serve_keyboards reads ks rs d)
  unfolding serve_keyboards
  serve_keyboards-Passes reads [] rs d v usable range = (v, refl, refl)
  serve_keyboards-Passes reads (k ∷ ks) rs d v usable range = with_head (reads k.fd) _ (
      then-Passes _ _ _ _ (serve_keyboards reads ks) (serve_keyboard (reads k.fd) k rs d)
        (λ rs' d' v'. serve_keyboards-Passes reads ks rs' d' v' usable.1 range.1)
        (one-Passes (reads k.fd) k rs d v usable.0 range.0))
    where
      with_head :
          (r : Read) (m : Outcome (Option Pass))
          → Passes
              ((if is_gone r then [] else k ∷ []) ++ staying reads ks)
              ((if is_gone r then k.fd ∷ [] else []) ++ leaving reads ks)
              m
          → Passes
              (if is_gone r then staying reads ks else k ∷ staying reads ks)
              (if is_gone r then k.fd ∷ leaving reads ks else leaving reads ks)
              m
      with_head gone m p = p
      with_head idle m p = p
      with_head again m p = p
      with_head (event clock ev) m p = p
