-- ===== src/Resolver/Safety.antt =====
-- With a filled keymap and key codes inside the arrays, no part of `resolve` stops the program.
use keytap.Base.{
  subst, sym, ℕ, ◌<◌, ◌≡◌, ◌≢◌, ◌⊎◌, inl, inr, refl, arith, true, List, [], ◌∷◌, ok, halt, All,
  update, lt→ltb,
}
use keytap.Input.{InputEvent, is_key, key_max}
use keytap.KeyAction.{KeyAction, none, ref, simple, macro, dual, map, KeyMacro}
use keytap.Resolver.{Resolver, reset_keymap}
use keytap.Resolver.Steps.{Resolved, resolved_by, do_keypress, macro_events}
use keytap.Resolver.Frame.{OnlyLastTap}

-- The actions that `dual_key` accepts for its parts.
abbrev pub NotDual : KeyAction → Type 0
NotDual (dual t h mode hold_ms dtms) = ⊥
NotDual ka = Unit

-- An action that the resolver can carry out: all cells of its maps are filled, and codes are in range.
abbrev pub IsAction : KeyAction → Type 0
IsAction none = ⊥
IsAction (ref ka) = ⊥
IsAction (simple c) = c < key_max
IsAction (macro ms) = All (λ (m : KeyMacro). m.code < key_max) ms
IsAction (dual t h mode hold_ms dtms) = IsAction t × NotDual t × IsAction h × NotDual h
IsAction (map m) = (i : ℕ) → i < key_max → IsAction (m i)

abbrev pub IsKeymap : KeyAction → Type 0
IsKeymap (map m) = (i : ℕ) → i < key_max → IsAction (m i)
IsKeymap ka = ⊥

-- Only at `key_max` itself do the guards of the code let an index out of the arrays through.
abbrev pub InRange : InputEvent → Type 0
InRange e = is_key e ≡ true → e.code ≢ key_max

pub record IsReady (r : Resolver) : Type 0 where
  pub root : IsKeymap r.root_keymap
  pub current : IsKeymap r.current_keymap
  pub releases :
      (i : ℕ) → i < key_max → (r.release_map i < key_max) ⊎ (r.release_map i ≡ reset_keymap)

-- The call returns, to a ready resolver, and sends events in range.
abbrev pub ReadyAfter : Resolved → Type 0
ReadyAfter (ok (b, r, sent)) = IsReady r × All InRange sent
ReadyAfter (halt h) = ⊥

pub macro_events-InRange :
    (ms : List KeyMacro)
    → All (λ (m : KeyMacro). m.code < key_max) ms
    → All InRange (macro_events ms)
unfolding macro_events
macro_events-InRange [] h = tt
macro_events-InRange (m ∷ ms) h = ((λ k. omega arith), ((λ k. cc), macro_events-InRange ms h.1))

press-IsReady :
    {r : Resolver} (code : ℕ) (c : ℕ)
    → (c < key_max) ⊎ (c ≡ reset_keymap)
    → IsReady r
    → IsReady (record r { release_map = update r.release_map code c })
press-IsReady code c h v = record {
  root = v.root;
  current = v.current;
  releases = λ i lt. ground (arith, v.releases i);
}

pub do_keypress-ReadyAfter :
    (r : Resolver) (ev : InputEvent) (ka : KeyAction)
    → IsReady r
    → ev.code < key_max
    → IsAction ka
    → NotDual ka
    → ReadyAfter (resolved_by (do_keypress r ev ka))
unfolding do_keypress
do_keypress-ReadyAfter r ev none v lt a n = absurd a
do_keypress-ReadyAfter r ev (ref ka) v lt a n = absurd a
do_keypress-ReadyAfter r ev (dual t h mode hold_ms dtms) v lt a n = absurd n
do_keypress-ReadyAfter r ev (simple c) v lt a n =
    rw (lt→ltb _ _ lt) (press-IsReady ev.code c (inl a) v, ((λ k. omega arith), tt))
do_keypress-ReadyAfter r ev (macro ms) v lt a n = (v, macro_events-InRange ms a)
do_keypress-ReadyAfter r ev (map m) v lt a n = rw (lt→ltb _ _ lt) (
  record {
    root = v.root;
    current = a;
    releases = (press-IsReady ev.code reset_keymap (inr refl) v).releases;
  },
  tt,
)

pub OnlyLastTap-IsReady : {r r' : Resolver} → OnlyLastTap r r' → IsReady r → IsReady r'
OnlyLastTap-IsReady same v = record {
  root = subst IsKeymap (sym same.root_keymap) v.root;
  current = subst IsKeymap (sym same.current_keymap) v.current;
  releases = λ i lt. rw same.release_map (v.releases i lt);
}
