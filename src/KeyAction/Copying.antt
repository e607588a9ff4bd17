-- ===== src/KeyAction/Copying.antt =====
-- What `key_action_dup` allocates, whether it succeeds or fails.
use mathlib.Core.Option
use keytap.Base.{
  ℕ, ◌+◌, ◌-◌, ◌<◌, ◌≡◌, arith, ap, Bool, true, false, List, [], ◌∷◌, ◌++◌, length, Outcome, ok,
  halt, ℤ,
}
use keytap.Input.{key_max}
use keytap.KeyAction.{KeyMacro, DualMode, KeyAction, none, ref, simple, macro, dual, map}
use keytap.KeyAction.Memory.{Copy, key_action_dup}
use keytap.KeyAction.Owned.{sum, owned}

-- A chain copied behind `before`, which is freed on failure.
abbrev ChainCopied : List KeyMacro → List KeyMacro → ℕ → Copy (List KeyMacro) → Type 0
ChainCopied before ms live (Option.some ms', h) = (ms' ≡ before ++ ms) × (h.live ≡ live + length ms)
ChainCopied before ms live (Option.none, h) = h.live ≡ live - length before

-- The copy is the same action: at every cell of a map.
abbrev pub Same : KeyAction → KeyAction → Type 0
Same none k = k ≡ none
Same (ref ka) k = k ≡ ref ka
Same (simple c) k = k ≡ simple c
Same (macro ms) k = k ≡ macro ms
Same (dual t hold mode hold_ms dtms) k =
    (t' : KeyAction) × (hold' : KeyAction) × (k ≡ dual t' hold' mode hold_ms dtms)
    × Same t t'
    × Same hold hold'
Same (map m) k = (m' : ℕ → KeyAction) × (k ≡ map m') × ((i : ℕ) → i < key_max → Same (m i) (m' i))

-- No chain is empty, and the tap of a dual-mode key owns nothing.
abbrev pub Copyable : KeyAction → Type 0
Copyable (macro []) = ⊥
Copyable (macro (m ∷ ms)) = Unit
Copyable (dual t hold mode hold_ms dtms) = Copyable t × Copyable hold × (owned t ≡ 0)
Copyable (map m) = (i : ℕ) → i < key_max → Copyable (m i)
Copyable _ = Unit

-- A copy that succeeded is the same and owns as much, which is what was allocated; one that failed has left nothing.
abbrev pub Copied : KeyAction → ℕ → Outcome (Copy KeyAction) → Type 0
Copied ka live (ok (Option.some ka', h)) =
    Same ka ka' × (owned ka' ≡ owned ka) × (h.live ≡ live + owned ka)
Copied ka live (ok (Option.none, h)) = h.live ≡ live
Copied ka live (halt h) = ⊥

-- The two parts of a dual-mode key.
module _ (t hold : KeyAction) (mode : DualMode) (hold_ms dtms : ℤ) (live : ℕ)
    (light : owned t ≡ 0) where
  abbrev made : KeyAction → KeyAction → KeyAction
  made t' hold' = dual t' hold' mode hold_ms dtms

-- The cells of a map that are copied before index `i`.
record CellsCopied (m out : ℕ → KeyAction) (i : ℕ) : Type 0 where
  same : (j : ℕ) → j < i → Same (m j) (out j)
  own : (j : ℕ) → j < i → owned (out j) ≡ owned (m j)

module _ (m : ℕ → KeyAction) (live : ℕ) where
  abbrev own_cells : ℕ → ℕ
  own_cells i = sum (λ j. owned (m j)) i 0

-- Where the tap of a dual-mode key was copied and `malloc` then fails for the hold, the copy of the tap stays allocated
-- without an owner.
pub tap_leaks :
    (t t' hold : KeyAction) (mode : DualMode) (hold_ms dtms : ℤ) (live : ℕ)
    (before rest : List Bool)
    → key_action_dup t (record { live = live + 1; answers = before })
      ≡ ok (Option.some t', record { live = live + 1 + owned t; answers = false ∷ rest })
    → key_action_dup
        (dual t hold mode hold_ms dtms)
        (record { live = live; answers = true ∷ before })
      ≡ ok (Option.none, record { live = live + owned t; answers = rest })
unfolding key_action_dup
tap_leaks t t' hold mode hold_ms dtms live before rest e =
    rw e (ap (λ (n : ℕ). ok (Option.none, record { live = n; answers = rest })) (omega arith))
