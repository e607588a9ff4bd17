-- ===== src/KeyAction/Owned.antt =====
-- The blocks that a key action owns, and what freeing it does.
use keytap.Base.{ℕ, zero, suc, ◌+◌, ◌-◌, ◌≤◌, ◌<◌, ◌≡◌, refl, arith, List, [], ◌∷◌, length, ap, ap₂}
use keytap.Input.{key_max}
use keytap.KeyAction.{KeyMacro, KeyAction, none, ref, simple, macro, dual, map}
use keytap.KeyAction.Memory.{Heap, free, key_macro_free, free_cells, key_action_free}

-- The sum of `f` at `rounds` numbers from `i` on.
unfoldable pub sum : (ℕ → ℕ) → ℕ → ℕ → ℕ
sum f zero i = 0
sum f (suc rounds) i = f i + sum f rounds (i + 1)

pub sum_zero : (f : ℕ → ℕ) (i : ℕ) → sum f 0 i ≡ 0
unfolding sum
sum_zero f i = refl

pub sum_snoc : (f : ℕ → ℕ) (n i : ℕ) → sum f (suc n) i ≡ sum f n i + f (i + n)
unfolding sum
sum_snoc f zero i = let same : i ≡ i + 0 = omega arith in omega (arith, ap f same)
sum_snoc f (suc n) i =
    let later : sum f (suc n) (i + 1) ≡ sum f n (i + 1) + f (i + 1 + n) = sum_snoc f n (i + 1) in
    let same : i + 1 + n ≡ i + suc n = omega arith in omega (arith, later, ap f same)

pub sum_cong :
    (f g : ℕ → ℕ) (n i : ℕ) → ((j : ℕ) → i ≤ j → j < i + n → f j ≡ g j) → sum f n i ≡ sum g n i
unfolding sum
sum_cong f g zero i h = refl
sum_cong f g (suc n) i h =
    ap₂ (λ a b. a + b) (h i (omega arith) (omega arith))
      (sum_cong f g n (i + 1) (λ j low high. h j (omega (arith, low)) (omega (arith, high))))

-- A pointer in a cell that the configuration left out is not owned.
unfoldable pub owned : KeyAction → ℕ
owned none = 0
owned (ref ka) = 0
owned (simple c) = 0
owned (macro ms) = length ms
owned (dual t hold mode hold_ms dtms) = 2 + owned t + owned hold
owned (map m) = 1 + sum (λ i. owned (m i)) key_max 0

pub key_macro_free-live :
    (ms : List KeyMacro) (h : Heap) → (key_macro_free ms h).live ≡ h.live - length ms
unfolding key_macro_free
key_macro_free-live [] h = omega arith
key_macro_free-live (m ∷ ms) h = omega (arith, key_macro_free-live ms (free h))

pub free_cells-live :
    (f : ℕ → Heap → Heap) (own : ℕ → ℕ)
    → ((i : ℕ) (h : Heap) → (f i h).live ≡ h.live - own i)
    → (rounds i : ℕ) (h : Heap) → (free_cells f rounds i h).live ≡ h.live - sum own rounds i
unfolding free_cells sum
free_cells-live f own frees zero i h = omega arith
free_cells-live f own frees (suc rounds) i h =
    omega (arith, free_cells-live f own frees rounds (i + 1) (f i h), frees i h)

-- Freeing gives back exactly what is owned.
pub key_action_free-live :
    (ka : KeyAction) (h : Heap) → (key_action_free ka h).live ≡ h.live - owned ka
unfolding key_action_free owned
key_action_free-live none h = omega arith
key_action_free-live (ref ka) h = omega arith
key_action_free-live (simple c) h = omega arith
key_action_free-live (macro ms) h = key_macro_free-live ms h
key_action_free-live (dual t hold mode hold_ms dtms) h =
    omega (arith, key_action_free-live t h, key_action_free-live hold (free (key_action_free t h)))
key_action_free-live (map m) h = omega (
  arith,
  free_cells-live (λ i. key_action_free (m i)) (λ i. owned (m i))
      (λ i h'. key_action_free-live (m i) h') key_max 0 h,
)
