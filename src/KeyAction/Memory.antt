-- ===== src/KeyAction/Memory.antt =====
-- key_action.c: copying and freeing, with the number of blocks that are allocated. What `malloc` answers is a list,
-- after which memory is used up.
use keytap.Base.{
  ℕ, zero, suc, ◌+◌, ◌-◌, Bool, true, false, List, [], ◌∷◌, ◌++◌, Outcome, ok, halt, null_pointer,
  ◌>>=◌, Option, update,
}
use keytap.Input.{key_max}
use keytap.KeyAction.{KeyMacro, KeyAction, none, ref, simple, macro, dual, map}

-- `live` counts the blocks.
pub record Heap : Type 0 where
  pub live : ℕ
  pub answers : List Bool

abbrev pub answered : ℕ → List Bool → Bool × Heap
answered live [] = (false, record { live = live; answers = [] })
answered live (true ∷ rest) = (true, record { live = live + 1; answers = rest })
answered live (false ∷ rest) = (false, record { live = live; answers = rest })

abbrev pub malloc : Heap → Bool × Heap
malloc h = answered h.live h.answers

abbrev pub free : Heap → Heap
free h = record h { live = h.live - 1 }

unfoldable pub key_macro_free : List KeyMacro → Heap → Heap
key_macro_free [] h = h
key_macro_free (m ∷ ms) h = key_macro_free ms (free h)

-- A copy, or `none` for failure, and the heap.
abbrev pub Copy : Type 0 → Type 0
Copy A = Option A × Heap

-- The loop of `key_macro_dup`: the rest of the old chain, and the new one.
abbrev pub next_macro :
    (List KeyMacro → Heap → Copy (List KeyMacro))
    → KeyMacro
    → List KeyMacro
    → Bool × Heap
    → Copy (List KeyMacro)
next_macro rest m copy (true, h) = rest (copy ++ (m ∷ [])) h
next_macro rest m copy (false, h) = (Option.none, key_macro_free copy h)

unfoldable pub dup_rest : List KeyMacro → List KeyMacro → Heap → Copy (List KeyMacro)
dup_rest [] copy h = (Option.some copy, h)
dup_rest (m ∷ ms) copy h = next_macro (dup_rest ms) m copy (malloc h)

abbrev pub first_macro : KeyMacro → List KeyMacro → Bool × Heap → Copy (List KeyMacro)
first_macro m ms (true, h) = dup_rest ms (m ∷ []) h
first_macro m ms (false, h) = (Option.none, h)

-- The argument must not be null.
unfoldable pub key_macro_dup : List KeyMacro → Heap → Outcome (Copy (List KeyMacro))
key_macro_dup [] h = halt null_pointer
key_macro_dup (m ∷ ms) h = ok (first_macro m ms (malloc h))

-- The loop over the first cells of a map.
unfoldable pub free_cells : (ℕ → Heap → Heap) → ℕ → ℕ → Heap → Heap
free_cells f zero i h = h
free_cells f (suc rounds) i h = free_cells f rounds (i + 1) (f i h)

unfoldable pub key_action_free : KeyAction → Heap → Heap
key_action_free none h = h
key_action_free (ref ka) h = h
key_action_free (simple c) h = h
key_action_free (macro ms) h = key_macro_free ms h
key_action_free (dual t hold mode hold_ms dtms) h =
    free (key_action_free hold (free (key_action_free t h)))
key_action_free (map m) h = free (free_cells (λ i. key_action_free (m i)) key_max 0 h)

abbrev pub copied_macro : Copy (List KeyMacro) → Outcome (Copy KeyAction)
copied_macro (Option.some ms, h) = ok (Option.some (macro ms), h)
copied_macro (Option.none, h) = ok (Option.none, h)

-- The parts of a dual-mode key, in the order in which the source makes them. What the tap holds is not freed where the
-- hold fails.
abbrev pub with_hold : (KeyAction → KeyAction) → Copy KeyAction → Outcome (Copy KeyAction)
with_hold made (Option.some hold, h) = ok (Option.some (made hold), h)
with_hold made (Option.none, h) = ok (Option.none, free (free h))

abbrev pub alloc_hold :
    (Heap → Outcome (Copy KeyAction))
    → (KeyAction → KeyAction)
    → Bool × Heap
    → Outcome (Copy KeyAction)
alloc_hold dup_hold made (true, h) = dup_hold h >>= with_hold made
alloc_hold dup_hold made (false, h) = ok (Option.none, free h)

abbrev pub with_tap :
    (Heap → Outcome (Copy KeyAction))
    → (KeyAction → KeyAction → KeyAction)
    → Copy KeyAction
    → Outcome (Copy KeyAction)
with_tap dup_hold made (Option.some t, h) = alloc_hold dup_hold (made t) (malloc h)
with_tap dup_hold made (Option.none, h) = ok (Option.none, free h)

abbrev pub alloc_tap :
    (Heap → Outcome (Copy KeyAction))
    → (Heap → Outcome (Copy KeyAction))
    → (KeyAction → KeyAction → KeyAction)
    → Bool × Heap
    → Outcome (Copy KeyAction)
alloc_tap dup_tap dup_hold made (true, h) = dup_tap h >>= with_tap dup_hold made
alloc_tap dup_tap dup_hold made (false, h) = ok (Option.none, h)

-- The cells of a map from index `i`, with those copied before; these are freed where a cell fails.
abbrev pub next_cell :
    ((ℕ → KeyAction) → Heap → Outcome (Copy KeyAction))
    → ℕ
    → (ℕ → KeyAction)
    → Copy KeyAction
    → Outcome (Copy KeyAction)
next_cell rest i out (Option.some ka, h) = rest (update out i ka) h
next_cell rest i out (Option.none, h) =
    ok (Option.none, free (free_cells (λ ii. key_action_free (out ii)) i 0 h))

unfoldable pub dup_cells :
    (ℕ → Heap → Outcome (Copy KeyAction))
    → ℕ
    → ℕ
    → (ℕ → KeyAction)
    → Heap
    → Outcome (Copy KeyAction)
dup_cells f zero i out h = ok (Option.some (map out), h)
dup_cells f (suc rounds) i out h = f i h >>= next_cell (dup_cells f rounds (i + 1)) i out

abbrev pub alloc_map :
    (ℕ → Heap → Outcome (Copy KeyAction)) → Bool × Heap → Outcome (Copy KeyAction)
alloc_map f (true, h) = dup_cells f key_max 0 (λ _. none) h
alloc_map f (false, h) = ok (Option.none, h)

unfoldable pub key_action_dup : KeyAction → Heap → Outcome (Copy KeyAction)
key_action_dup none h = ok (Option.some none, h)
key_action_dup (ref ka) h = ok (Option.some (ref ka), h)
key_action_dup (simple c) h = ok (Option.some (simple c), h)
key_action_dup (macro ms) h = key_macro_dup ms h >>= copied_macro
key_action_dup (dual t hold mode hold_ms dtms) h =
    alloc_tap (key_action_dup t) (key_action_dup hold) (λ t' hold'. dual t' hold' mode hold_ms dtms)
      (malloc h)
key_action_dup (map m) h = alloc_map (λ i. key_action_dup (m i)) (malloc h)
