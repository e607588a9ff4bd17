-- ===== src/Base/Arrays.antt =====
-- A C array of fixed size: the value of each cell. An index from the size on is out of bounds.
use Prim.Native.Nat.{ℕ}
use mathlib.Core.Path.{◌≡◌}
use mathlib.Core.Logic.{◌≢◌}
use native.Mathlib.Omega.{arith}
use keytap.Base.Tests.{ltb, ◌==◌, if◌then◌else◌}
use keytap.Base.Outcomes.{Outcome, ok, halt, out_of_bounds}

abbrev pub Cells {ℓ} : Type ℓ → Type ℓ
Cells A = ℕ → A

module _ {ℓ} {A : Type ℓ} where
  -- The array `a` with `v` at `i`.
  abbrev pub update : Cells A → ℕ → A → Cells A
  update a i v j = if i == j then v else a j

  -- `a[i]` as a value, of an array with `size` cells.
  abbrev pub load : ℕ → Cells A → ℕ → Outcome A
  load size a i = if ltb i size then ok (a i) else halt out_of_bounds

  -- `a[i] = v`.
  abbrev pub store : ℕ → Cells A → ℕ → A → Outcome (Cells A)
  store size a i v = if ltb i size then ok (update a i v) else halt out_of_bounds

  pub update_self : (a : Cells A) (i : ℕ) (v : A) → update a i v i ≡ v
  update_self a i v = ground arith

  pub update_ne : (a : Cells A) (i j : ℕ) (v : A) → i ≢ j → update a i v j ≡ a j
  update_ne a i j v h = ground arith
