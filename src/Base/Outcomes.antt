-- ===== src/Base/Outcomes.antt =====
-- What a C function does: it returns, or the program stops. Undefined behaviour is a stop too.
use Prim.Native.Nat.{ℕ}
use mathlib.Core.Path.{◌≡◌, refl}

-- `exit_with n` is the call `exit(n)`; the others are undefined behaviour.
pub data Halt : Type 0 where
  out_of_bounds null_pointer : Halt
  exit_with : ℕ → Halt

pub data Outcome {ℓ} (A : Type ℓ) : Type ℓ where
  ok : A → Outcome A
  halt : Halt → Outcome A

infixl 5 ◌>>=◌
abbrev pub ◌>>=◌ {ℓ κ} : {A : Type ℓ} {B : Type κ} → Outcome A → (A → Outcome B) → Outcome B
ok a >>= f = f a
halt h >>= f = halt h

pub >>=-eq-ok {ℓ κ} :
    {A : Type ℓ} {B : Type κ} (m : Outcome A) (f : A → Outcome B) {b : B}
    → (m >>= f) ≡ ok b
    → (a : A) × (m ≡ ok a) × (f a ≡ ok b)
>>=-eq-ok (ok a) f e = (a, refl, e)
>>=-eq-ok (halt h) f e = cc
