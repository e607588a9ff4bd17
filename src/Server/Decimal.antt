-- ===== src/Server/Decimal.antt =====
-- The decimal digits of a number, as `%lu` prints them, and the number that digits stand for.
use Prim.Native.Nat.{ℕ, zero, suc, ◌+◌, ◌/◌, ◌%◌}
use keytap.Base.{if◌then◌else◌, ltb, List, [], ◌∷◌, ◌++◌}

-- With as many rounds as there are digits; 64 are more than any number below 2 ^ 64 has.
unfoldable pub digits_from : ℕ → ℕ → List ℕ
digits_from zero n = []
digits_from (suc rounds) n =
    let rest = digits_from rounds (n / 10) in
    if ltb n 10 then (b'0' + n) ∷ [] else rest ++ ((b'0' + n % 10) ∷ [])

unfoldable pub decimal : ℕ → List ℕ
unfolding digits_from
decimal n = digits_from 64 n
