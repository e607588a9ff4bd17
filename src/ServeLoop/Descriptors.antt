-- ===== src/ServeLoop/Descriptors.antt =====
-- Lists of the descriptors of keyboards, and how often each stands there.
use keytap.Base.{
  ℕ, ◌+◌, ◌≤◌, ◌≡◌, ap, ◌∙◌, arith, true, false, Bool, if◌then◌else◌, ◌==◌, List, [], ◌∷◌, ◌++◌,
  map, map-append, Option, some, none,
}
use keytap.ServeLoop.Keyboards.{Kbd, Read}
use keytap.ServeLoop.Passes.{staying, leaving, is_gone}

abbrev pub fds : List Kbd → List ℕ
fds kbs = map (λ (k : Kbd). k.fd) kbs

-- How often a descriptor stands in a list.
abbrev pub occurs : ℕ → List ℕ → ℕ
occurs fd [] = 0
occurs fd (x ∷ xs) = (if x == fd then 1 else 0) + occurs fd xs

pub occurs-append : (fd : ℕ) (xs ys : List ℕ) → occurs fd (xs ++ ys) ≡ occurs fd xs + occurs fd ys
occurs-append fd [] ys = omega arith
occurs-append fd (x ∷ xs) ys = omega (arith, occurs-append fd xs ys)

pub occurs-fds :
    (fd : ℕ) (ks more : List Kbd)
    → occurs fd (fds (ks ++ more)) ≡ occurs fd (fds ks) + occurs fd (fds more)
occurs-fds fd ks more =
    ap (occurs fd) (map-append (λ (k : Kbd). k.fd) ks more) ∙ occurs-append fd (fds ks) (fds more)

-- A keyboard stays or leaves.
pub leaving-staying :
    (fd : ℕ) (reads : ℕ → Read) (ks : List Kbd)
    → occurs fd (leaving reads ks) + occurs fd (fds (staying reads ks)) ≡ occurs fd (fds ks)
leaving-staying fd reads [] = omega arith
leaving-staying fd reads (k ∷ ks) = by_read (is_gone (reads k.fd)) (leaving-staying fd reads ks)
  where
    by_read :
        (b : Bool)
        → occurs fd (leaving reads ks) + occurs fd (fds (staying reads ks)) ≡ occurs fd (fds ks)
        → occurs fd (if b then k.fd ∷ leaving reads ks else leaving reads ks)
            + occurs fd (fds (if b then staying reads ks else k ∷ staying reads ks))
          ≡ occurs fd (fds (k ∷ ks))
    by_read true e = omega (arith, e)
    by_read false e = omega (arith, e)

-- A run that has ended closed each descriptor as often as it was opened, and one that goes on no more often.
abbrev pub Closed : Option ℕ → List ℕ → List ℕ → List ℕ → Type 0
Closed none closed at_start later =
    (fd : ℕ) → occurs fd closed ≤ occurs fd at_start + occurs fd later
Closed (some retval) closed at_start later =
    (fd : ℕ) → occurs fd closed ≡ occurs fd at_start + occurs fd later
