-- ===== src/Config/Macro.antt =====
-- config.c, `macro` and the functions made by DEF_LUA_MOD: chains of key events. `none` is a Lua error.
use mathlib.Core.Option
use keytap.Base.{
  All-append, ℕ, ◌+◌, ◌<◌, ◌≡◌, refl, arith, ℤ, Bool, true, false, Option, if◌then◌else◌, ltb,
  ltb→lt, ◌==◌, ◌&&◌, not, List, [], ◌∷◌, ◌++◌, All, if-cases, pos, negsuc, to_int,
}
use keytap.Base.Options.{◌>>=◌}
use keytap.Input.{key_max}
use keytap.KeyAction.{KeyAction, KeyMacro}
use keytap.Config.Lua.{LuaValue, integer, userdata}
use keytap.Config.Copy.{valid_code}

abbrev pub key_macro_new : ℕ → Bool → KeyMacro
key_macro_new code press = record { code = code; press = press }

-- A press and a release.
abbrev pub simple_macro : ℕ → List KeyMacro
simple_macro n = key_macro_new n true ∷ key_macro_new n false ∷ []

unfoldable pub append_simple_key_to_macro : ℤ → Option (List KeyMacro)
append_simple_key_to_macro n = Option.map simple_macro (valid_code n)

abbrev pub action_macro : KeyAction → Option (List KeyMacro)
action_macro (KeyAction.simple c) = append_simple_key_to_macro (pos c)
action_macro (KeyAction.macro ms) = Option.some ms
action_macro _ = Option.none

-- What an argument appends to the chain. A Lua number is cut to an `int` before its check.
unfoldable pub append_copy_to_macro : LuaValue → Option (List KeyMacro)
unfolding append_simple_key_to_macro
append_copy_to_macro (integer n) = append_simple_key_to_macro (to_int n)
append_copy_to_macro (userdata ka) = action_macro ka
append_copy_to_macro _ = Option.none

-- The loop over the arguments.
unfoldable pub append_args : List LuaValue → Option (List KeyMacro)
unfolding append_copy_to_macro
append_args [] = Option.some []
append_args (v ∷ vs) = do
  first ← append_copy_to_macro v
  rest ← append_args vs
  Option.some (first ++ rest)

unfoldable pub lua_macro : List LuaValue → Option KeyAction
unfolding append_args
lua_macro [] = Option.none
lua_macro (v ∷ vs) = Option.map KeyAction.macro (append_args (v ∷ vs))

-- The chain between the press and the release of a modifier.
abbrev pub wrap : ℕ → List KeyMacro → List KeyMacro
wrap num ms = key_macro_new num true ∷ (ms ++ (key_macro_new num false ∷ []))

-- DEF_LUA_MOD with the modifier's code: `shift` is 42, `ctrl` 29, `alt` 56 and `meta` 125.
unfoldable pub lua_mod : ℕ → List LuaValue → Option KeyAction
unfolding append_args
lua_mod num [] = Option.none
lua_mod num (v ∷ vs) = Option.map (λ ms. KeyAction.macro (wrap num ms)) (append_args (v ∷ vs))

-- How often a chain presses or releases a key.
pub count_macro : Bool → ℕ → List KeyMacro → ℕ
count_macro p c [] = 0
count_macro p c (m ∷ ms) =
    (if (m.code == c) && (if p then m.press else not m.press) then 1 else 0) + count_macro p c ms

-- A chain that leaves no key down: in range, and as many releases as presses of each key.
pub record IsBalanced (ms : List KeyMacro) : Type 0 where
  pub codes : All (λ (m : KeyMacro). m.code < key_max) ms
  pub balance : (c : ℕ) → count_macro true c ms ≡ count_macro false c ms

abbrev pub BalancedAction : KeyAction → Type 0
BalancedAction (KeyAction.macro ms) = IsBalanced ms
BalancedAction _ = Unit

abbrev pub BalancedValue : LuaValue → Type 0
BalancedValue (userdata ka) = BalancedAction ka
BalancedValue _ = Unit

count_macro-append :
    (p : Bool) (c : ℕ) (xs ys : List KeyMacro)
    → count_macro p c (xs ++ ys) ≡ count_macro p c xs + count_macro p c ys
unfolding count_macro
count_macro-append p c [] ys = omega arith
count_macro-append p c (m ∷ xs) ys = omega (arith, count_macro-append p c xs ys)

append-IsBalanced : (xs ys : List KeyMacro) → IsBalanced xs → IsBalanced ys → IsBalanced (xs ++ ys)
append-IsBalanced xs ys h k = record {
  codes = All-append _ xs ys h.codes k.codes;
  balance = λ c. omega (
    arith,
    count_macro-append true c xs ys,
    count_macro-append false c xs ys,
    h.balance c,
    k.balance c,
  );
}

simple_macro-IsBalanced : (n : ℕ) → n < key_max → IsBalanced (simple_macro n)
simple_macro-IsBalanced n lt = record {
  codes = (lt, (lt, tt));
  balance = λ c. unfold count_macro in ground arith;
}

wrap-IsBalanced :
    (num : ℕ) (ms : List KeyMacro) → num < key_max → IsBalanced ms → IsBalanced (wrap num ms)
wrap-IsBalanced num ms lt h = record {
  codes = (lt, All-append _ ms _ h.codes (lt, tt));
  balance = λ c.
      unfold count_macro in
      ground (
        arith,
        count_macro-append true c ms (key_macro_new num false ∷ []),
        count_macro-append false c ms (key_macro_new num false ∷ []),
        h.balance c,
      );
}

abbrev Balanced : Option (List KeyMacro) → Type 0
Balanced (Option.some ms) = IsBalanced ms
Balanced Option.none = Unit

append_simple-Balanced : (n : ℤ) → Balanced (append_simple_key_to_macro n)
unfolding append_simple_key_to_macro
append_simple-Balanced (pos n) =
    if-cases (λ o. Balanced (Option.map simple_macro o)) (ltb n key_max) _ _
      (λ h. simple_macro-IsBalanced n (ltb→lt _ _ h)) (λ _. tt)
append_simple-Balanced (negsuc n) = tt

append_copy-Balanced : (v : LuaValue) → BalancedValue v → Balanced (append_copy_to_macro v)
unfolding append_copy_to_macro
append_copy-Balanced (integer n) b = append_simple-Balanced (to_int n)
append_copy-Balanced (userdata (KeyAction.simple c)) b = append_simple-Balanced (pos c)
append_copy-Balanced (userdata (KeyAction.macro ms)) b = b
append_copy-Balanced (userdata _) b = tt
append_copy-Balanced _ b = tt

append_args-Balanced : (vs : List LuaValue) → All BalancedValue vs → Balanced (append_args vs)
unfolding append_args
append_args-Balanced [] b = record { codes = tt; balance = λ c. unfold count_macro in refl }
append_args-Balanced (v ∷ vs) b =
    joined (append_copy_to_macro v) (append_args vs) (append_copy-Balanced v b.0)
      (append_args-Balanced vs b.1)
  where
    joined :
        (x y : Option (List KeyMacro))
        → Balanced x
        → Balanced y
        → Balanced (x >>= λ first. y >>= λ rest. Option.some (first ++ rest))
    joined (Option.some x) (Option.some y) h k = append-IsBalanced x y h k
    joined (Option.some x) Option.none h k = tt
    joined Option.none y h k = tt

abbrev pub BalancedKey : Option KeyAction → Type 0
BalancedKey (Option.some ka) = BalancedAction ka
BalancedKey Option.none = Unit

-- The chain that `macro` builds from numbers, each cut to an `int` first, and from balanced chains is balanced, and so is that of `shift`, `ctrl`, `alt` and `meta`, whose code is below `key_max`: each key is released as often as it is pressed, and its code is below `key_max`.
pub macro_balanced :
    (num : ℕ) (vs : List LuaValue)
    → num < key_max
    → All BalancedValue vs
    → BalancedKey (lua_macro vs) × BalancedKey (lua_mod num vs)
unfolding lua_macro lua_mod
macro_balanced num [] lt b = (tt, tt)
macro_balanced num (v ∷ vs) lt b = built (append_args (v ∷ vs)) (append_args-Balanced (v ∷ vs) b)
  where
    built :
        (m : Option (List KeyMacro))
        → Balanced m
        → BalancedKey (Option.map KeyAction.macro m)
          × BalancedKey (Option.map (λ ms. KeyAction.macro (wrap num ms)) m)
    built (Option.some ms) h = (h, wrap-IsBalanced num ms lt h)
    built Option.none h = (tt, tt)
