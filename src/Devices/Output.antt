-- ===== src/Devices/Output.antt =====
-- devices.c, `open_output` and `enable_ev_key_value`, with `for_each_value` of names.c: what the virtual keyboard may send.
use Prim.Native.String.{String}
use keytap.Base.{
  ℕ, zero, suc, ◌+◌, ◌≡◌, ◌≢◌, refl, arith, Bool, true, false, ◌&&◌, ◌||◌, ◌==◌, Bool-cases, inl,
  inr, List, [], ◌∷◌, ◌++◌, Option, some, none, All, if-cases,
}
use keytap.Input.{ev_key, ev_syn}
use keytap.Config.Lua.{Bytes}
use keytap.Names.Tables.{
  Entry, value_of, key, alias, codes, Maps, no_maps, add, add_all, same_bytes, find_value,
}
use keytap.Names.{entries, names_init, get_input_value}
use keytap.Names.Codes.{has_value}

-- The requests to uinput.
pub data Ioctl : Type 0 where
  set_evbit set_keybit set_relbit : ℕ → Ioctl
  dev_create : Ioctl

abbrev pub ev_rel : ℕ
ev_rel = 2

abbrev pub ev_msc : ℕ
ev_msc = 4

-- `REL_MAX`; `REL_X` is 0.
abbrev pub rel_max : ℕ
rel_max = 15

-- The calls of a hook for the pairs of the table of values, in the table's order, which khash chooses.
unfoldable pub for_each_value : (String → ℕ → List Ioctl) → List (ℕ × String) → List Ioctl
for_each_value hook [] = []
for_each_value hook ((value, name) ∷ rest) = hook name value ++ for_each_value hook rest

abbrev pub enable_ev_key_value : String → ℕ → List Ioctl
enable_ev_key_value name value = set_keybit value ∷ []

-- `for(i = from; i <= REL_MAX; i++)`, with the rounds.
abbrev pub all_rel : ℕ → ℕ → List Ioctl
all_rel zero i = []
all_rel (suc rounds) i = set_relbit i ∷ all_rel rounds (i + 1)

-- `open` gives a descriptor or fails. The requests follow, and the result.
unfoldable pub open_output : Option ℕ → Option ℕ × List Ioctl
unfolding names_init for_each_value
open_output none = (none, [])
open_output (some fd) = (
  some fd,
  set_evbit ev_key
      ∷ set_evbit ev_syn
      ∷ set_evbit ev_msc
      ∷ set_evbit ev_rel
      ∷ (for_each_value enable_ev_key_value names_init.v2n
          ++ (all_rel (rel_max + 1) 0 ++ (dev_create ∷ []))),
)

-- The key `v` is among those requested.
pub enables : ℕ → List Ioctl → Bool
enables v [] = false
enables v (set_keybit w ∷ acts) = w == v || enables v acts
enables v (_ ∷ acts) = enables v acts

enables-for_each_value :
    (v : ℕ) (pairs : List (ℕ × String)) (acts : List Ioctl)
    → has_value v pairs ≡ true
    → enables v (for_each_value enable_ev_key_value pairs ++ acts) ≡ true
unfolding enables for_each_value has_value
enables-for_each_value v [] acts has = cc
enables-for_each_value v ((w, s) ∷ rest) acts has = elim (Bool-cases (w == v)) [
  | inl here ↦ rw here refl
  | inr other ↦ rw other (enables-for_each_value v rest acts (rw other at has))
]

-- A check of the entries: the value of each is 0 or in a table of values.
all_valued : List (ℕ × String) → List Entry → Bool
all_valued pairs [] = true
all_valued pairs (e ∷ es) = (value_of e == 0 || has_value (value_of e) pairs) && all_valued pairs es

entries_valued : all_valued names_init.v2n entries ≡ true
unfolding all_valued entries names_init has_value
entries_valued = refl

and_true : (a b : Bool) → (a && b) ≡ true → (a ≡ true) × (b ≡ true)
and_true a b e = ground arith

-- Every pair of a table of names has such a value.
AllValued : List (ℕ × String) → List (String × ℕ) → Type 0
AllValued pairs named = All (λ (p : String × ℕ). (p.1 == 0 || has_value p.1 pairs) ≡ true) named

add_all-AllValued :
    (pairs : List (ℕ × String)) (m : Maps) (es : List Entry)
    → AllValued pairs m.n2v
    → all_valued pairs es ≡ true
    → AllValued pairs (add_all m es).n2v
unfolding add_all add all_valued AllValued
add_all-AllValued pairs m [] h good = h
add_all-AllValued pairs m (key s v ∷ es) h good =
    add_all-AllValued pairs (add m (key s v)) es ((and_true _ _ good).0, h) (and_true _ _ good).1
add_all-AllValued pairs m (alias s v ∷ es) h good =
    add_all-AllValued pairs (add m (alias s v)) es ((and_true _ _ good).0, h) (and_true _ _ good).1

find_value-AllValued :
    (pairs : List (ℕ × String)) (named : List (String × ℕ)) (name : Bytes)
    → AllValued pairs named
    → (find_value named name == 0 || has_value (find_value named name) pairs) ≡ true
unfolding find_value AllValued
find_value-AllValued pairs [] name h = refl
find_value-AllValued pairs ((s, v) ∷ rest) name h =
    if-cases (λ n. (n == 0 || has_value n pairs) ≡ true) (same_bytes (codes s) name) v
      (find_value rest name) (λ here. h.0) (λ other. find_value-AllValued pairs rest name h.1)

names_init-AllValued : AllValued names_init.v2n names_init.n2v
unfolding names_init AllValued
names_init-AllValued = add_all-AllValued names_init.v2n no_maps entries tt entries_valued

nonzero_or : (v : ℕ) (b : Bool) → v ≢ 0 → (v == 0 || b) ≡ true → b ≡ true
nonzero_or v b ne e = ground arith

-- Whatever code a name in a configuration stands for, the virtual keyboard may send it.
pub open_output-enables :
    (fd : ℕ) (name : Bytes)
    → get_input_value name ≢ 0
    → enables (get_input_value name) (open_output (some fd)).1 ≡ true
unfolding open_output get_input_value enables
open_output-enables fd name found =
    enables-for_each_value (get_input_value name) names_init.v2n
      (all_rel (rel_max + 1) 0 ++ (dev_create ∷ []))
      (nonzero_or (get_input_value name) _ found
        (find_value-AllValued names_init.v2n names_init.n2v name names_init-AllValued))
