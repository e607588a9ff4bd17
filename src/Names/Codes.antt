-- ===== src/Names/Codes.antt =====
-- The key codes of the tables, and the tables as what config.c takes from names.c.
use Prim.Native.String.{String}
use keytap.Base.{
  ℕ, ◌<◌, ◌≡◌, refl, arith, ◌∙◌, ℤ, Bool, true, false, ◌&&◌, ◌||◌, ◌==◌, ltb, if-cases, Bool-cases,
  inl, inr, List, [], ◌∷◌, All,
}
use keytap.Input.{key_max}
use keytap.Config.Lua.{Bytes}
use keytap.Config.Lua
use keytap.Names.Tables.{
  Entry, key, alias, name_of, value_of, codes, Maps, no_maps, add, add_all, same_bytes, find_value,
  find_name,
}
use keytap.Names.{entries, names_init, get_input_value, get_input_name}
use keytap.Names.Laws.{get_input_value-entries}

-- A value that a table of names has.
unfoldable pub has_value : ℕ → List (ℕ × String) → Bool
has_value v [] = false
has_value v ((w, s) ∷ rest) = w == v || has_value v rest

-- Every pair of the table of values comes from an entry, so that its name stands for its value.
ReadsBack : (Bytes → ℕ) → List (ℕ × String) → Type 0
ReadsBack value pairs = All (λ (p : ℕ × String). value (codes p.1) ≡ p.0) pairs

add_all-ReadsBack :
    (value : Bytes → ℕ) (m : Maps) (es : List Entry)
    → ReadsBack value m.v2n
    → All (λ (e : Entry). value (codes (name_of e)) ≡ value_of e) es
    → ReadsBack value (add_all m es).v2n
unfolding add_all add ReadsBack
add_all-ReadsBack value m [] h es_read = h
add_all-ReadsBack value m (key s v ∷ es) h read =
    add_all-ReadsBack value (add m (key s v)) es (read.0, h) read.1
add_all-ReadsBack value m (alias s v ∷ es) h read =
    add_all-ReadsBack value (add m (alias s v)) es h read.1

find_name-ReadsBack :
    (value : Bytes → ℕ) (pairs : List (ℕ × String)) (v : ℕ)
    → ReadsBack value pairs
    → has_value v pairs ≡ true
    → value (codes (find_name pairs v)) ≡ v
unfolding find_name has_value ReadsBack
find_name-ReadsBack value [] v h has = cc
find_name-ReadsBack value ((w, s) ∷ rest) v h has = elim (Bool-cases (w == v)) [
  | inl here ↦ rw here (h.0 ∙ ground arith)
  | inr other ↦ rw other (find_name-ReadsBack value rest v h.1 (rw other at has))
]

-- Whatever name the program prints for a key code that has a name, that name in a configuration stands for the same
-- code.
pub get_input_value-name :
    (v : ℕ) → has_value v names_init.v2n ≡ true → get_input_value (codes (get_input_name v)) ≡ v
unfolding get_input_name names_init ReadsBack
get_input_value-name v has =
    find_name-ReadsBack get_input_value names_init.v2n v
      (add_all-ReadsBack get_input_value no_maps entries tt get_input_value-entries) has

-- A check of all entries: the value is a key code, and the name begins with K or B.
abbrev pub starts : Bytes → Bool
starts [] = false
starts (c ∷ cs) = c == b'K' || c == b'B'

fits : Entry → Bool
fits e = ltb (value_of e) key_max && starts (codes (name_of e))

all_fit : List Entry → Bool
all_fit [] = true
all_fit (e ∷ es) = fits e && all_fit es

entries_fit : all_fit entries ≡ true
unfolding all_fit fits entries
entries_fit = refl

-- The pairs of a table of names have fitting values and names.
abbrev pub Fit : List (String × ℕ) → Type 0
Fit pairs = All (λ (p : String × ℕ). (p.1 < key_max) × (starts (codes p.0) ≡ true)) pairs

add_all-Fit : (m : Maps) (es : List Entry) → Fit m.n2v → all_fit es ≡ true → Fit (add_all m es).n2v
unfolding add_all add all_fit fits
add_all-Fit m [] h ok = h
add_all-Fit m (key s v ∷ es) h ok =
    add_all-Fit (add m (key s v)) es ((ground arith, ground arith), h) (ground arith)
add_all-Fit m (alias s v ∷ es) h ok =
    add_all-Fit (add m (alias s v)) es ((ground arith, ground arith), h) (ground arith)

pub names_init-Fit : Fit names_init.n2v
unfolding names_init
names_init-Fit = add_all-Fit no_maps entries tt entries_fit

find_value-lt :
    (pairs : List (String × ℕ)) (name : Bytes) → Fit pairs → find_value pairs name < key_max
unfolding find_value
find_value-lt [] name h = omega arith
find_value-lt ((s, v) ∷ rest) name h =
    if-cases (λ n. n < key_max) (same_bytes (codes s) name) v (find_value rest name) (λ here. h.0.0)
      (λ other. find_value-lt rest name h.1)

pub same_bytes-starts :
    (xs ys : Bytes) → same_bytes xs ys ≡ true → starts xs ≡ true → starts ys ≡ true
unfolding same_bytes
same_bytes-starts [] ys e s = cc
same_bytes-starts (x ∷ xs) [] e s = cc
same_bytes-starts (x ∷ xs) (y ∷ ys) e s = ground arith

find_value-none :
    (pairs : List (String × ℕ)) (name : Bytes)
    → Fit pairs
    → starts name ≡ false
    → find_value pairs name ≡ 0
unfolding find_value
find_value-none [] name h no_start = refl
find_value-none ((s, v) ∷ rest) name h no_start = elim (Bool-cases (same_bytes (codes s) name)) [
  | inl same ↦ let bad = same_bytes-starts (codes s) name same h.0.1 in cc
  | inr other ↦ rw other (find_value-none rest name h.1 no_start)
]

-- Every text gets a code below `key_max`, and one that does not begin with K or B gets 0.
pub get_input_value-lt : (name : Bytes) → get_input_value name < key_max
unfolding get_input_value
get_input_value-lt name = find_value-lt names_init.n2v name names_init-Fit

pub get_input_value-none : (name : Bytes) → starts name ≡ false → get_input_value name ≡ 0
unfolding get_input_value
get_input_value-none name no_start = find_value-none names_init.n2v name names_init-Fit no_start

-- The tables of names.c are what config.c asks for, where Lua writes no number with K or B in front.
unfoldable pub names :
    (number_text : ℤ → Bytes) → ((n : ℤ) → starts (number_text n) ≡ false) → Lua.Names
names number_text no_start = record {
  get_input_value = get_input_value;
  number_text = number_text;
  in_range = get_input_value-lt;
  no_number = λ n. get_input_value-none (number_text n) (no_start n);
}
