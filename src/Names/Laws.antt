-- ===== src/Names/Laws.antt =====
-- What the tables hold: names and values read back.
use Prim.Native.Char.{code}
use Prim.Native.String.{String}
use text.Mathlib.Text as Text
use text.Mathlib.TextEquality.{Char-path, eq_iff}
use keytap.Base.{
  ◌≡◌, refl, arith, ap, sym, ◌∙◌, Bool, true, false, ◌&&◌, if◌then◌else◌, Bool-cases, inl, inr,
  List, [], ◌∷◌, All, ==_refl,
}
use keytap.Config.Lua.{Bytes}
use keytap.Names.Tables.{
  Entry, key, alias, name_of, value_of, codes, Maps, no_maps, add, add_all, same_bytes, find_value,
}
use keytap.Names.{entries, names_init, get_input_value}

-- No later entry has this name.
fresh_name : String → List Entry → Bool
fresh_name s [] = true
fresh_name s (e ∷ es) = if Text.◌==◌ s (name_of e) then false else fresh_name s es

all_fresh : List Entry → Bool
all_fresh [] = true
all_fresh (e ∷ es) = fresh_name (name_of e) es && all_fresh es

-- All names of the source are different.
entries_fresh : all_fresh entries ≡ true
unfolding all_fresh fresh_name entries
entries_fresh = refl

pub same_bytes-eq : (xs ys : Bytes) → same_bytes xs ys ≡ true → xs ≡ ys
unfolding same_bytes
same_bytes-eq [] [] e = refl
same_bytes-eq [] (y ∷ ys) e = cc
same_bytes-eq (x ∷ xs) [] e = cc
same_bytes-eq (x ∷ xs) (y ∷ ys) e = ground (arith, same_bytes-eq xs ys)

pub same_bytes_refl : (xs : Bytes) → same_bytes xs xs ≡ true
unfolding same_bytes
same_bytes_refl [] = refl
same_bytes_refl (x ∷ xs) = rw (==_refl x, same_bytes_refl xs) refl

codes_inj : (s t : String) → codes s ≡ codes t → s ≡ t
codes_inj String.[] String.[] e = refl
codes_inj String.[] (String.◌∷◌ d t) e = cc
codes_inj (String.◌∷◌ c s) String.[] e = cc
codes_inj (String.◌∷◌ c s) (String.◌∷◌ d t) e =
    let heads : code c ≡ code d = cc in
    let tails : codes s ≡ codes t = cc in
    λ i. String.◌∷◌ (Char-path c d heads i) (codes_inj s t tails i)

other_name : (s t : String) → (Text.◌==◌ s t) ≡ false → same_bytes (codes t) (codes s) ≡ false
other_name s t e = elim (Bool-cases (same_bytes (codes t) (codes s))) [
  | inl same ↦
      let equal : s ≡ t = sym (codes_inj t s (same_bytes-eq (codes t) (codes s) same)) in
      let yes_equal : (Text.◌==◌ s t) ≡ true = (eq_iff s t).1 equal in cc
  | inr other ↦ other
]

n2v-add : (m : Maps) (e : Entry) → (add m e).n2v ≡ (name_of e, value_of e) ∷ m.n2v
unfolding add
n2v-add m (key s v) = refl
n2v-add m (alias s v) = refl

find_value-add_all :
    (s : String) (m : Maps) (es : List Entry)
    → fresh_name s es ≡ true
    → find_value (add_all m es).n2v (codes s) ≡ find_value m.n2v (codes s)
unfolding add_all find_value fresh_name
find_value-add_all s m [] fresh = refl
find_value-add_all s m (e ∷ es) fresh = elim (Bool-cases (Text.◌==◌ s (name_of e))) [
  | inl same ↦ let bad = rw same at fresh in cc
  | inr other ↦
      find_value-add_all s (add m e) es (rw other at fresh)
      ∙ ap (λ t. find_value t (codes s)) (n2v-add m e)
      ∙ rw (other_name s (name_of e) other) refl
]

reads_back :
    (m : Maps) (es : List Entry)
    → all_fresh es ≡ true
    → All (λ (e : Entry). find_value (add_all m es).n2v (codes (name_of e)) ≡ value_of e) es
unfolding add_all find_value all_fresh
reads_back m [] fresh = tt
reads_back m (e ∷ es) fresh =
    let first : fresh_name (name_of e) es ≡ true = ground arith in
    let rest : all_fresh es ≡ true = ground arith in
    (
      find_value-add_all (name_of e) (add m e) es first
          ∙ ap (λ t. find_value t (codes (name_of e))) (n2v-add m e)
          ∙ rw (same_bytes_refl (codes (name_of e))) refl,
      reads_back (add m e) es rest,
    )

-- Every name of the source, alias or not, stands for the value that it was given.
pub get_input_value-entries :
    All (λ (e : Entry). get_input_value (codes (name_of e)) ≡ value_of e) entries
unfolding get_input_value names_init
get_input_value-entries = reads_back no_maps entries entries_fresh
