-- ===== src/Names/Tables.antt =====
-- names.c: the two tables. khash is a library: a table is the list of what was put into it, newest first, since
-- `kh_put` of a key that is there replaces its value. Memory is taken to suffice.
use Prim.Native.Char.{code}
use Prim.Native.String.{String}
use keytap.Base.{ℕ, Bool, true, false, ◌&&◌, ◌==◌, if◌then◌else◌, List, [], ◌∷◌}
use keytap.Config.Lua.{Bytes}

-- The macros ADD_KEY and ADD_ALIAS.
pub data Entry : Type 0 where
  key alias : String → ℕ → Entry

abbrev pub name_of : Entry → String
name_of (key name value) = name
name_of (alias name value) = name

abbrev pub value_of : Entry → ℕ
value_of (key name value) = value
value_of (alias name value) = value

-- The bytes of a name, which is ASCII.
abbrev pub codes : String → Bytes
codes String.[] = []
codes (String.◌∷◌ c s) = code c ∷ codes s

pub record Maps : Type 0 where
  pub n2v : List (String × ℕ)
  pub v2n : List (ℕ × String)

abbrev pub no_maps : Maps
no_maps = record { n2v = []; v2n = [] }

unfoldable pub add : Maps → Entry → Maps
add m (key name value) = record { n2v = (name, value) ∷ m.n2v; v2n = (value, name) ∷ m.v2n }
add m (alias name value) = record m { n2v = (name, value) ∷ m.n2v }

unfoldable pub add_all : Maps → List Entry → Maps
unfolding add
add_all m [] = m
add_all m (e ∷ es) = add_all (add m e) es

unfoldable pub same_bytes : Bytes → Bytes → Bool
same_bytes [] [] = true
same_bytes (a ∷ as') (b ∷ bs) = a == b && same_bytes as' bs
same_bytes _ _ = false

-- 0 where the name is not there.
unfoldable pub find_value : List (String × ℕ) → Bytes → ℕ
unfolding same_bytes
find_value [] name = 0
find_value ((s, v) ∷ rest) name = if same_bytes (codes s) name then v else find_value rest name

unfoldable pub find_name : List (ℕ × String) → ℕ → String
find_name [] value = "unknown_key_value"
find_name ((v, s) ∷ rest) value = if v == value then s else find_name rest value
