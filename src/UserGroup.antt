-- ===== src/UserGroup.antt =====
-- sdiol.c, `split_user_group`: the argument USER:GROUP of the command line. Memory is taken to suffice.
pub mod Laws
use keytap.Base.{ℕ, ◌+◌, Bool, ◌==◌, if◌then◌else◌, Option, List, [], ◌∷◌, take, drop}
use keytap.Config.Lua.{Bytes}

-- `unset` is the return value 0 for a null pointer, `invalid` is -1, and `parts` sets the user and the group.
pub data Split : Type 0 where
  unset : Split
  invalid : Split
  parts : Bytes → Bytes → Split

-- A colon after another ends the search with an error.
abbrev pub only_colon : Option ℕ → Option (Option ℕ) → Option (Option ℕ)
only_colon Option.none rest = rest
only_colon (Option.some before) rest = Option.none

-- The loop from index `i`, with the colon found so far.
unfoldable pub find_colon : Bytes → ℕ → Option ℕ → Option (Option ℕ)
find_colon [] i colon = Option.some colon
find_colon (c ∷ cs) i colon =
    if c == b':'
    then only_colon colon (find_colon cs (i + 1) (Option.some i))
    else find_colon cs (i + 1) colon

abbrev pub split_at : Bytes → Option (Option ℕ) → Split
split_at user_group Option.none = invalid
split_at user_group (Option.some Option.none) = invalid
split_at user_group (Option.some (Option.some colon)) =
    parts (take colon user_group) (drop (colon + 1) user_group)

unfoldable pub split_user_group : Option Bytes → Split
unfolding find_colon
split_user_group Option.none = unset
split_user_group (Option.some user_group) =
    split_at user_group (find_colon user_group 0 Option.none)
