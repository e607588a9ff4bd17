-- ===== src/Permissions.antt =====
-- permissions.c: the owner and the mode of the socket file. The C library and the system are parameters.
pub mod Laws
use keytap.Base.{
  ℕ, ◌+◌, ◌<◌, ◌≡◌, ℤ, pos, negsuc, Bool, true, false, not, ◌&&◌, ◌||◌, if◌then◌else◌, ltb, Option,
  List, [], ◌∷◌, ◌++◌,
}
use keytap.Config.Lua.{Bytes}

abbrev pub uint_max : ℕ
uint_max = 0xffffffff

-- `strtol` in a base gives the number and the text from `endptr` on. The lookups give nothing at an error,
-- and `some none` where there is no such name. `chown` and `chmod` say whether they succeed.
pub record System : Type 0 where
  pub strtol : ℕ → Bytes → ℤ × Bytes
  pub getpwnam : Bytes → Option (Option ℕ)
  pub getgrnam : Bytes → Option (Option ℕ)
  pub chown : Bytes → ℕ → ℕ → Bool
  pub chmod : Bytes → ℕ → Bool

pub data Call : Type 0 where
  chown_call : Bytes → ℕ → ℕ → Call
  chmod_call : Bytes → ℕ → Call

abbrev pub is_empty : Bytes → Bool
is_empty [] = true
is_empty (c ∷ cs) = false

-- A number that fits `unsigned int`.
abbrev pub unsigned_of : ℤ → Option ℕ
unsigned_of (pos n) = if ltb uint_max n then Option.none else Option.some n
unsigned_of (negsuc n) = Option.none

abbrev pub found : Option (Option ℕ) → Option ℕ
found Option.none = Option.none
found (Option.some id) = id

module _ (sys : System) where
  -- What the two functions share: a number, or a name to look up.
  abbrev pub get_id_from_string : (Bytes → Option (Option ℕ)) → Bytes → Option ℕ
  get_id_from_string lookup name =
      let (n, rest) = sys.strtol 0 name in
      if not (is_empty name) && is_empty rest then unsigned_of n else found (lookup name)

  unfoldable pub get_uid_from_string : Bytes → Option ℕ
  get_uid_from_string user = get_id_from_string sys.getpwnam user

  unfoldable pub get_gid_from_string : Bytes → Option ℕ
  get_gid_from_string group = get_id_from_string sys.getgrnam group

  abbrev pub octal_mode : Bytes → Option ℕ
  octal_mode mode =
      let (n, rest) = sys.strtol 8 mode in
      if is_empty mode || not (is_empty rest) then Option.none else unsigned_of n

  abbrev pub chown_to : Bytes → Option ℕ → Option ℕ → Bool × List Call
  chown_to file (Option.some uid) (Option.some gid) =
      (sys.chown file uid gid, chown_call file uid gid ∷ [])
  chown_to file Option.none gid = (false, [])
  chown_to file (Option.some uid) Option.none = (false, [])

  -- The part under `user != NULL || group != NULL`: does it go on, and the calls made.
  unfoldable pub set_owner : Bytes → Option Bytes → Option Bytes → Bool × List Call
  unfolding get_uid_from_string get_gid_from_string
  set_owner file Option.none Option.none = (true, [])
  set_owner file (Option.some user) (Option.some group) =
      chown_to file (get_uid_from_string user) (get_gid_from_string group)
  set_owner file (Option.some user) Option.none = (false, [])
  set_owner file Option.none (Option.some group) = (false, [])

  abbrev pub chmod_to : Bytes → Option ℕ → Bool × List Call
  chmod_to file (Option.some mode) = (sys.chmod file mode, chmod_call file mode ∷ [])
  chmod_to file Option.none = (false, [])

  -- The part under `mode != NULL`.
  unfoldable pub set_mode : Bytes → Option Bytes → Bool × List Call
  set_mode file Option.none = (true, [])
  set_mode file (Option.some mode) = chmod_to file (octal_mode mode)

  abbrev pub and_then : Bool × List Call → Bool × List Call → Bool × List Call
  and_then (false, before) after = (false, before)
  and_then (true, before) (done, after) = (done, before ++ after)

  -- True is the return value 0.
  unfoldable pub set_file_perms :
      Bytes → Option Bytes → Option Bytes → Option Bytes → Bool × List Call
  unfolding set_owner set_mode
  set_file_perms file user group mode = and_then (set_owner file user group) (set_mode file mode)
