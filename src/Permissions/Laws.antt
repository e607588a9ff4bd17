-- ===== src/Permissions/Laws.antt =====
-- What `set_file_perms` has done when it returns.
use keytap.Base.{
  subst, sym, ◌≤◌, if-cases, ltb, ltb→le, ◌||◌, ◌&&◌, not, ℕ, ◌≡◌, refl, ℤ, pos, negsuc, Bool, true,
  false, Option, List, [], ◌∷◌, ◌++◌, All, All-append,
}
use keytap.Config.Lua.{Bytes}
use keytap.Permissions.{
  uint_max, System, Call, chown_call, chmod_call, unsigned_of, get_uid_from_string,
  get_gid_from_string, octal_mode, chown_to, set_owner, chmod_to, set_mode, and_then,
  set_file_perms, found, is_empty, get_id_from_string,
}

-- The ids of the system fit `uid_t` and `gid_t`.
abbrev pub Fits : Option ℕ → Type 0
Fits (Option.some n) = n ≤ uint_max
Fits Option.none = Unit

abbrev pub FitCall : Call → Type 0
FitCall (chown_call file uid gid) = (uid ≤ uint_max) × (gid ≤ uint_max)
FitCall (chmod_call file mode) = mode ≤ uint_max

unsigned_of-Fits : (n : ℤ) → Fits (unsigned_of n)
unsigned_of-Fits (pos n) = if-cases Fits (ltb uint_max n) _ _ (λ _. tt) (λ small. ltb→le _ _ small)
unsigned_of-Fits (negsuc n) = tt

module _ (sys : System) where
  abbrev succeeds : Call → Bool
  succeeds (chown_call file uid gid) = sys.chown file uid gid
  succeeds (chmod_call file mode) = sys.chmod file mode

  -- The calls that a return with success stands for.
  abbrev pub OwnerCalls : Bytes → Option Bytes → Option Bytes → List Call → Type 0
  OwnerCalls file Option.none Option.none calls = calls ≡ []
  OwnerCalls file (Option.some user) (Option.some group) calls =
      (uid : ℕ) × (gid : ℕ) × (get_uid_from_string sys user ≡ Option.some uid)
      × (get_gid_from_string sys group ≡ Option.some gid)
      × (calls ≡ chown_call file uid gid ∷ [])
  OwnerCalls file (Option.some user) Option.none calls = ⊥
  OwnerCalls file Option.none (Option.some group) calls = ⊥

  abbrev pub ModeCalls : Bytes → Option Bytes → List Call → Type 0
  ModeCalls file Option.none calls = calls ≡ []
  ModeCalls file (Option.some mode) calls =
      (n : ℕ) × (octal_mode sys mode ≡ Option.some n) × (calls ≡ chmod_call file n ∷ [])

  -- Both parts in order, and all calls succeeded.
  pub record Performed (file : Bytes) (user group mode : Option Bytes) (calls : List Call)
      : Type 0 where
    pub owner_calls : List Call
    pub mode_calls : List Call
    pub in_order : calls ≡ owner_calls ++ mode_calls
    pub owner : OwnerCalls file user group owner_calls
    pub permissions : ModeCalls file mode mode_calls
    pub all_succeeded : All (λ (c : Call). succeeds c ≡ true) calls

  same_calls :
      (xs ys : List Call)
      → xs ≡ ys
      → All (λ (c : Call). succeeds c ≡ true) xs
      → All (λ (c : Call). succeeds c ≡ true) ys
  same_calls xs ys e = subst (All (λ (c : Call). succeeds c ≡ true)) e

  set_owner-OwnerCalls :
      (file : Bytes) (user group : Option Bytes) (calls : List Call)
      → set_owner sys file user group ≡ (true, calls)
      → OwnerCalls file user group calls × All (λ (c : Call). succeeds c ≡ true) calls
  unfolding set_owner
  set_owner-OwnerCalls file Option.none Option.none calls e =
      let same : [] ≡ calls = cc in
      (sym same, subst (All (λ (c : Call). succeeds c ≡ true)) same tt)
  set_owner-OwnerCalls file (Option.some user) (Option.some group) calls e =
      looked_up (get_uid_from_string sys user) (get_gid_from_string sys group) refl refl e
    where
      looked_up :
          (uid gid : Option ℕ)
          → get_uid_from_string sys user ≡ uid
          → get_gid_from_string sys group ≡ gid
          → chown_to sys file uid gid ≡ (true, calls)
          → OwnerCalls file (Option.some user) (Option.some group) calls
            × All (λ (c : Call). succeeds c ≡ true) calls
      looked_up (Option.some uid) (Option.some gid) eu eg e =
          let same : chown_call file uid gid ∷ [] ≡ calls = cc in
          let good : sys.chown file uid gid ≡ true = cc in
          (
            (uid, gid, eu, eg, sym same),
            same_calls (chown_call file uid gid ∷ []) calls same (good, tt),
          )
      looked_up (Option.some uid) Option.none eu eg e = cc
      looked_up Option.none gid eu eg e = cc
  set_owner-OwnerCalls file (Option.some user) Option.none calls e = cc
  set_owner-OwnerCalls file Option.none (Option.some group) calls e = cc

  set_mode-ModeCalls :
      (file : Bytes) (mode : Option Bytes) (calls : List Call)
      → set_mode sys file mode ≡ (true, calls)
      → ModeCalls file mode calls × All (λ (c : Call). succeeds c ≡ true) calls
  unfolding set_mode
  set_mode-ModeCalls file Option.none calls e =
      let same : [] ≡ calls = cc in
      (sym same, subst (All (λ (c : Call). succeeds c ≡ true)) same tt)
  set_mode-ModeCalls file (Option.some mode) calls e = parsed (octal_mode sys mode) refl e
    where
      parsed :
          (n : Option ℕ)
          → octal_mode sys mode ≡ n
          → chmod_to sys file n ≡ (true, calls)
          → ModeCalls file (Option.some mode) calls × All (λ (c : Call). succeeds c ≡ true) calls
      parsed (Option.some n) en e =
          let same : chmod_call file n ∷ [] ≡ calls = cc in
          let good : sys.chmod file n ≡ true = cc in
          ((n, en, sym same), same_calls (chmod_call file n ∷ []) calls same (good, tt))
      parsed Option.none en e = cc

  -- When `set_file_perms` returns 0, it made the calls that its arguments ask for and no other, the owner before
  -- the mode, with the ids and the mode that the texts stand for, and all of them succeeded.
  pub set_file_perms-Performed :
      (file : Bytes) (user group mode : Option Bytes) (calls : List Call)
      → set_file_perms sys file user group mode ≡ (true, calls)
      → Performed file user group mode calls
  unfolding set_file_perms
  set_file_perms-Performed file user group mode calls e =
      parts (set_owner sys file user group) (set_mode sys file mode) refl refl e
    where
      parts :
          (o m : Bool × List Call)
          → set_owner sys file user group ≡ o
          → set_mode sys file mode ≡ m
          → and_then sys o m ≡ (true, calls)
          → Performed file user group mode calls
      parts (false, before) m eo em e = cc
      parts (true, before) (false, after) eo em e = cc
      parts (true, before) (true, after) eo em e =
          let (owned, all_owned) = set_owner-OwnerCalls file user group before eo in
          let (moded, all_moded) = set_mode-ModeCalls file mode after em in
          let same : before ++ after ≡ calls = cc in
          record {
            owner_calls = before;
            mode_calls = after;
            in_order = sym same;
            owner = owned;
            permissions = moded;
            all_succeeded =
                subst (All (λ (c : Call). succeeds c ≡ true)) same
                  (All-append _ before after all_owned all_moded);
          }

  id-Fits :
      (lookup : Bytes → Option (Option ℕ)) (name : Bytes)
      → Fits (found (lookup name))
      → Fits (get_id_from_string sys lookup name)
  id-Fits lookup name h =
      if-cases Fits (not (is_empty name) && is_empty (sys.strtol 0 name).1) _ _
        (λ _. unsigned_of-Fits (sys.strtol 0 name).0) (λ _. h)

  chown_to-FitCall :
      (file : Bytes) (uid gid : Option ℕ)
      → Fits uid
      → Fits gid
      → All FitCall (chown_to sys file uid gid).1
  chown_to-FitCall file (Option.some uid) (Option.some gid) u g = ((u, g), tt)
  chown_to-FitCall file Option.none gid u g = tt
  chown_to-FitCall file (Option.some uid) Option.none u g = tt

  set_mode-FitCall : (file : Bytes) (mode : Option Bytes) → All FitCall (set_mode sys file mode).1
  unfolding set_mode
  set_mode-FitCall file Option.none = tt
  set_mode-FitCall file (Option.some mode) = chosen (octal_mode sys mode) (
      if-cases Fits (is_empty mode || not (is_empty (sys.strtol 8 mode).1)) _ _ (λ _. tt)
        (λ _. unsigned_of-Fits (sys.strtol 8 mode).0))
    where
      chosen : (n : Option ℕ) → Fits n → All FitCall (chmod_to sys file n).1
      chosen (Option.some n) h = (h, tt)
      chosen Option.none h = tt

  both-FitCall :
      (o m : Bool × List Call)
      → All FitCall o.1
      → All FitCall m.1
      → All FitCall (and_then sys o m).1
  both-FitCall (false, before) m a b = a
  both-FitCall (true, before) (done, after) a b = All-append FitCall before after a b

  -- If the ids that the system looks up fit `unsigned int`, then every call that `set_file_perms` makes has an
  -- owner, a group and a mode that fit it, whatever the texts are.
  pub set_file_perms-FitCall :
      ((name : Bytes) → Fits (found (sys.getpwnam name)))
      → ((name : Bytes) → Fits (found (sys.getgrnam name)))
      → (file : Bytes) (user group mode : Option Bytes)
      → All FitCall (set_file_perms sys file user group mode).1
  unfolding set_file_perms set_owner get_uid_from_string get_gid_from_string
  set_file_perms-FitCall users groups file user group mode =
      both-FitCall _ _ (owner user group) (set_mode-FitCall file mode)
    where
      owner : (user group : Option Bytes) → All FitCall (set_owner sys file user group).1
      owner Option.none Option.none = tt
      owner (Option.some u) (Option.some g) =
          chown_to-FitCall file _ _ (id-Fits sys.getpwnam u (users u))
            (id-Fits sys.getgrnam g (groups g))
      owner (Option.some u) Option.none = tt
      owner Option.none (Option.some g) = tt
