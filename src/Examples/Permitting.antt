-- ===== src/Examples/Permitting.antt =====
-- The permissions of a socket file at work, and the argument that they come from.
use keytap.Base.{ℕ, pos, refl, arith, true, Option, [], ◌∷◌, All, ℤ, ◌≡◌, ◌-◌}
use keytap.Config.Lua.{Bytes}
use keytap.UserGroup.{parts, split_user_group}
use keytap.UserGroup.Laws.{NoColon, split_user_group-parts}
use keytap.Permissions.{System, chown_call, chmod_call, set_file_perms}
use keytap.Permissions.Laws.{Performed, FitCall, set_file_perms-Performed, set_file_perms-FitCall}

-- A system whose numbers have one digit, with the user 1000 of every name.
abbrev one_digit : ℕ → Bytes → ℤ × Bytes
one_digit base [] = (pos 0, [])
one_digit base (c ∷ cs) = (pos (c - 48), cs)

abbrev pub one_user : System
one_user = record {
  strtol = one_digit;
  getpwnam = λ name. Option.some (Option.some 1000);
  getgrnam = λ name. Option.some (Option.some 100);
  chown = λ file uid gid. true;
  chmod = λ file mode. true;
}

socket_run :
    set_file_perms one_user
      (b's' ∷ [])
      (Option.some (b'm' ∷ b'e' ∷ []))
      (Option.some (b'5' ∷ []))
      (Option.some (b'6' ∷ []))
    ≡ (true, chown_call (b's' ∷ []) 1000 5 ∷ chmod_call (b's' ∷ []) 6 ∷ [])
unfolding set_file_perms
socket_run = refl

set_file_perms-Performed_example :
    Performed one_user
      (b's' ∷ [])
      (Option.some (b'm' ∷ b'e' ∷ []))
      (Option.some (b'5' ∷ []))
      (Option.some (b'6' ∷ []))
      (chown_call (b's' ∷ []) 1000 5 ∷ chmod_call (b's' ∷ []) 6 ∷ [])
set_file_perms-Performed_example =
    set_file_perms-Performed one_user (b's' ∷ []) (Option.some (b'm' ∷ b'e' ∷ []))
      (Option.some (b'5' ∷ [])) (Option.some (b'6' ∷ []))
      (chown_call (b's' ∷ []) 1000 5 ∷ chmod_call (b's' ∷ []) 6 ∷ []) socket_run

set_file_perms-FitCall_example :
    All FitCall
      (set_file_perms one_user
        (b's' ∷ [])
        (Option.some (b'm' ∷ b'e' ∷ []))
        (Option.some (b'5' ∷ []))
        (Option.some (b'6' ∷ []))).1
set_file_perms-FitCall_example =
    set_file_perms-FitCall one_user (λ name. omega arith) (λ name. omega arith) (b's' ∷ [])
      (Option.some (b'm' ∷ b'e' ∷ [])) (Option.some (b'5' ∷ [])) (Option.some (b'6' ∷ []))

split_run :
    split_user_group (Option.some (b'm' ∷ b'e' ∷ b':' ∷ b'5' ∷ []))
    ≡ parts (b'm' ∷ b'e' ∷ []) (b'5' ∷ [])
unfolding split_user_group
split_run = refl

split_user_group-parts_example :
    ◌≡◌ {A = Bytes} (b'm' ∷ b'e' ∷ b':' ∷ b'5' ∷ []) (b'm' ∷ b'e' ∷ b':' ∷ b'5' ∷ [])
    × NoColon (b'm' ∷ b'e' ∷ [])
    × NoColon (b'5' ∷ [])
split_user_group-parts_example =
    split_user_group-parts (b'm' ∷ b'e' ∷ b':' ∷ b'5' ∷ []) (b'm' ∷ b'e' ∷ []) (b'5' ∷ []) split_run
