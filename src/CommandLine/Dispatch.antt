-- ===== src/CommandLine/Dispatch.antt =====
-- sdiol.c, `main` and `get_lock_path`: which command the arguments stand for.
use keytap.Base.{◌≡◌, refl, if◌then◌else◌, if-cases, List, [], ◌∷◌, ◌++◌, Option, some, none, ◌≢◌}
use keytap.Config.Lua.{Bytes}
use keytap.Names.Tables.{same_bytes}
use keytap.Names.Laws.{same_bytes-eq}

-- The words of the commands.
abbrev pub local_word : Bytes
local_word = b'l' ∷ b'o' ∷ b'c' ∷ b'a' ∷ b'l' ∷ []

abbrev pub serve_word : Bytes
serve_word = b's' ∷ b'e' ∷ b'r' ∷ b'v' ∷ b'e' ∷ []

abbrev pub read_word : Bytes
read_word = b'r' ∷ b'e' ∷ b'a' ∷ b'd' ∷ []

abbrev pub serve_tcp_word : Bytes
serve_tcp_word = b's' ∷ b'e' ∷ b'r' ∷ b'v' ∷ b'e' ∷ b'-' ∷ b't' ∷ b'c' ∷ b'p' ∷ []

abbrev pub connect_word : Bytes
connect_word = b'c' ∷ b'o' ∷ b'n' ∷ b'n' ∷ b'e' ∷ b'c' ∷ b't' ∷ []

-- The function that `main` calls, with its arguments; `usage` is the label `help`.
pub data Command : Type 0 where
  usage local read : Command
  serve : Bytes → Bytes → Command
  serve_tcp : Option Bytes → Bytes → Command
  connect : Bytes → Bytes → Command

-- `socket` with ".lock" behind it
unfoldable pub get_lock_path : Bytes → Bytes
get_lock_path socket = socket ++ (b'.' ∷ b'l' ∷ b'o' ∷ b'c' ∷ b'k' ∷ [])

-- The branches on the number of arguments that follow the word.
abbrev pub local_args : List Bytes → Command
local_args [] = local
local_args _ = usage

abbrev pub serve_args : List Bytes → Command
unfolding get_lock_path
serve_args (socket ∷ []) = serve socket (get_lock_path socket)
serve_args _ = usage

abbrev pub read_args : List Bytes → Command
read_args [] = read
read_args _ = usage

abbrev pub serve_tcp_args : List Bytes → Command
serve_tcp_args (port ∷ []) = serve_tcp none port
serve_tcp_args (host ∷ port ∷ []) = serve_tcp (some host) port
serve_tcp_args _ = usage

abbrev pub connect_args : List Bytes → Command
connect_args (host ∷ port ∷ []) = connect host port
connect_args _ = usage

unfoldable pub command_of : List Bytes → Command
unfolding same_bytes serve_args
command_of [] = usage
command_of (word ∷ args) =
    if same_bytes word local_word
    then local_args args
    else if same_bytes word serve_word
    then serve_args args
    else if same_bytes word read_word
    then read_args args
    else if same_bytes word serve_tcp_word
    then serve_tcp_args args
    else if same_bytes word connect_word
    then connect_args args
    else usage

-- How a command is written on the command line.
abbrev pub Written : Command → List Bytes → Type 0
Written usage args = Unit
Written local args = args ≡ local_word ∷ []
Written read args = args ≡ read_word ∷ []
Written (serve socket lock) args = (args ≡ serve_word ∷ socket ∷ []) × (lock ≡ get_lock_path socket)
Written (serve_tcp none port) args = args ≡ serve_tcp_word ∷ port ∷ []
Written (serve_tcp (some host) port) args = args ≡ serve_tcp_word ∷ host ∷ port ∷ []
Written (connect host port) args = args ≡ connect_word ∷ host ∷ port ∷ []

local_args-Written :
    (word : Bytes) (args : List Bytes) → word ≡ local_word → Written (local_args args) (word ∷ args)
local_args-Written word [] e = cc
local_args-Written word (x ∷ xs) e = tt

serve_args-Written :
    (word : Bytes) (args : List Bytes) → word ≡ serve_word → Written (serve_args args) (word ∷ args)
unfolding serve_args
serve_args-Written word [] e = tt
serve_args-Written word (s ∷ []) e = (cc, refl)
serve_args-Written word (s ∷ x ∷ xs) e = tt

read_args-Written :
    (word : Bytes) (args : List Bytes) → word ≡ read_word → Written (read_args args) (word ∷ args)
read_args-Written word [] e = cc
read_args-Written word (x ∷ xs) e = tt

serve_tcp_args-Written :
    (word : Bytes) (args : List Bytes)
    → word ≡ serve_tcp_word
    → Written (serve_tcp_args args) (word ∷ args)
serve_tcp_args-Written word [] e = tt
serve_tcp_args-Written word (p ∷ []) e = cc
serve_tcp_args-Written word (h ∷ p ∷ []) e = cc
serve_tcp_args-Written word (h ∷ p ∷ x ∷ xs) e = tt

connect_args-Written :
    (word : Bytes) (args : List Bytes)
    → word ≡ connect_word
    → Written (connect_args args) (word ∷ args)
connect_args-Written word [] e = tt
connect_args-Written word (p ∷ []) e = tt
connect_args-Written word (h ∷ p ∷ []) e = cc
connect_args-Written word (h ∷ p ∷ x ∷ xs) e = tt

-- A command other than the help text is run only for the arguments that the help text gives for it, and the lock
-- file of a served socket is the socket's path with ".lock" behind it.
pub command_of-Written : (args : List Bytes) → Written (command_of args) args
unfolding command_of
command_of-Written [] = tt
command_of-Written (word ∷ args) =
    if-cases P (same_bytes word local_word) _ _
      (λ e. local_args-Written word args (same_bytes-eq _ _ e))
      λ _.
        if-cases P (same_bytes word serve_word) _ _
          (λ e. serve_args-Written word args (same_bytes-eq _ _ e))
          λ _.
            if-cases P (same_bytes word read_word) _ _
              (λ e. read_args-Written word args (same_bytes-eq _ _ e))
              λ _.
                if-cases P (same_bytes word serve_tcp_word) _ _
                  (λ e. serve_tcp_args-Written word args (same_bytes-eq _ _ e))
                  λ _.
                    if-cases P (same_bytes word connect_word) _ _
                      (λ e. connect_args-Written word args (same_bytes-eq _ _ e)) (λ _. tt)
  where
    P : Command → Type 0
    P c = Written c (word ∷ args)

-- Each form of the help text runs its command.
pub Written-command_of :
    (c : Command) (args : List Bytes) → c ≢ usage → Written c args → command_of args ≡ c
unfolding command_of
Written-command_of usage args ne w = absurd (ne refl)
Written-command_of local args ne w = rw w refl
Written-command_of read args ne w = rw w refl
Written-command_of (serve socket lock) args ne (w, l) = rw w (rw l refl)
Written-command_of (serve_tcp none port) args ne w = rw w refl
Written-command_of (serve_tcp (some host) port) args ne w = rw w refl
Written-command_of (connect host port) args ne w = rw w refl
