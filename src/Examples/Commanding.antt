-- ===== src/Examples/Commanding.antt =====
-- Command lines and addresses.
use keytap.Base.{refl, ◌≡◌, [], ◌∷◌, false, pos, ℕ, none, true, List, some, arith, ◌≢◌, length}
use keytap.CommandLine.{
  parse_opts, verbose, timeout, chown_socket, parsed, Opts, default_opts, runopts_build, Given,
}
use keytap.CommandLine.Lasts.{
  parse_opts-opts_of, mode_never_set, outcome_of, first_stop, opts_of, Carries,
  runopts_build-Carries,
}
use keytap.CommandLine.Dispatch.{command_of, Written, command_of-Written, serve_word}
use keytap.Networking.{UnixCalls, unix_socket_open}
use keytap.Networking.Ledger.{replay, empty}
use keytap.Networking.Unix.{held, unix_socket_open-replay}
use keytap.Networking.Addresses.{Address, gai_open, first_working, gai_open-first_working}

abbrev options : List Given
options =
    verbose
    ∷ timeout (b'5' ∷ [])
    ∷ chown_socket (b'a' ∷ b':' ∷ b'b' ∷ [])
    ∷ timeout (b'7' ∷ [])
    ∷ []

abbrev given : Opts
given = record default_opts {
  verbose = true;
  timeout = some (b'7' ∷ []);
  user_group = some (b'a' ∷ b':' ∷ b'b' ∷ []);
}

parse_opts-opts_of_example :
    parse_opts options ≡ outcome_of (first_stop options) (opts_of default_opts options)
parse_opts-opts_of_example = parse_opts-opts_of options

options_parsed : parse_opts options ≡ parsed given
unfolding parse_opts
options_parsed = refl

mode_never_set_example : given.mode ≡ none
mode_never_set_example = mode_never_set options given options_parsed

runopts_build-Carries_example :
    Carries Unit
      (λ file. some tt)
      (λ text. pos (length text))
      given
      (runopts_build Unit (λ file. some tt) (λ text. pos (length text)) given)
runopts_build-Carries_example =
    runopts_build-Carries Unit (λ file. some tt) (λ text. pos (length text)) given

command_of-Written_example :
    Written (command_of (serve_word ∷ (b's' ∷ []) ∷ [])) (serve_word ∷ (b's' ∷ []) ∷ [])
command_of-Written_example = command_of-Written (serve_word ∷ (b's' ∷ []) ∷ [])

-- The socket cannot be bound.
abbrev refusing : UnixCalls
refusing = record { opened = some 4; locks = true; socket = some 5; binds = false; unlocks = true }

refusing_two :
    (sockfd lockfd : ℕ)
    → refusing.socket ≡ some sockfd
    → refusing.opened ≡ some lockfd
    → sockfd ≢ lockfd
refusing_two sockfd lockfd s l e =
    let five : 5 ≡ sockfd = cc in let four : 4 ≡ lockfd = cc in omega (arith, e, five, four)

unix_socket_open-replay_example :
    replay empty (unix_socket_open refusing (b's' ∷ [])).1
    ≡ some (held (unix_socket_open refusing (b's' ∷ [])).0)
unix_socket_open-replay_example = unix_socket_open-replay refusing (b's' ∷ []) refusing_two

-- An address that is in use, and a free one.
abbrev in_use : Address
in_use = record {
  socket_fd = pos 4;
  binds = false;
  reuses = true;
  listens = true;
  connects = false;
}

abbrev free : Address
free = record { socket_fd = pos 5; binds = true; reuses = true; listens = true; connects = true }

gai_open-first_working_example :
    gai_open true (some (in_use ∷ free ∷ [])) ≡ first_working true (in_use ∷ free ∷ [])
gai_open-first_working_example =
    gai_open-first_working true (in_use ∷ free ∷ []) (omega arith, (omega arith, tt))
