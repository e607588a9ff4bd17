-- ===== src/CommandLine.antt =====
-- sdiol.c: the options and the arguments of the command line. `getopt_long` is the C library's: what it finds
-- in turn is a list of `Given`, and what is left are the arguments.
pub mod Lasts
pub mod Dispatch
use keytap.Base.{
  ℕ, ℤ, pos, Bool, true, false, ◌==◌, if◌then◌else◌, List, [], ◌∷◌, Option, some, none,
}
use keytap.Config.Lua.{Bytes}
use keytap.UserGroup.{Split, unset, invalid, parts, split_user_group}

-- The options of `longopts`, which also stand for their one-letter forms, and an option that `getopt_long`
-- does not know or whose argument is missing.
pub data Given : Type 0 where
  help verbose systemd unknown : Given
  config timeout chown_socket chmod_socket : Bytes → Given

-- `.val` in `longopts`, and the argument.
abbrev pub val_of : Given → ℕ
val_of help = b'h'
val_of (config arg) = b'c'
val_of verbose = b'v'
val_of (timeout arg) = b't'
val_of systemd = b'd'
val_of (chown_socket arg) = b'o'
val_of (chmod_socket arg) = b'p'
val_of unknown = b'?'

abbrev pub optarg_of : Given → Option Bytes
optarg_of (config arg) = some arg
optarg_of (timeout arg) = some arg
optarg_of (chown_socket arg) = some arg
optarg_of (chmod_socket arg) = some arg
optarg_of _ = none

-- `opts_t`, with `none` for a null pointer.
pub record Opts : Type 0 where
  pub config : Option Bytes
  pub systemd : Bool
  pub verbose : Bool
  pub timeout : Option Bytes
  pub user_group : Option Bytes
  pub mode : Option Bytes

-- "/etc/sdiol/conf.lua"
abbrev pub default_config : Bytes
default_config =
    b'/' ∷ b'e' ∷ b't' ∷ b'c' ∷ b'/' ∷ b's' ∷ b'd' ∷ b'i' ∷ b'o' ∷ b'l' ∷ b'/' ∷ b'c' ∷ b'o' ∷ b'n'
    ∷ b'f' ∷ b'.' ∷ b'l' ∷ b'u' ∷ b'a' ∷ []

abbrev pub default_opts : Opts
default_opts = record {
  config = some default_config;
  systemd = false;
  verbose = false;
  timeout = none;
  user_group = none;
  mode = none;
}

-- `printed_help` is `exit(0)`, and `bad_option` the return value -1.
pub data Parsed : Type 0 where
  printed_help bad_option : Parsed
  parsed : Opts → Parsed

-- The `switch` of the loop: how it goes on.
pub data Case : Type 0 where
  shows_help refuses : Case
  sets : Opts → Case

unfoldable pub set_option : ℕ → Option Bytes → Opts → Case
set_option opt arg o =
    if opt == b'h'
    then shows_help
    else if opt == b'c'
    then sets (record o { config = arg })
    else if opt == b'v'
    then sets (record o { verbose = true })
    else if opt == b't'
    then sets (record o { timeout = arg })
    else if opt == b'd'
    then sets (record o { systemd = true })
    else if opt == b'o'
    then sets (record o { user_group = arg })
    else if opt == b'm'
    then sets (record o { mode = arg })
    else refuses

abbrev pub parse_on : (Opts → Parsed) → Case → Parsed
parse_on rest shows_help = printed_help
parse_on rest refuses = bad_option
parse_on rest (sets o) = rest o

unfoldable pub parse_from : Opts → List Given → Parsed
unfolding set_option
parse_from o [] = parsed o
parse_from o (g ∷ gs) = parse_on (λ o'. parse_from o' gs) (set_option (val_of g) (optarg_of g) o)

unfoldable pub parse_opts : List Given → Parsed
unfolding parse_from
parse_opts gs = parse_from default_opts gs

module _ (Config : Type 0) where
  -- `runopts_t`, with `none` for a null pointer.
  pub record RunOpts : Type 0 where
    pub config : Option Config
    pub systemd : Bool
    pub verbose : Bool
    pub timeout : ℤ
    pub user : Option Bytes
    pub group : Option Bytes
    pub mode : Option Bytes

  -- What config.c makes of the file, and `atoi`.
  module _ (config_new : Bytes → Option Config) (atoi : Bytes → ℤ) where
    abbrev pub seconds : Option Bytes → ℤ
    seconds none = pos 0
    seconds (some text) = atoi text

    abbrev pub with_config : Opts → Option Bytes → Option Bytes → Option Config → RunOpts
    with_config o user group conf = record {
      config = conf;
      systemd = o.systemd;
      verbose = o.verbose;
      timeout = seconds o.timeout;
      user = user;
      group = group;
      mode = o.mode;
    }

    abbrev pub loaded : Opts → Option Bytes → Option Bytes → Option Config → Option RunOpts
    loaded o user group none = none
    loaded o user group (some conf) = some (with_config o user group (some conf))

    abbrev pub read_config : Opts → Option Bytes → Option Bytes → Option Bytes → Option RunOpts
    read_config o user group none = some (with_config o user group none)
    read_config o user group (some file) = loaded o user group (config_new file)

    abbrev pub split_into : Opts → Split → Option RunOpts
    split_into o invalid = none
    split_into o unset = read_config o none none o.config
    split_into o (parts user group) = read_config o (some user) (some group) o.config

    -- `none` is the return value -1.
    unfoldable pub runopts_build : Opts → Option RunOpts
    unfolding split_user_group
    runopts_build o = split_into o (split_user_group o.user_group)
