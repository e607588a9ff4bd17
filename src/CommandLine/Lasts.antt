-- ===== src/CommandLine/Lasts.antt =====
-- What the options of a command line come to.
use keytap.Base.{
  ℕ, ℤ, ◌≡◌, ◌⊎◌, inl, inr, refl, arith, ap, sym, ◌∙◌, Bool, true, false, ◌||◌, List, [], ◌∷◌,
  Option, some, none,
}
use keytap.Config.Lua.{Bytes}
use keytap.UserGroup.{Split, unset, invalid, parts, split_user_group, find_colon, split_at}
use keytap.CommandLine.{
  Given, help, verbose, systemd, unknown, config, timeout, chown_socket, chmod_socket, Opts,
  default_opts, Parsed, printed_help, bad_option, parsed, parse_from, parse_opts, RunOpts,
  read_config, split_into, loaded, runopts_build, seconds,
}

-- The reference: an option is what the last of its kind gave, and a flag is whether it was given.
abbrev pub config_of : Option Bytes → List Given → Option Bytes
config_of c [] = c
config_of c (config arg ∷ gs) = config_of (some arg) gs
config_of c (_ ∷ gs) = config_of c gs

abbrev pub timeout_of : Option Bytes → List Given → Option Bytes
timeout_of t [] = t
timeout_of t (timeout arg ∷ gs) = timeout_of (some arg) gs
timeout_of t (_ ∷ gs) = timeout_of t gs

abbrev pub user_group_of : Option Bytes → List Given → Option Bytes
user_group_of u [] = u
user_group_of u (chown_socket arg ∷ gs) = user_group_of (some arg) gs
user_group_of u (_ ∷ gs) = user_group_of u gs

abbrev pub has_verbose : List Given → Bool
has_verbose [] = false
has_verbose (verbose ∷ gs) = true
has_verbose (_ ∷ gs) = has_verbose gs

abbrev pub has_systemd : List Given → Bool
has_systemd [] = false
has_systemd (systemd ∷ gs) = true
has_systemd (_ ∷ gs) = has_systemd gs

-- What ends the parsing: a call for help, or an option that is refused.
pub data Stop : Type 0 where
  for_help at_bad : Stop

abbrev pub first_stop : List Given → Option Stop
first_stop [] = none
first_stop (help ∷ gs) = some for_help
first_stop (unknown ∷ gs) = some at_bad
first_stop (chmod_socket arg ∷ gs) = some at_bad
first_stop (_ ∷ gs) = first_stop gs

abbrev pub outcome_of : Option Stop → Opts → Parsed
outcome_of (some for_help) o = printed_help
outcome_of (some at_bad) o = bad_option
outcome_of none o = parsed o

abbrev pub opts_of : Opts → List Given → Opts
opts_of o gs = record {
  config = config_of o.config gs;
  systemd = o.systemd || has_systemd gs;
  verbose = o.verbose || has_verbose gs;
  timeout = timeout_of o.timeout gs;
  user_group = user_group_of o.user_group gs;
  mode = o.mode;
}

parse_from-opts_of :
    (o : Opts) (gs : List Given) → parse_from o gs ≡ outcome_of (first_stop gs) (opts_of o gs)
unfolding parse_from
parse_from-opts_of o [] = ground arith
parse_from-opts_of o (help ∷ gs) = refl
parse_from-opts_of o (unknown ∷ gs) = refl
parse_from-opts_of o (chmod_socket arg ∷ gs) = refl
parse_from-opts_of o (config arg ∷ gs) = parse_from-opts_of (record o { config = some arg }) gs
parse_from-opts_of o (timeout arg ∷ gs) = parse_from-opts_of (record o { timeout = some arg }) gs
parse_from-opts_of o (chown_socket arg ∷ gs) =
    parse_from-opts_of (record o { user_group = some arg }) gs
parse_from-opts_of o (verbose ∷ gs) =
    parse_from-opts_of (record o { verbose = true }) gs
    ∙ ap (outcome_of (first_stop gs)) (ground arith)
parse_from-opts_of o (systemd ∷ gs) =
    parse_from-opts_of (record o { systemd = true }) gs
    ∙ ap (outcome_of (first_stop gs)) (ground arith)

-- Parsing any options: the first call for help, unknown option or `--chmod-socket` decides, and ends it. Without
-- these every option has the value given last, and every flag is on if it was given.
pub parse_opts-opts_of :
    (gs : List Given) → parse_opts gs ≡ outcome_of (first_stop gs) (opts_of default_opts gs)
unfolding parse_opts
parse_opts-opts_of gs = parse_from-opts_of default_opts gs

-- The mode of the socket cannot be set: no command line that is accepted sets it, although the help text and
-- `longopts` have an option for it.
pub mode_never_set : (gs : List Given) (o : Opts) → parse_opts gs ≡ parsed o → o.mode ≡ none
mode_never_set gs o e = decided (first_stop gs) (sym (parse_opts-opts_of gs) ∙ e)
  where
    decided : (s : Option Stop) → outcome_of s (opts_of default_opts gs) ≡ parsed o → o.mode ≡ none
    decided (some for_help) e = cc
    decided (some at_bad) e = cc
    decided none e =
        let same : opts_of default_opts gs ≡ o = cc in ap (λ (x : Opts). x.mode) (sym same)

-- The user and the group that an argument gives: both or neither.
abbrev pub Pair : Option Bytes → Option Bytes → Option Bytes → Type 0
Pair argument user group =
    ((argument ≡ none) × (user ≡ none) × (group ≡ none))
    ⊎ ((u : Bytes) × (g : Bytes) × (split_user_group argument ≡ parts u g)
        × (user ≡ some u)
        × (group ≡ some g))

unset-Pair : (argument : Option Bytes) → split_user_group argument ≡ unset → Pair argument none none
unfolding split_user_group
unset-Pair none e = inl (refl, refl, refl)
unset-Pair (some text) e = not_unset (find_colon text 0 none) e
  where
    not_unset : (m : Option (Option ℕ)) → split_at text m ≡ unset → Pair (some text) none none
    not_unset none e = cc
    not_unset (some none) e = cc
    not_unset (some (some k)) e = cc

module _ (Config : Type 0) (config_new : Bytes → Option Config) (atoi : Bytes → ℤ) where
  -- The options that are carried over, and the configuration that was asked for.
  abbrev pub Carries : Opts → Option (RunOpts Config) → Type 0
  Carries o none = Unit
  Carries o (some r) =
      (r.systemd ≡ o.systemd)
      × (r.verbose ≡ o.verbose)
      × (r.mode ≡ o.mode)
      × (r.timeout ≡ seconds Config config_new atoi o.timeout)
      × Pair o.user_group r.user r.group
      × ((o.config ≡ none)
          ⊎ ((file : Bytes) × (o.config ≡ some file) × (r.config ≡ config_new file)))

  read_config-Carries :
      (o : Opts) (user group c : Option Bytes)
      → c ≡ o.config
      → Pair o.user_group user group
      → Carries o (read_config Config config_new atoi o user group c)
  read_config-Carries o user group none e pair = (refl, refl, refl, refl, pair, inl (sym e))
  read_config-Carries o user group (some file) e pair = read (config_new file) refl
    where
      read :
          (m : Option Config)
          → config_new file ≡ m
          → Carries o (loaded Config config_new atoi o user group m)
      read none em = tt
      read (some conf) em = (refl, refl, refl, refl, pair, inr (file, sym e, sym em))

  -- When `runopts_build` returns 0, the simple options are carried over, the timeout is the number given or 0, the
  -- configuration is what was read from the file, and the user and the group are those of the
  -- argument, or both missing as the argument is.
  pub runopts_build-Carries : (o : Opts) → Carries o (runopts_build Config config_new atoi o)
  unfolding runopts_build
  runopts_build-Carries o = built (split_user_group o.user_group) refl
    where
      built :
          (s : Split)
          → split_user_group o.user_group ≡ s
          → Carries o (split_into Config config_new atoi o s)
      built invalid e = tt
      built unset e = read_config-Carries o none none o.config refl (unset-Pair o.user_group e)
      built (parts u g) e =
          read_config-Carries o (some u) (some g) o.config refl (inr (u, g, e, refl, refl))
