-- ===== src/Commands/Whole.antt =====
-- The whole program, from the command line to its exit.
use keytap.Base.{
  ℕ, ℤ, ◌≡◌, ◌≢◌, ◌≤◌, inl, refl, if-cases, List, [], ◌∷◌, Option, some, none, length, All, true,
  false,
}
use keytap.Config.Lua.{Bytes}
use keytap.UserGroup.{Split, unset, invalid, parts, split_user_group}
use keytap.ServeLoop.Passes.{IsUsable}
use keytap.Devices.{max_kbs}
use keytap.ServeLoop.Running.{TurnFits}
use keytap.Server.Watch.{server_app}
use keytap.Networking.{unix_socket_open}
use keytap.Networking.Addresses.{gai_open}
use keytap.CommandLine.{
  Given, config, help, verbose, systemd, unknown, timeout, chown_socket, chmod_socket, Opts, Parsed,
  printed_help, bad_option, parsed, parse_opts, RunOpts, runopts_build, read_config, loaded,
  split_into, default_opts, default_config, timeout, chown_socket, chmod_socket,
}
use keytap.CommandLine.Lasts.{
  parse_opts-opts_of, outcome_of, first_stop, for_help, at_bad, opts_of, config_of, Stop,
}
use keytap.CommandLine.Dispatch.{Command, usage, local, read, serve, serve_tcp, connect, command_of}
use keytap.Commands.Closing.{main_serve_unix-GivesBack}
use keytap.Commands.Local.{local_app}
use keytap.Commands.Tidy.{main_local-TidyRun}
use keytap.Commands.Remote.{main_connect, main_serve_tcp}
use keytap.Commands.Main.{World, surroundings, run_command, with_runopts, with_opts, main}
use keytap.Commands.Ends.{
  MainEnds, of_local-MainEnds, of_unix-MainEnds, of_read-MainEnds, main_read-Comes, connected-Comes,
  accepting-MainEnds,
}

abbrev IsThere : Option Bytes → Type 0
IsThere text = (file : Bytes) × (text ≡ some file)

config_of-IsThere : (c : Option Bytes) (gs : List Given) → IsThere c → IsThere (config_of c gs)
config_of-IsThere c [] h = h
config_of-IsThere c (config arg ∷ gs) h = config_of-IsThere (some arg) gs (arg, refl)
config_of-IsThere c (help ∷ gs) h = config_of-IsThere c gs h
config_of-IsThere c (verbose ∷ gs) h = config_of-IsThere c gs h
config_of-IsThere c (systemd ∷ gs) h = config_of-IsThere c gs h
config_of-IsThere c (unknown ∷ gs) h = config_of-IsThere c gs h
config_of-IsThere c (timeout arg ∷ gs) h = config_of-IsThere c gs h
config_of-IsThere c (chown_socket arg ∷ gs) h = config_of-IsThere c gs h
config_of-IsThere c (chmod_socket arg ∷ gs) h = config_of-IsThere c gs h

-- What the options come to names a configuration.
abbrev NamesConfig : Parsed → Type 0
NamesConfig (parsed o) = IsThere o.config
NamesConfig _ = Unit

parse_opts-NamesConfig : (gs : List Given) → NamesConfig (parse_opts gs)
parse_opts-NamesConfig gs = rw (parse_opts-opts_of gs) (decided (first_stop gs))
  where
    decided : (s : Option Stop) → NamesConfig (outcome_of s (opts_of default_opts gs))
    decided (some for_help) = tt
    decided (some at_bad) = tt
    decided none = config_of-IsThere (some default_config) gs (default_config, refl)

module _ (Config : Type 0) (config_new : Bytes → Option Config) (atoi : Bytes → ℤ) where
  abbrev Loaded : Option (RunOpts Config) → Type 0
  Loaded none = Unit
  Loaded (some r) =
      (c : Config) × (r.config ≡ some c) × ((file : Bytes) × (config_new file ≡ some c))

  read_config-Loaded :
      (o : Opts) (user group c : Option Bytes)
      → IsThere c
      → Loaded (read_config Config config_new atoi o user group c)
  read_config-Loaded o user group none (file, e) = cc
  read_config-Loaded o user group (some file) h = made (config_new file) refl
    where
      made :
          (m : Option Config)
          → config_new file ≡ m
          → Loaded (loaded Config config_new atoi o user group m)
      made none e = tt
      made (some c) e = (c, refl, (file, e))

  runopts_build-Loaded :
      (o : Opts) → IsThere o.config → Loaded (runopts_build Config config_new atoi o)
  unfolding runopts_build
  runopts_build-Loaded o h = split (split_user_group o.user_group)
    where
      split : (s : Split) → Loaded (split_into Config config_new atoi o s)
      split invalid = tt
      split unset = read_config-Loaded o none none o.config h
      split (parts user group) = read_config-Loaded o (some user) (some group) o.config h

-- The configuration was made from a file.
abbrev pub IsLoaded : (w : World) → w.Config → Type 0
IsLoaded w c = (file : Bytes) × (w.config_new file ≡ some c)

-- What the libraries and the system keep to: the keyboards, at most `max_kbs` of them, have filled keymaps, those found later too;
-- two descriptors for the socket and the lock file; and no event with the code `key_max`.
pub record IsSound (w : World) : Type 0 where
  pub usable : (c : w.Config) → IsLoaded w c → All (IsUsable (w.keymaps c)) (w.kbs c)
  pub fits : (c : w.Config) → IsLoaded w c → length (w.kbs c) ≤ max_kbs
  pub two :
      (sockfd lockfd : ℕ)
      → w.calls.socket ≡ some sockfd
      → w.calls.opened ≡ some lockfd
      → sockfd ≢ lockfd
  pub server_range :
      (c : w.Config) → IsLoaded w c → All (TurnFits server_app (w.keymaps c)) (w.server_turns c)
  pub local_range :
      (c : w.Config) → IsLoaded w c → All (TurnFits local_app (w.keymaps c)) (w.local_turns c)

module _ (w : World) (sound : IsSound w) where
  run_command-MainEnds :
      (r : RunOpts w.Config) (cmd : Command) (c : w.Config)
      → r.config ≡ some c
      → IsLoaded w c
      → MainEnds (run_command w r cmd)
  unfolding main_connect main_serve_tcp
  run_command-MainEnds r usage c e l = tt
  run_command-MainEnds r local c e l = rw e (
      of_local-MainEnds _ (
        main_local-TidyRun w.output (w.keymaps c) (w.kbs c) (w.local_turns c) (sound.usable c l)
          (sound.fits c l) (sound.local_range c l)))
  run_command-MainEnds r (serve socket lock) c e l = rw e (
      of_unix-MainEnds (unix_socket_open w.calls socket).0 _ (
        main_serve_unix-GivesBack (surroundings w c) r.user r.group r.mode socket sound.two
          (sound.usable c l) (sound.fits c l) (sound.server_range c l)))
  run_command-MainEnds r (serve_tcp host port) c e l = rw e (
      accepting-MainEnds (gai_open true w.addresses) (w.keymaps c) (w.kbs c) (w.server_turns c)
        (sound.usable c l) (sound.fits c l) (sound.server_range c l))
  run_command-MainEnds r read c e l = of_read-MainEnds _ (main_read-Comes w.output w.sscanf w.gots)
  run_command-MainEnds r (connect host port) c e l =
      of_read-MainEnds _ (connected-Comes (gai_open false w.addresses) w.output w.sscanf w.gots)

  with_opts-MainEnds :
      (args : List Bytes) (p : Parsed) → NamesConfig p → MainEnds (with_opts w args p)
  with_opts-MainEnds args printed_help h = inl refl
  with_opts-MainEnds args bad_option h = tt
  with_opts-MainEnds args (parsed o) h =
      built (runopts_build w.Config w.config_new w.atoi o)
        (runopts_build-Loaded w.Config w.config_new w.atoi o h)
    where
      built :
          (m : Option (RunOpts w.Config))
          → Loaded w.Config w.config_new w.atoi m
          → MainEnds (with_runopts w args m)
      built none h' = tt
      built (some r) (c, e, l) = run_command-MainEnds r (command_of args) c e l

  -- Whatever the command line: the program comes to an exit status, or goes on, or calls `exit` with 0 for
  -- help, 1 at a full ring, 3 on a failed read from inotify, or 7 on a failed `accept`. It follows no null
  -- pointer to a configuration, leaves no array, and does not run for ever between two calls of the system. The
  -- libraries and the system give at most `max_kbs` keyboards, these and all that are found later with filled keymaps, two
  -- descriptors for the socket and the lock file, and no event with the code `key_max`.
  pub main-MainEnds : (given : List Given) (args : List Bytes) → MainEnds (main w given args)
  unfolding main
  main-MainEnds given args =
      if-cases MainEnds w.names_ready _ _
        (λ ready. with_opts-MainEnds args (parse_opts given) (parse_opts-NamesConfig given))
        (λ no_memory. tt)
