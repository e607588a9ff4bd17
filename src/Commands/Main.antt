-- ===== src/Commands/Main.antt =====
-- sdiol.c, `main`.
use keytap.Base.{
  ℕ, ℤ, pos, Bool, if◌then◌else◌, Outcome, ok, halt, exit_with, null_pointer, ◌>>=◌, List, Option,
  some, none,
}
use keytap.EventReader.{Sscanf}
use keytap.KeyAction.{KeyAction}
use keytap.Config.Lua.{Bytes}
use keytap.Permissions.{System}
use keytap.Networking.{UnixCalls}
use keytap.Networking.Addresses.{Address}
use keytap.ServeLoop.Keyboards.{Kbd}
use keytap.ServeLoop.Rounds.{Turn}
use keytap.Server.Watch.{server_app}
use keytap.EventReader.Stream.{Got}
use keytap.CommandLine.{
  Given, Parsed, printed_help, bad_option, parsed, parse_opts, RunOpts, runopts_build,
}
use keytap.CommandLine.Dispatch.{Command, usage, local, read, serve, serve_tcp, connect, command_of}
use keytap.Commands.ServeUnix.{Surroundings, Run, main_serve_unix}
use keytap.Commands.Local.{local_app, LocalRun, main_local}
use keytap.Commands.Remote.{ReadRun, main_read, main_connect, TcpRun, main_serve_tcp}

-- What the libraries and the system give to a run of the program: whether `names_init` succeeds, what Lua makes of the
-- configuration, the keyboards that open for it, what a run of the loop gets, with the keyboards found, and what the calls of each
-- command return.
pub record World : Type 1 where
  pub names_ready : Bool
  pub Config : Type 0
  pub config_new : Bytes → Option Config
  pub atoi : Bytes → ℤ
  pub keymaps : Config → ℕ → KeyAction
  pub kbs : Config → List Kbd
  pub output : Option ℕ
  pub calls : UnixCalls
  pub sys : System
  pub listens : Bool
  pub addresses : Option (List Address)
  pub server_turns : Config → List (Turn server_app)
  pub local_turns : Config → List (Turn local_app)
  pub sscanf : Sscanf
  pub gots : List Got

-- The exit status, or `none` while the program runs.
abbrev pub Status : Type 0
Status = Outcome (Option (Option ℤ))

abbrev pub status : Option ℕ → Option ℤ
status none = none
status (some n) = some (pos n)

abbrev pub of_local : Option LocalRun → Status
of_local none = ok none
of_local (some r) = ok (some (status r.retval))

abbrev pub of_unix : Option Run → Status
of_unix none = ok none
of_unix (some r) = ok (some r.retval)

abbrev pub of_tcp : Option TcpRun → Status
of_tcp none = ok none
of_tcp (some r) = ok (some (status r.retval))

abbrev pub of_read : Option ReadRun → Status
of_read none = ok none
of_read (some r) = ok (some (status r.retval))

module _ (w : World) where
  open w use {Config}

  abbrev pub surroundings : Config → Surroundings
  surroundings c = record {
    calls = w.calls;
    sys = w.sys;
    listens = w.listens;
    keymaps = w.keymaps c;
    kbs = w.kbs c;
    turns = w.server_turns c;
  }

  -- The commands that read the configuration follow its pointer, which must not be null.
  abbrev pub with_grabs : Option Config → (Config → Status) → Status
  with_grabs none run = halt null_pointer
  with_grabs (some c) run = run c

  abbrev pub run_command : RunOpts Config → Command → Status
  run_command r usage = ok (some (some (pos 1)))
  run_command r local =
      with_grabs r.config
        (λ c. main_local w.output (w.keymaps c) (w.kbs c) (w.local_turns c) >>= of_local)
  run_command r (serve socket lock) =
      with_grabs r.config
        (λ c. main_serve_unix (surroundings c) r.user r.group r.mode socket >>= of_unix)
  run_command r (serve_tcp host port) =
      with_grabs r.config
        (λ c. main_serve_tcp w.addresses (w.keymaps c) (w.kbs c) (w.server_turns c) >>= of_tcp)
  run_command r read = of_read (main_read w.output w.sscanf w.gots)
  run_command r (connect host port) = of_read (main_connect w.addresses w.output w.sscanf w.gots)

  abbrev pub with_runopts : List Bytes → Option (RunOpts Config) → Status
  with_runopts args none = ok (some (some (pos 1)))
  with_runopts args (some r) = run_command r (command_of args)

  abbrev pub with_opts : List Bytes → Parsed → Status
  with_opts args printed_help = halt (exit_with 0)
  with_opts args bad_option = ok (some (some (pos 1)))
  with_opts args (parsed o) = with_runopts args (runopts_build Config w.config_new w.atoi o)

  -- The options, and the arguments behind them.
  unfoldable pub main : List Given → List Bytes → Status
  unfolding parse_opts runopts_build command_of main_local main_serve_unix main_serve_tcp main_read
      main_connect
  main given args =
      if w.names_ready then with_opts args (parse_opts given) else ok (some (some (pos 1)))
