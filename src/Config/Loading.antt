-- ===== src/Config/Loading.antt =====
-- config.c, `config_new`: what running a configuration file makes. Of the file only its calls of `grab_keyboard` and
-- `ignore_keyboard` matter, with the values of their arguments.
use keytap.Base.{Bool, if◌then◌else◌, Option, List, [], ◌∷◌, All, true, false}
use keytap.Base.Options.{◌>>=◌}
use keytap.Config.Lua.{LuaValue, Names}
use keytap.Config.Copy.{BuiltValue}
use keytap.Config.Grabs.{
  Regexes, Grab, lua_grab_keyboard, lua_ignore_keyboard, UsableGrab, UsableGrabs, grabs_usable,
}

pub data GrabCall : Type 0 where
  grab_keyboard ignore_keyboard : List LuaValue → GrabCall

abbrev pub args_of : GrabCall → List LuaValue
args_of (grab_keyboard vs) = vs
args_of (ignore_keyboard vs) = vs

-- What `luaL_loadfile` and `lua_pcall` do with the file: whether it can be loaded, its calls, and whether it ends without another
-- error.
pub record Script : Type 0 where
  pub loads : Bool
  pub calls : List GrabCall
  pub finishes : Bool

module _ (re : Regexes) (names : Names) where
  unfoldable pub run_call : List (Grab re) → GrabCall → Option (List (Grab re))
  unfolding lua_grab_keyboard lua_ignore_keyboard
  run_call grabs (grab_keyboard vs) = lua_grab_keyboard re names grabs vs
  run_call grabs (ignore_keyboard vs) = lua_ignore_keyboard re names grabs vs

  -- An error in a call ends the file.
  unfoldable pub run_calls : List (Grab re) → List GrabCall → Option (List (Grab re))
  unfolding run_call
  run_calls grabs [] = Option.some grabs
  run_calls grabs (c ∷ cs) = do grabs' ← run_call grabs c; run_calls grabs' cs

  abbrev pub finished : Script → Option (List (Grab re)) → Option (List (Grab re))
  finished s Option.none = Option.none
  finished s (Option.some grabs) = if s.finishes then Option.some grabs else Option.none

  -- `allocates` says whether `malloc` gives the configuration. `lua_newstate` is taken to succeed: where it fails, the
  -- code passes its null pointer on to `lua_close`.
  unfoldable pub config_new : Bool → Script → Option (List (Grab re))
  unfolding run_calls
  config_new allocates s =
      if allocates
      then (if s.loads then finished s (run_calls [] s.calls) else Option.none)
      else Option.none

  run_call-UsableGrabs :
      (grabs : List (Grab re)) (c : GrabCall)
      → All (UsableGrab re names) grabs
      → All BuiltValue (args_of c)
      → UsableGrabs re names (run_call grabs c)
  unfolding run_call
  run_call-UsableGrabs grabs (grab_keyboard vs) u b = (grabs_usable re names grabs vs u b).0
  run_call-UsableGrabs grabs (ignore_keyboard vs) u b = (grabs_usable re names grabs vs u b).1

  run_calls-UsableGrabs :
      (cs : List GrabCall) (grabs : List (Grab re))
      → All (UsableGrab re names) grabs
      → All (λ (c : GrabCall). All BuiltValue (args_of c)) cs
      → UsableGrabs re names (run_calls grabs cs)
  unfolding run_calls
  run_calls-UsableGrabs [] grabs u b = u
  run_calls-UsableGrabs (c ∷ cs) grabs u b =
      next (run_call grabs c) (run_call-UsableGrabs grabs c u b.0)
        (λ gs v. run_calls-UsableGrabs cs gs v b.1)
    where
      next :
          (m : Option (List (Grab re)))
          → UsableGrabs re names m
          → ((gs : List (Grab re))
              → All (UsableGrab re names) gs
              → UsableGrabs re names (run_calls gs cs))
          → UsableGrabs re names (m >>= λ gs. run_calls gs cs)
      next (Option.some gs) v ih = ih gs v
      next Option.none v ih = tt

  -- Whatever a configuration file calls, with arguments that the configuration's functions built: when `config_new`
  -- succeeds, every grab that is not ignored has a keymap without open cells, in range at every depth.
  pub config_new-UsableGrabs :
      (allocates : Bool) (s : Script)
      → All (λ (c : GrabCall). All BuiltValue (args_of c)) s.calls
      → UsableGrabs re names (config_new allocates s)
  unfolding config_new
  config_new-UsableGrabs false s b = tt
  config_new-UsableGrabs true s b = loaded s.loads
    where
      ended :
          (m : Option (List (Grab re)))
          → UsableGrabs re names m
          → UsableGrabs re names (finished s m)
      ended Option.none v = tt
      ended (Option.some gs) v = kept s.finishes
        where
          kept :
              (finishes : Bool)
              → UsableGrabs re names (if finishes then Option.some gs else Option.none)
          kept true = v
          kept false = tt

      loaded :
          (loads : Bool)
          → UsableGrabs re names (if loads then finished s (run_calls [] s.calls) else Option.none)
      loaded true = ended (run_calls [] s.calls) (run_calls-UsableGrabs s.calls [] tt b)
      loaded false = tt
