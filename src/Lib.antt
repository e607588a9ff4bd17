-- ===== src/Lib.antt =====
-- keytap: a user-space key remapper for Linux. It grabs keyboards, resolves their events by keymaps from a
-- Lua configuration, and passes the result to an application: a virtual keyboard of its own, or a server
-- that sends the events over a socket.
--
-- The parts, and the files that model them:
-- * time_util.c (`timeval_diff`, `msec_diff`, `msec_after`): TimeUtil.
-- * key_action.c, key_action.h (what a key does): KeyAction. Pointers to an action are modelled by the
--   action, since nothing changes a keymap once it is filled. KeyAction/Memory has copying and freeing, with
--   the blocks that they allocate; Owned and Copying count these.
-- * resolver.c, resolver.h: Resolver, with one function per C function; Resolver/Waveforms has
--   `check_waveform`, and Resolver/Steps `do_keypress` and `resolve`, split into the parts that their
--   comments name. Resolver/Frame says which fields change, Ring reads the ring as a queue, Safety and
--   Returns treat arrays and exits, Decision the choice between tap and hold, Waiting when that is open,
--   Tapping a dual-mode key that is tapped, Release what happens when a key comes up.
-- * sdiol.c, `send_dedup`: SendDedup, with the keys in SendDedup/Or and SendDedup/Alternating, EV_SYN in
--   SendDedup/Syn, and runs one after the other in SendDedup/Runs.
-- * sdiol.c, `serve_loop`: ServeLoop treats an event that was read: `resolve_dedup_input`, the write into
--   the ring, `while(resolve(r));`, and `send_dedup` on what the resolver sends. ServeLoop/Keyboards is the
--   pass over the keyboards, and ServeLoop/Rounds the loop itself, over an application: what is watched,
--   `select`, the timed exit, inotify, and the closing; ServeLoop/Deadline has the timeout for `select`.
--   Drain, Waiting and Tapping are about the inner loop, Reached follows a grab, and Passes, Adding, Running
--   and Runs follow the whole loop, Ledger the descriptors of its keyboards, and Output what it passes on. Counting,
--   Emptying and Remapping treat keymaps of keys and chains of keys, which Resolver/Remap describes without
--   a queue (Resolver/Plain has `resolve` on them).
-- * app.h (the application): App, an interface with laws, which the serve loop takes as a parameter.
-- * config.c, config.h: Config. Config/Lua has the Lua values that the C functions read from the stack,
--   Copy turns them into key actions, Typing says which values are key actions, Tables which keymaps come of
--   tables of keys, Fill fills the open cells, Macro and DualKey build keys, Grabs builds the list of grabs,
--   Globals has the variables that a file starts with, Loading runs a
--   file, and Printing has the text of a key action.
-- * devices.c, devices.h: Devices, which input devices become keyboards, Devices/Places, the keymaps that
--   they get, and Devices/Output, what the virtual keyboard may send.
-- * server.c, server.h: Server, the clients and the text for the active one; Server/Watch has
--   `server_prep_select`, and the server as an application.
-- * permissions.c, `set_file_perms`: Permissions, the owner and the mode of the socket file.
-- * sdiol.c, `first_newline` and the buffer of `main_read`: EventReader, with the event that is built of the
--   numbers of a line, which EventReader/Scanning treats. EventReader/Stream has the loop over the reads, and
--   EventReader/Cut what a cut leaves of the server's lines.
-- * sdiol.c, `split_user_group`: UserGroup.
-- * sdiol.c, the command line: CommandLine has `parse_opts` and `runopts_build`, CommandLine/Dispatch the
--   choice of a command in `main` and `get_lock_path`.
-- * sdiol.c, the commands: Commands/ServeUnix has `main_serve_unix`, Commands/Local `main_local`,
--   Commands/Remote `main_read`, `main_connect` and `main_serve_tcp`, and Commands/Main `main`. Closing,
--   Writing, Tidy, Relay, Ends and Whole have the proofs; Dealing, Remapped and Tables follow keymaps of
--   keys and chains of keys to the events written.
-- * networking.c, networking.h: Networking, the functions as the calls that they make; Networking/Ledger
--   replays such calls on what the system knows of a process. Networking/Addresses has `gai_open`.
-- * names.c, names.h: Names, the two tables and their lookups; the entries are in Names/Typing, Media,
--   Buttons, Remote and Extra, in the source's order.
-- Base has the lemmas, the signed numbers, the arrays (functions of an index, with a bound at each access)
-- and the outcomes: a call returns, or stops the program by an exit or by undefined behaviour. Examples
-- runs the models at concrete inputs.
--
-- How they interact: `serve_loop` keeps a resolver for each grab and one deduper for all of them. The
-- resolver calls the deduper's send function and does not look at its result, so that the model of the
-- resolver returns the events it sends, and the loop hands them to the deduper in order, and what the
-- deduper lets through to the application. The keymap that the resolver starts from is the one that the
-- configuration has filled. A round of the serve loop takes what the system gives in it, a turn, and a run
-- takes a sequence of turns. A signal is a turn in which `keep_going` is false. A grab that is ignored has
-- no keyboard, so that its resolver is never used, and only the keymaps of keyboards are asked to be
-- filled. Commands/Configured puts the configuration and the devices into the program: what `config_new`
-- makes and `open_input` opens keeps to this.
--
-- Bounds and fuel: the ring has 1024 cells, and arrays indexed by key code have KEY_MAX = 0x2ff. The inner
-- loop runs on 1025 rounds of fuel: each round but the last takes an event off a ring of at most 1024. The
-- loop over the clients has as many rounds as there are clients, since a round passes one or closes one.
-- `key_action_get` has its 32 tries from the source. The digits of a number have 64 rounds, which is
-- enough for 64 bits. The reader's loop has a round more than the buffer has bytes, since each line takes
-- one at least.
--
-- Parameters: the clock, the results of the system calls (Server.Poll, ServeLoop/Rounds.Turn,
-- Devices.Device, Permissions.System, Networking.UnixCalls, Networking/Addresses.Address,
-- EventReader/Stream.Got), `sscanf` with its format (EventReader.Sscanf), `getopt_long` and `atoi`,
-- `config_new` where only its result matters, and regular expressions (Config/Grabs.Regexes). Config takes
-- the key names as an interface (Config/Lua.Names), which Names/Codes fills. khash.h is a copy of a
-- library: its tables are taken as associations. Commands/Main.World gathers what the libraries and the
-- system give to a run of the program, and Commands/Configured.Machine the same before a configuration is
-- made of a file and keyboards of devices.
--
-- Not modelled: `timeval_now` and `open_inotify`, which only call the system; the memory of the Lua state,
-- the hook for its collector and `config_free`; messages. Outside of KeyAction/Memory allocation is taken
-- to succeed, and counters of type int and long not to overflow. A conversion to int or long is written
-- out (Base/Ints.to_int and to_long) in a number given to `macro`, in the fields of an event that is read,
-- and in the milliseconds of the timeout. A configuration file is a list of calls, the first error in
-- which ends it (Config/Loading.Script): one that runs for ever, recovers from an error or changes the
-- variables behind these calls has no such list.
pub mod Base
pub mod TimeUtil
pub mod Input
pub mod KeyAction
pub mod Resolver
pub mod SendDedup
pub mod ServeLoop
pub mod Config
pub mod Devices
pub mod App
pub mod Server
pub mod EventReader
pub mod Permissions
pub mod UserGroup
pub mod Networking
pub mod Names
pub mod CommandLine
pub mod Commands
pub mod Examples
