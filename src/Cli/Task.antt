-- ===== src/Cli/Task.antt =====
-- src/main.rs: `command_args`, and what `real_main` makes of its options.
use abduco_inline.Prelude.{
  ℕ, List, [], ◌∷◌, is_empty, if◌then◌else◌, Bool, true, ◌&&◌, ◌||◌, not, Option, none, some,
  is_none, bit_or, Result, ok, err, invalid_input,
}
use abduco_inline.Prelude.Bytes.{Bytes}
use abduco_inline.Prelude.Text.{codes}
use abduco_inline.Cli.{
  Action, attach, attach_or_create, create_attach, create, dump, send_keys, Opts, has_action,
  client_lowpriority,
}

-- The environment variables that choose the command.
pub record Env : Type 0 where
  pub abduco_cmd : Option Bytes
  pub shell : Option Bytes

unfoldable pub command_args : Env → Opts → List Bytes
command_args env o = if not (is_empty o.rest) then o.rest else elim env.abduco_cmd [
  | some cmd ↦ codes "/bin/sh" ∷ codes "-c" ∷ cmd ∷ []
  | none ↦ elim env.shell [ some shell ↦ shell ∷ [] | none ↦ codes "/bin/sh" ∷ [] ]
]

-- What `attach_session` reads of the options.
pub record AttachOpts : Type 0 where
  pub flags : ℕ
  pub quiet : Bool
  pub passthrough : Bool
  pub detach_key : ℕ

abbrev pub attach_opts : Opts → AttachOpts
attach_opts o = record {
  flags = o.flags;
  quiet = o.quiet;
  passthrough = o.passthrough;
  detach_key = o.detach_key;
}

-- The calls that `real_main` makes: `create_session`, `attach_session`, both in this order, or the
-- one or both as `session_alive` decides; `dump_session`, `send_keys_session`, `list_sessions`.
pub data Task : Type 0 where
  list_sessions : Task
  create_session : Bytes → List Bytes → Task
  create_then_attach : Bytes → List Bytes → AttachOpts → Task
  attach_session : Bytes → AttachOpts → Task
  attach_or_create_session : Bytes → List Bytes → AttachOpts → Task
  dump_session : Bytes → ℕ → ℕ → Task
  send_keys_session : Bytes → List Bytes → Bool → Task

-- Without a terminal on stdin a named session is attached to in pass-through mode.
unfoldable pub without_terminal : Bool → Opts → Opts
without_terminal stdin_isatty o =
    if not (is_none o.name) && not stdin_isatty && not (has_action o dump || has_action o send_keys)
    then record o {
      passthrough = true;
      quiet = true;
      flags = bit_or o.flags client_lowpriority;
      action = if is_none o.action then some attach else o.action;
    }
    else o

abbrev pub task_of : Env → Opts → Action → Bytes → Task
task_of env o create name = create_session name (command_args env o)
task_of env o create_attach name = create_then_attach name (command_args env o) (attach_opts o)
task_of env o attach name = attach_session name (attach_opts o)
task_of env o attach_or_create name =
    attach_or_create_session name (command_args env o) (attach_opts o)
task_of env o dump name = dump_session name o.max_bytes o.max_lines
task_of env o send_keys name = send_keys_session name o.rest o.literal

abbrev pub or_usage : Option Action → Option Bytes → (Action → Bytes → Task) → Result Task
or_usage none name task = err invalid_input
or_usage (some a) none task = err invalid_input
or_usage (some a) (some name) task = ok (task a name)

-- `real_main` behind the parsing of its arguments.
unfoldable pub plan : Env → Bool → Opts → Result Task
plan env stdin_isatty given =
    let o = without_terminal stdin_isatty given in
    if is_none o.action && is_none o.name
    then ok list_sessions
    else or_usage o.action o.name (task_of env o)
