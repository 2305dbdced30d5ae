-- ===== src/Cli/Plan.antt =====
-- What `real_main` in src/main.rs does with its options.
use abduco_inline.Prelude.{◌≡◌, Bool, true, false, none, some, arith, bit_or, ok}
use abduco_inline.Prelude.Bytes.{Bytes}
use abduco_inline.Cli.{Opts, client_lowpriority}
use abduco_inline.Cli.Task.{Env, attach_session, without_terminal, command_args, plan}

-- A run without a terminal on stdin that names a session and no action attaches to it, in
-- pass-through mode, quiet, and with the low-priority flag set.
pub plan_without_terminal :
    (env : Env) (o : Opts) (name : Bytes)
    → o.name ≡ some name
    → o.action ≡ none
    → plan env false o
      ≡ ok (
          attach_session name (record {
            flags = bit_or o.flags client_lowpriority;
            quiet = true;
            passthrough = true;
            detach_key = o.detach_key;
          }))
unfolding plan without_terminal
plan_without_terminal env o name n a = ground arith

-- The force option changes nothing: whatever is planned, is planned without it.
pub plan_force :
    (env : Env) (stdin_isatty force : Bool) (o : Opts)
    → plan env stdin_isatty (record o { force = force }) ≡ plan env stdin_isatty o
unfolding plan without_terminal command_args
plan_force env stdin_isatty force o = ground arith
