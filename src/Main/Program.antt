-- ===== src/Main/Program.antt =====
-- src/main.rs: `main` and `real_main`: a run of the program from its arguments to its exit code, with
-- what it prints on stdout and the messages on stderr. The list and the version are printed whole.
use abduco_inline.Prelude.{ℕ, List, [], ◌∷◌, ◌++◌, if◌then◌else◌, Result, ok, err}
use abduco_inline.Prelude.Bytes.{Bytes}
use abduco_inline.Prelude.Text.{codes}
use abduco_inline.Log.{i32_text}
use abduco_inline.Cli.{parsed, usage_err, print_version, parse_args}
use abduco_inline.Cli.Task.{Env, AttachOpts, Task, plan}
use abduco_inline.Files.{World}
use abduco_inline.Listing
use abduco_inline.Listing.{Entry}
use abduco_inline.Sessions
use abduco_inline.Sessions.{connect_session}
use abduco_inline.Dump
use abduco_inline.Keys
use abduco_inline.Stream.{write_loop}
use abduco_inline.Attach.{
  Terminal, Progress, again, returned, ClientStatus, detached, io_error, exited, process_exit,
}
use abduco_inline.Main.{
  Setting, Failure, io, usage, Ran, attached, not_started, then_started, run_attach,
  run_create_attach, run_attach_or_create,
}

-- What a run meets besides the arguments and the files: `terminal` holds a new connection and stdout.
pub record Machine : Type 0 where
  pub setting : Setting
  pub env : Env
  pub terminal : Terminal
  pub read_dir : Bytes → Result (List (Result Entry))

-- A line on stderr: the error of `main`, or `info` with the name of the session.
pub data Message : Type 0 where
  error : Failure → Message
  info : Bytes → Bytes → Message

-- The client of a session still runs, or the process has ended: its exit code, its messages, what is on
-- stdout, and the files.
pub data ProgramRun : Type 0 where
  running : Terminal → World → ProgramRun
  ended : ℕ → List Message → Bytes → World → ProgramRun

-- `main`, when `real_main` gives an error.
abbrev pub fail : Bytes → World → Failure → ProgramRun
fail stdout w e = ended 1 (error e ∷ []) stdout w

-- The messages of `attach_session`.
abbrev pub status_text : ClientStatus → Bytes
status_text detached = codes "detached"
status_text io_error = codes "disconnected (no MSG_EXIT received; server may still be alive)"
status_text (exited code) = codes "session terminated with exit status " ++ i32_text code

-- The end of `attach_session`, whose sessions all terminate the process.
unfoldable pub finish_attach : AttachOpts → Bytes → Progress → World → ProgramRun
finish_attach o name (again s) w = running s w
finish_attach o name (returned (err e) s) w = fail s.stdout.wire w (io e)
finish_attach o name (returned (ok status) s) w =
    ended (process_exit (ok status)) (if o.quiet then [] else info name (status_text status) ∷ [])
      s.stdout.wire w

unfoldable pub finish_ran : AttachOpts → Bytes → Bytes → Ran × World → ProgramRun
finish_ran o name stdout (attached p, w) = finish_attach o name p w
finish_ran o name stdout (not_started e, w) = fail stdout w e

-- What a call gives that prints nothing.
abbrev pub finish : Bytes → World → Result (Unit {0}) → ProgramRun
finish stdout w (ok _) = ended 0 [] stdout w
finish stdout w (err e) = fail stdout w (io e)

-- The arms of `real_main`. Stdout is not buffered here: what it does not take makes the run fail.
unfoldable pub run_task : Machine → Task → World → ProgramRun
run_task m Task.list_sessions w =
    let (result, out, w') = Listing.list_sessions m.setting.env m.read_dir w in
    finish (m.terminal.stdout.wire ++ out) w' result
run_task m (Task.create_session name cmd) w =
    let (created, w') =
      Sessions.create_session m.setting.env m.setting.greeting m.setting.fork w name in
    then_started created (fail m.terminal.stdout.wire w') (ended 0 [] m.terminal.stdout.wire w')
run_task m (Task.create_then_attach name cmd o) w =
    finish_ran o name m.terminal.stdout.wire (run_create_attach m.setting o m.terminal w name)
run_task m (Task.attach_session name o) w =
    let (progress, w') = run_attach m.setting o m.terminal w name in
    finish_attach o name progress w'
run_task m (Task.attach_or_create_session name cmd o) w =
    finish_ran o name m.terminal.stdout.wire (run_attach_or_create m.setting o m.terminal w name)
run_task m (Task.dump_session name max_bytes max_lines) w =
    let (connected, w') = connect_session m.setting.env w name in
    elim connected [
      | err e ↦ fail m.terminal.stdout.wire w' (io e)
      | ok incoming ↦ elim (Dump.dump_session m.terminal.stream incoming max_bytes max_lines) [
        | err e ↦ fail m.terminal.stdout.wire w' (io e)
        | ok out ↦
            (let printed = write_loop m.terminal.stdout.writes out m.terminal.stdout.wire in
              finish printed.wire w' printed.result)
      ]
    ]
run_task m (Task.send_keys_session name keys literal) w =
    let (connected, w') = connect_session m.setting.env w name in
    elim connected [
      | err e ↦ fail m.terminal.stdout.wire w' (io e)
      | ok incoming ↦
          finish m.terminal.stdout.wire w'
            (Keys.send_keys_session m.terminal.stream incoming keys literal).0
    ]

abbrev pub version : Bytes
version = codes "lich-rust-0.1.0\n"

-- The whole program.
unfoldable pub main : Machine → List Bytes → World → ProgramRun
main m args w = elim (parse_args args) [
  | usage_err ↦ fail m.terminal.stdout.wire w usage
  | print_version ↦ ended 0 [] (m.terminal.stdout.wire ++ version) w
  | parsed o ↦ elim (plan m.env m.setting.tty.isatty o) [
    | err _ ↦ fail m.terminal.stdout.wire w usage
    | ok task ↦ run_task m task w
  ]
]
