-- ===== src/Main.antt =====
-- src/main.rs: the actions of `real_main` that attach: `create_session` and `attach_session` in their
-- order, over the file system.
pub mod Attached
pub mod Program
pub mod Shown
pub mod Live
pub mod Dumped
pub mod Sent
mod Tests
use abduco_inline.Prelude.{if◌then◌else◌, List, Bool, Result, ok, err, IoError, not, is_none}
use abduco_inline.Prelude.Bytes.{Bytes}
use abduco_inline.Cli.Task.{AttachOpts}
use abduco_inline.Files.{World}
use abduco_inline.Paths.{PathEnv}
use abduco_inline.Sessions.{
  Fork, Started, started, failed, refused, connect_session, session_alive, create_session,
}
use abduco_inline.Tty.{Constants, Tty, enter}
use abduco_inline.Attach.{Winsize, Wake, Terminal, Progress, returned, attach_session}

-- What a run meets: the environment, what a new server sends on a connection, how the fork goes, the
-- size of the terminal, the constants of libc, the terminal's modes, and what wakes the client's loop.
pub record Setting : Type 0 where
  pub env : PathEnv
  pub greeting : Bytes
  pub fork : Fork
  pub size : Winsize
  pub constants : Constants
  pub tty : Tty
  pub wakes : List Wake

-- Whether `RawMode::enter` saves the modes.
abbrev pub saves_modes : Setting → AttachOpts → Bool
saves_modes m o = not (is_none (enter m.constants o.passthrough m.tty).0)

-- `attach_session` with its connection.
unfoldable pub run_attach : Setting → AttachOpts → Terminal → World → Bytes → Progress × World
run_attach m o s w name =
    let (connected, w') = connect_session m.env w name in
    elim connected [
      | err kind ↦ (returned (err kind) s, w')
      | ok incoming ↦
          (attach_session o m.size (saves_modes m o) m.wakes (record s { incoming = incoming }), w')
    ]

-- The errors of `real_main`: of a kind, the usage text, or the message of a server.
pub data Failure : Type 0 where
  io : IoError → Failure
  usage : Failure
  server : Bytes → Failure

-- A run that attaches comes as far as its session, or a session could not be started.
pub data Ran : Type 0 where
  attached : Progress → Ran
  not_started : Failure → Ran

-- `create_session(…)?`, and what follows it.
abbrev pub then_started {ℓ} : {A : Type ℓ} → Started → (Failure → A) → A → A
then_started started fail next = next
then_started (failed kind) fail next = fail (io kind)
then_started (refused message) fail next = fail (server message)

-- `create_session(…)?` and `attach_session`.
unfoldable pub run_create_attach : Setting → AttachOpts → Terminal → World → Bytes → Ran × World
run_create_attach m o s w name =
    let (created, w') = create_session m.env m.greeting m.fork w name in
    let (progress, w'') = run_attach m o s w' name in
    then_started created (λ e. (not_started e, w')) (attached progress, w'')

unfoldable pub run_attach_or_create : Setting → AttachOpts → Terminal → World → Bytes → Ran × World
run_attach_or_create m o s w name =
    let (alive, w') = session_alive m.env w name in
    let (progress, w'') = run_attach m o s w' name in
    if alive then (attached progress, w'') else run_create_attach m o s w' name
