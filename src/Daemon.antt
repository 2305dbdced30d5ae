-- ===== src/Daemon.antt =====
-- src/main.rs: the server process that `create_session` forks, from the fork to its exit: its signals,
-- its title, its log and its descriptors, around `run_server`. Signals have their POSIX numbers.
pub mod Signals
pub mod Ends
mod Tests
use abduco_inline.Prelude.{
  ℕ, List, [], ◌∷◌, ◌==◌, leb, if◌then◌else◌, Bool, true, false, ◌||◌, Option, none, some, ok, err,
  IoError,
}
use abduco_inline.Prelude.Bytes.{Bytes}
use abduco_inline.Files.{World, remove_file}
use abduco_inline.Paths.{derive_server_log_path}
use abduco_inline.Title
use abduco_inline.Title.{shorten_server_proctitle}
use abduco_inline.Server.Packets.{Pty}
use abduco_inline.Server.Tick.{Os, Round, sigterm, start, server_loop}
use abduco_inline.Sessions.{
  Forkpty, forkpty_failed, child, Descriptor, Run, set_both_nonblocking, server_process, drop_guard,
  guard_of,
}
use abduco_inline.Log.{
  Log, LogEntry, set_log_path, server_log, log_all, start_entry, exit_error_entry, panic_entry,
  loop_entries,
}

abbrev pub sighup : ℕ
sighup = 1

abbrev pub sigint : ℕ
sigint = 2

abbrev pub sigpipe : ℕ
sigpipe = 13

pub data Disposition : Type 0 where
  default_action ignored shutdown_handler winch_handler : Disposition

-- The two flags are SHUTDOWN_REQUESTED and WINCH_PENDING. `on_null` tells the descriptors that stand
-- for /dev/null, and `null_opens` whether that can be opened.
pub record ServerProcess : Type 0 where
  pub leader : Bool
  pub dispositions : ℕ → Disposition
  pub shutdown_requested : Bool
  pub winch_pending : Bool
  pub title : Title.Process
  pub log : Log
  pub hooked : Bool
  pub null_opens : Bool
  pub on_null : ℕ → Bool

unfoldable pub handle_sigwinch : ServerProcess → ServerProcess
handle_sigwinch p = record p { winch_pending = true }

unfoldable pub handle_shutdown_signal : ServerProcess → ServerProcess
handle_shutdown_signal p = record p { shutdown_requested = true }

-- `libc::signal`
unfoldable pub signal : ℕ → Disposition → ServerProcess → ServerProcess
signal sig d p = record p { dispositions = λ n. if n == sig then d else p.dispositions n }

-- A signal arrives that the process handles or ignores: what its handler does, and `none` where the
-- default action is taken, which is not the program's.
unfoldable pub deliver : ℕ → ServerProcess → Option ServerProcess
deliver sig p = elim (p.dispositions sig) [
  | default_action ↦ none
  | ignored ↦ some p
  | shutdown_handler ↦ some (handle_shutdown_signal p)
  | winch_handler ↦ some (handle_sigwinch p)
]

-- `SHUTDOWN_REQUESTED.swap(false, …)`
unfoldable pub take_shutdown_requested : ServerProcess → Bool × ServerProcess
take_shutdown_requested p = (p.shutdown_requested, record p { shutdown_requested = false })

unfoldable pub set_signals : ServerProcess → ServerProcess
set_signals p =
    signal sigint shutdown_handler
      (signal sigterm shutdown_handler (signal sighup ignored (signal sigpipe ignored p)))

unfoldable pub write_log : ℕ → List LogEntry → ServerProcess → ServerProcess
write_log pid es p = record p { log = log_all pid es p.log }

-- What the forked process does before it runs the server.
unfoldable pub become_server : ℕ → Bytes → Bytes → ServerProcess → ServerProcess
become_server pid name path p =
    let p1 = set_signals (record p { leader = true }) in
    let p2 = record p1 {
      title = shorten_server_proctitle name p.title;
      log = set_log_path (derive_server_log_path path) p.log;
      hooked = true;
    } in
    write_log pid (start_entry pid name ∷ []) p2

-- Only where /dev/null can be opened.
unfoldable pub redirect_stdio_to_null : ServerProcess → ServerProcess
redirect_stdio_to_null p =
    if p.null_opens then record p { on_null = λ fd. leb fd 2 || p.on_null fd } else p

-- What the operating system gives to a server: what `run_server` meets, the rounds of its loop, the
-- text of an error, and of the one where a connection is not made non-blocking.
pub record Life : Type 0 where
  pub forkpty : Forkpty
  pub o_nonblock : ℕ
  pub listener : Descriptor
  pub master : Descriptor
  pub read_pty : Bool
  pub pty : Pty
  pub rounds : List Round
  pub describe : IoError → Bytes
  pub fcntl_error : Bytes

abbrev pub run_of : Os → Life → Run
run_of os l = record {
  forkpty = l.forkpty;
  o_nonblock = l.o_nonblock;
  listener = l.listener;
  master = l.master;
  loop = server_loop os l.rounds (start l.read_pty l.pty);
}

-- What `run_server` changes of its process, and the log line for its error.
unfoldable pub serve : Os → Life → ServerProcess → ServerProcess
serve os l p = elim l.forkpty [
  | forkpty_failed e ↦ write_log os.pid (exit_error_entry (l.describe e) ∷ []) p
  | child _ ↦
      (let p' = redirect_stdio_to_null p in
        elim (set_both_nonblocking (run_of os l)) [
          | err e ↦ write_log os.pid (exit_error_entry (l.describe e) ∷ []) p'
          | ok _ ↦
              write_log os.pid (loop_entries os l.fcntl_error l.rounds (start l.read_pty l.pty)) p'
        ])
]

-- The server process: its exit code, if it has ended, its state and the files.
unfoldable pub server_main :
    Os → Life → Bytes → Bytes → ServerProcess → World → Option ℕ × (ServerProcess × World)
server_main os l name path p w =
    let (code, w') = server_process path (run_of os l) w in
    (code, (serve os l (become_server os.pid name path p), w'))
