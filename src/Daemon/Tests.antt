-- ===== src/Daemon/Tests.antt =====
-- Server processes of src/main.rs that a signal ends.
use abduco_inline.Prelude.{
  ◌≡◌, refl, List, [], ◌∷◌, ◌++◌, true, false, none, some, would_block, inl, arith, if◌then◌else◌,
}
use abduco_inline.Prelude.Bytes.{Bytes}
use abduco_inline.Prelude.Text.{codes, eq_bytes}
use abduco_inline.Stream.{wrote, read_ok, read_failed}
use abduco_inline.Files.{World, socket, folder}
use abduco_inline.Paths.{PathEnv, derive_server_log_path}
use abduco_inline.Sessions.{session_alive}
use abduco_inline.Server.Packets.{Pty}
use abduco_inline.Server.Tick.{Os, Server, Round, start, finished, server_loop, sigterm}
use abduco_inline.Sessions.{Descriptor, child, set_nonblocking, set_both_nonblocking}
use abduco_inline.Log.{LogEntry, opened, set_log_path, log_all, start_entry, clean_entry}
use abduco_inline.Daemon.{
  ServerProcess, Life, default_action, deliver, take_shutdown_requested, handle_shutdown_signal,
  become_server, server_main, set_signals, signal, write_log,
}
use abduco_inline.Daemon.Ends.{signal_ends_server}

abbrev path : Bytes
path = codes "/run/web"

abbrev files : World
files = record {
  kind = λ p.
      if eq_bytes p path
      then some (socket (some []))
      else if eq_bytes p (codes "/run")
      then some folder
      else none;
  mode = λ p. none;
  denied = λ p. false;
  cwd = codes "/work";
}

abbrev os : Os
os = record {
  pid = 815;
  wifexited = λ n. true;
  wexitstatus = λ n. 0;
  wifsignaled = λ n. false;
  wtermsig = λ n. 0;
}

abbrev forked_process : ServerProcess
forked_process = record {
  leader = false;
  dispositions = λ n. default_action;
  shutdown_requested = false;
  winch_pending = false;
  title = record {
    memory = λ a. 0;
    arg_end = 0;
    comm = codes "lich";
    stat = none;
    may_set_mm = false;
  };
  log = record {
    path = none;
    text = [];
    appends = opened none 100 ∷ opened none 100 ∷ opened none 100 ∷ [];
  };
  hooked = false;
  null_opens = true;
  on_null = λ fd. false;
}

abbrev shell : Pty
shell = record {
  written = [];
  writes = wrote 4096 ∷ [];
  reads = read_ok (36 ∷ 32 ∷ []) ∷ read_failed would_block ∷ [];
  calls = [];
}

abbrev quiet_round : Round
quiet_round = record {
  shutdown_requested = false;
  accepted = [];
  waited = none;
  packets_at = 10;
  exit_at = 10;
  drain_at = 10;
}

abbrev term_round : Round
term_round = record quiet_round { shutdown_requested = true }

abbrev last_round : Round
last_round = record quiet_round { drain_at = 6000 }

abbrev descriptor : Descriptor
descriptor = record { flags = λ bit. false; readable = true; settable = true }

abbrev life : Life
life = record {
  forkpty = child none;
  o_nonblock = 11;
  listener = descriptor;
  master = descriptor;
  read_pty = true;
  pty = shell;
  rounds = term_round ∷ quiet_round ∷ last_round ∷ [];
  describe = λ e. codes "error";
  fcntl_error = codes "bad file descriptor";
}

abbrev signalled : ServerProcess
signalled = handle_shutdown_signal (become_server 815 (codes "web") path forked_process)

abbrev env : PathEnv
env = record {
  user = none;
  uid = codes "0";
  socket_dir = none;
  home = none;
  tmpdir = none;
  host = none;
}

signal_ends_server_example :
    let out = server_main os life (codes "web") path forked_process files in
    (out.0 ≡ some 0)
    × (out.1.1.kind path ≡ none)
    × (session_alive env out.1.1 path ≡ (false, out.1.1))
    × ((s' : Server) × (server_loop os life.rounds (start true shell) ≡ finished 143 s'))
    × ((es : List LogEntry) × (out.1.0.log
          ≡ log_all 815
              (start_entry 815 (codes "web") ∷ es ++ clean_entry 143 ∷ [])
              (set_log_path (derive_server_log_path path) forked_process.log)))
unfolding server_loop set_both_nonblocking set_nonblocking deliver handle_shutdown_signal
    take_shutdown_requested become_server set_signals signal write_log
signal_ends_server_example =
    signal_ends_server env os life sigterm (codes "web") path forked_process signalled files
      (some []) 10 term_round last_round [] (quiet_round ∷ []) [] (start true shell) (inl refl) refl
      refl refl refl refl refl refl tt (refl, (refl, tt)) refl (omega arith) (omega arith)
      (omega arith) refl refl refl
