-- ===== src/Main/Tests.antt =====
-- Runs of `real_main` of src/main.rs that attach.
mod Clients
mod Live
use abduco_inline.Prelude.{
  inr, ◌≡◌, List, ◌++◌, ◌==◌, err, arith, not_found, interrupted, would_block, refl, [], ◌∷◌,
  if◌then◌else◌, true, false, Option, none, some,
}
use abduco_inline.Prelude.Bytes.{Bytes}
use abduco_inline.Prelude.Text.{codes, eq_bytes, split_last}
use abduco_inline.Protocol.{packet_bytes, read_u32}
use abduco_inline.Prelude.Decimal.{decimal, digits_loop, parse_uint, parse_digits}
use abduco_inline.History.{History, snapshot}
use abduco_inline.Stream.{
  ReadAnswer, read_ok, read_failed, wrote, write_failed, write_loop, send_packet_blocking,
}
use abduco_inline.Server.Client.{
  flush_loop, try_flush_client, send_packet_nonblocking, chunks_loop, chunks, send_chunks,
  send_history, broadcast_to,
}
use abduco_inline.Server.Client.Outbound.{committed}
use abduco_inline.Server.Packets
use abduco_inline.Server.Packets.{attach}
use abduco_inline.Dump.{dump_start, tail_line_start, scan_from, scan_back}
use abduco_inline.Main.Dumped.{main_dumps_history}
use abduco_inline.Cli.{default_opts, dump, parse_size}
use abduco_inline.Server.Tick.Output.{outputs, hear}
use abduco_inline.Cli.{parse_args, parse_loop, parse_step, check_opts}
use abduco_inline.Server.Tick.{new_client, Os, Accepted, pid_packet, exit_packet, queue_exit}
use abduco_inline.Cli.Task.{AttachOpts, plan, without_terminal}
use abduco_inline.Files.{
  World, Kind, socket, folder, put, remove_file, connect, bind, create_dir_all,
}
use abduco_inline.Paths.{PathEnv, socket_path, parent, trim}
use abduco_inline.Sessions.{
  greets, forked, connect_path, connect_session, session_alive, listen, read_startup_status,
  read_pipe,
}
use abduco_inline.Attach.{Terminal, Wake, ready, attach_session, clear_screen, show_cursor}
use abduco_inline.Tty.{Constants, Tty, enter}
use abduco_inline.Attach.Whole.{served}
use abduco_inline.Main.{Setting, saves_modes, io}
use abduco_inline.Main.Attached.{CanStart}
use abduco_inline.Main.Program.{Machine, ended, error, info, finish_attach, run_task, main}
use abduco_inline.Main.Shown.{main_shows_session, main_attaches_or_creates}

abbrev pub path : Bytes
path = codes "/run/web"

abbrev env : PathEnv
env = record {
  user = none;
  uid = codes "0";
  socket_dir = none;
  home = none;
  tmpdir = none;
  host = none;
}

abbrev pub world_with : Option Kind → World
world_with kind = record {
  kind = λ p.
      if eq_bytes p path then kind else if eq_bytes p (codes "/run") then some folder else none;
  mode = λ p. none;
  denied = λ p. false;
  cwd = codes "/work";
}

abbrev pub os : Os
os = record {
  pid = 815;
  wifexited = λ n. true;
  wexitstatus = λ n. 0;
  wifsignaled = λ n. false;
  wtermsig = λ n. 0;
}

abbrev greeting : Bytes
greeting = packet_bytes (pid_packet os)

abbrev orphan : World
orphan = world_with (some (socket none))

-- Flags and control characters, with raw modes that differ from the cooked ones.
abbrev constants : Constants
constants = record {
  ignbrk = λ i. i == 0;
  brkint = λ i. i == 1;
  parmrk = λ i. i == 3;
  istrip = λ i. i == 5;
  inlcr = λ i. i == 6;
  igncr = λ i. i == 7;
  icrnl = λ i. i == 8;
  ixon = λ i. i == 10;
  ixoff = λ i. i == 12;
  opost = λ i. i == 0;
  echo = λ i. i == 3;
  echonl = λ i. i == 6;
  icanon = λ i. i == 1;
  isig = λ i. i == 0;
  iexten = λ i. i == 15;
  csize = λ i. false;
  parenb = λ i. i == 8;
  cs8 = λ i. false;
  vmin = 6;
  vtime = 5;
}

abbrev cooked : Tty
cooked = record {
  isatty = true;
  modes = record {
    c_iflag = λ i. i == 8;
    c_oflag = λ i. i == 0;
    c_cflag = λ i. i == 4;
    c_lflag = λ i. i == 1;
    c_cc = λ i. 4;
  };
  readable = true;
  settable = true;
  printed = [];
}

abbrev setting : Setting
setting = record {
  env = env;
  greeting = greeting;
  fork = forked (λ v. v) (read_ok [] ∷ []);
  size = record { rows = 24; cols = 80 };
  constants = constants;
  tty = cooked;
  wakes = [];
}

abbrev plain : AttachOpts
plain = record { flags = 0; quiet = false; passthrough = false; detach_key = 0x1c }

abbrev pub terminal : Terminal
terminal = record {
  stream = record { wire = []; writes = []; reads = [] };
  incoming = [];
  stdout = record { wire = []; writes = []; reads = [] };
}

orphan-CanStart : CanStart os setting orphan path
unfolding session_alive connect_session connect_path connect socket_path remove_file put listen bind
    create_dir_all parent trim split_last read_startup_status read_pipe
orphan-CanStart = record {
  serve = λ v. v;
  reads = read_ok [] ∷ [];
  greeting = refl;
  fork = refl;
  dead = refl;
  still_dead = refl;
  free = refl;
  reported = refl;
  kept = λ v. (refl, refl);
}

abbrev pub machine : Machine
machine = record {
  setting = setting;
  env = record { abduco_cmd = none; shell = some (codes "/bin/bash") };
  terminal = terminal;
  read_dir = λ dir. err not_found;
}

main_attaches_or_creates_example :
    (incoming : Bytes) × (w' : World) × (main machine (codes "-A" ∷ path ∷ []) orphan
      ≡ finish_attach plain path
          (attach_session plain setting.size
            (saves_modes setting plain)
            []
            (record terminal { incoming = incoming }))
          w')
    × (greets incoming ≡ true)
main_attaches_or_creates_example =
    main_attaches_or_creates os machine orphan path refl refl (inr orphan-CanStart)

-- A connection that takes the pid packet, a little more, and then nothing.
abbrev pub connection : Accepted
connection = record {
  stream = record {
    wire = [];
    writes = wrote 16 ∷ wrote 3 ∷ write_failed would_block ∷ [];
    reads = [];
  };
  nonblocking = true;
}

abbrev prompt : History
prompt = record { bytes = 36 ∷ 32 ∷ [] }

abbrev typing : List ReadAnswer
typing = read_ok (111 ∷ []) ∷ read_failed interrupted ∷ read_ok (107 ∷ 10 ∷ []) ∷ []

-- The session's side of the connection is complete.
abbrev done : World
done =
    world_with
      (some (socket (some (committed (queue_exit 9 3 (served os connection plain prompt typing))))))

abbrev from_socket : Wake
from_socket = record { event = ready true none; winsize = record { rows = 24; cols = 80 } }

abbrev watcher : Machine
watcher = record machine {
  setting = record setting { wakes = from_socket ∷ from_socket ∷ from_socket ∷ from_socket ∷ [] };
  terminal = record terminal {
    stream = record { wire = []; writes = wrote 100 ∷ wrote 100 ∷ []; reads = [] };
    stdout = record { wire = []; writes = wrote 4096 ∷ wrote 4096 ∷ wrote 4096 ∷ []; reads = [] };
  };
}

main_shows_session_example :
    main watcher (codes "-a" ∷ path ∷ []) done
    ≡ ended 3
        (info path (codes "session terminated with exit status 3") ∷ [])
        (clear_screen ++ ((36 ∷ 32 ∷ 111 ∷ 107 ∷ 10 ∷ []) ++ show_cursor))
        done
unfolding enter snapshot attach send_history send_chunks chunks chunks_loop send_packet_nonblocking
    packet_bytes try_flush_client flush_loop hear outputs broadcast_to read_u32 send_packet_blocking
    write_loop pid_packet exit_packet decimal digits_loop
main_shows_session_example =
    main_shows_session os connection watcher done path prompt typing 9 3 refl refl refl (refl, refl)
      refl (omega arith) (omega arith, (omega arith, tt)) (omega arith) refl refl
      (omega arith, (omega arith, (omega arith, tt))) (omega arith)
      (refl, (refl, (refl, (refl, tt)))) (omega arith)

the_version_is_printed :
    main machine (codes "-v" ∷ []) orphan ≡ ended 0 [] (codes "lich-rust-0.1.0\n") orphan
unfolding main parse_args parse_loop parse_step
the_version_is_printed = refl

a_dead_session_is_an_error :
    main machine (codes "-d" ∷ path ∷ []) (world_with none)
    ≡ ended 1 (error (io not_found) ∷ []) [] (world_with none)
unfolding main parse_args parse_loop parse_step check_opts plan without_terminal run_task
    connect_session connect_path connect socket_path
a_dead_session_is_an_error = refl
