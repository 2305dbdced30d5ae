-- ===== src/Sessions/Tests.antt =====
-- Sessions of src/main.rs that start, end and fail to start, at concrete paths.
use abduco_inline.Prelude.{
  ◌≡◌, refl, List, [], ◌∷◌, ◌++◌, if◌then◌else◌, true, false, Option, none, some, ok, err, IoError,
  connection_refused, not_found, interrupted,
}
use abduco_inline.Prelude.Bytes.{Bytes}
use abduco_inline.Prelude.Text.{split_last, codes, eq_bytes, split_last}
use abduco_inline.Protocol.{packet_bytes, read_exact, recv_packet_blocking}
use abduco_inline.Stream.{ReadAnswer, read_ok, read_failed}
use abduco_inline.Server.Tick.{Os, Server, start, finished, pid_packet}
use abduco_inline.Files.{
  World, Kind, socket, file, folder, put, remove_file, connect, bind, set_permissions,
  create_dir_all,
}
use abduco_inline.Paths.{PathEnv, socket_path, parent, trim}
use abduco_inline.Sessions.{
  Descriptor, set_nonblocking, set_both_nonblocking, forked, started, refused, connect_path,
  connect_session, greets, session_alive, trim_end, read_pipe, read_startup_status, listen,
  create_session, Run, child, startup_report, run_server, server_process,
}
use abduco_inline.Paths.{
  derive_server_log_path, set_file_name, file_name, last_component, trim, parent,
}
use abduco_inline.Sessions.Startup.{startup_is_reported, reported}
use abduco_inline.Sessions.Cleanup.{server_process_removes_socket, relative_socket_is_left}
use abduco_inline.Sessions.Refused.{connect_session_removes_file}
use abduco_inline.Sessions.Created.{created_session_is_alive, failed_start_leaves_nothing}

abbrev path : Bytes
path = codes "/run/web"

abbrev env : PathEnv
env = record {
  user = none;
  uid = codes "0";
  socket_dir = none;
  home = none;
  tmpdir = none;
  host = none;
}

-- One entry at the path, and the directory it is in.
abbrev world_with : Option Kind → World
world_with kind = record {
  kind = λ p.
      if eq_bytes p path then kind else if eq_bytes p (codes "/run") then some folder else none;
  mode = λ p. none;
  denied = λ p. false;
  cwd = codes "/work";
}

abbrev os : Os
os = record {
  pid = 815;
  wifexited = λ n. true;
  wexitstatus = λ n. 0;
  wifsignaled = λ n. false;
  wtermsig = λ n. 0;
}

abbrev greeting : Bytes
greeting = packet_bytes (pid_packet os)

abbrev describe : IoError → Bytes
describe e = codes "not found"

-- The pipe gives the report in two pieces, with an interruption between them.
abbrev pieces : List ReadAnswer
pieces =
    read_ok (codes "server-execvp: ")
    ∷ read_failed interrupted
    ∷ read_ok (codes "vim: not found\n")
    ∷ read_ok []
    ∷ []

report_begins :
    startup_report describe (codes "vim") (child (some not_found))
    ≡ codes "server-execvp: " ++ codes "vim: not found\n"
unfolding startup_report
report_begins = refl

startup_is_reported_example :
    read_startup_status pieces ≡ refused (codes "server-execvp: vim: not found")
unfolding trim_end
startup_is_reported_example =
    startup_is_reported describe (codes "vim") (child (some not_found)) pieces
      (codes "vim: not found\n", report_begins, ([], refl, refl))

abbrev last : Server
last = start true (record { written = []; writes = []; reads = []; calls = [] })

abbrev open_file : Descriptor
open_file = record { flags = λ bit. false; readable = true; settable = true }

-- The server whose command has ended.
abbrev done : Run
done = record {
  forkpty = child none;
  o_nonblock = 11;
  listener = open_file;
  master = open_file;
  loop = finished 0 last;
}

abbrev live : World
live = world_with (some (socket (some greeting)))

a_run_ends : server_process path done live ≡ (some 0, (server_process path done live).1)
unfolding server_process run_server set_both_nonblocking set_nonblocking
a_run_ends = refl

server_process_removes_socket_example :
    ((server_process path done live).1.kind path ≡ none)
    × ((server_process path done live).1.kind (codes "/run/shell") ≡ live.kind (codes "/run/shell"))
unfolding derive_server_log_path set_file_name file_name last_component split_last trim parent
server_process_removes_socket_example =
    server_process_removes_socket path (codes "/run/shell") done live
      (server_process path done live).1 (some greeting) 0 refl refl refl refl refl a_run_ends

-- A directory of sockets below the working directory.
abbrev relative : Bytes
relative = codes "sockets/web"

abbrev beside : World
beside = record live {
  kind =
      λ p. if eq_bytes p (codes "/work/sockets/web") then some (socket (some greeting)) else none;
}

a_relative_run_ends :
    server_process relative done beside ≡ (some 0, (server_process relative done beside).1)
unfolding server_process run_server set_both_nonblocking set_nonblocking
a_relative_run_ends = refl

relative_socket_is_left_example :
    (server_process relative done beside).1.kind (codes "/work/sockets/web")
    ≡ some (socket (some greeting))
relative_socket_is_left_example =
    relative_socket_is_left relative done beside (server_process relative done beside).1 none 0 refl
      refl refl a_relative_run_ends

connect_session_removes_file_example :
    connect_session env (world_with (some file)) path
    ≡ (err connection_refused, put (world_with (some file)) path none)
connect_session_removes_file_example =
    connect_session_removes_file env (world_with (some file)) path refl refl refl

greets_lem : greets greeting ≡ true
unfolding greets packet_bytes pid_packet recv_packet_blocking read_exact
greets_lem = refl

-- An orphaned socket.
abbrev orphan : World
orphan = world_with (some (socket none))

orphan_is_dead : (session_alive env orphan path).0 ≡ false
unfolding session_alive connect_session connect_path connect socket_path remove_file put
orphan_is_dead = refl

orphan_is_replaced : (listen greeting (session_alive env orphan path).1 path).0 ≡ ok tt
unfolding session_alive connect_session connect_path connect socket_path remove_file put listen bind
    create_dir_all parent trim split_last
orphan_is_replaced = refl

created_session_is_alive_example :
    let out = create_session env greeting (forked (λ v. v) (read_ok [] ∷ [])) orphan path in
    (out.0 ≡ started)
    × (session_alive env out.1 path ≡ (true, out.1))
    × (out.1.mode path ≡ some 0o600)
unfolding read_startup_status read_pipe
created_session_is_alive_example =
    created_session_is_alive os env (λ v. v) (read_ok [] ∷ []) orphan path refl orphan_is_dead
      orphan_is_replaced refl (λ v. (refl, refl))

abbrev no_vim : Run
no_vim = record {
  forkpty = child (some not_found);
  o_nonblock = 11;
  listener = open_file;
  master = open_file;
  loop = finished 127 last;
}

may_be_removed : (listen greeting (session_alive env orphan path).1 path).1.denied path ≡ false
unfolding session_alive connect_session connect_path connect socket_path remove_file put listen bind
    create_dir_all parent trim split_last set_permissions
may_be_removed = refl

failed_start_leaves_nothing_example :
    let out =
      create_session env greeting
        (forked (λ v. (server_process path no_vim v).1) pieces)
        orphan
        path in
    (out.0 ≡ reported describe (codes "vim") (child (some not_found))) × (out.1.kind path ≡ none)
failed_start_leaves_nothing_example =
    failed_start_leaves_nothing describe (codes "vim") not_found env greeting no_vim pieces orphan
      path refl orphan_is_dead orphan_is_replaced may_be_removed refl
      (codes "vim: not found\n", report_begins, ([], refl, refl))
