-- ===== src/Sessions.antt =====
-- src/main.rs: `connect_session`, `session_alive`, `create_session`, `read_startup_status`,
-- `run_server` around the server's loop, and `SocketGuard`.
pub mod Startup
pub mod Cleanup
pub mod Refused
pub mod Created
mod Tests
use abduco_inline.Prelude.{
  not, ℕ, ◌+◌, List, [], ◌∷◌, ◌++◌, ◌==◌, leb, if◌then◌else◌, is_empty, is_none, Bool, true, false,
  ◌&&◌, ◌||◌, Option, none, some, Result, ok, err, IoError, interrupted, connection_refused,
  addr_in_use, other,
}
use abduco_inline.Prelude.Bytes.{Bytes}
use abduco_inline.Prelude.Text.{codes, eq_bytes}
use abduco_inline.Protocol.{Packet, recv_packet_blocking, msg_pid}
use abduco_inline.Stream.{ReadAnswer, read_ok, read_failed}
use abduco_inline.Server.Tick.{Outcome, running, finished}
use abduco_inline.Files.{
  World, Kind, socket, absolute, remove_file, connect, bind, set_permissions, create_dir_all,
}
use abduco_inline.Paths.{PathEnv, socket_path, parent}

-- A socket that refuses the connection is taken for an orphan.
unfoldable pub connect_path : World → Bytes → Result Bytes × World
connect_path w p = elim (connect w p) [
  | ok incoming ↦ (ok incoming, w)
  | err connection_refused ↦ (err connection_refused, (remove_file w p).1)
  | err kind ↦ (err kind, w)
]

-- What comes on the connection, or the error.
unfoldable pub connect_session : PathEnv → World → Bytes → Result Bytes × World
connect_session e w name =
    let (path, w') = socket_path e w name in
    elim path [ err kind ↦ (err kind, w') | ok p ↦ connect_path w' p ]

-- A server answers with its process id.
unfoldable pub greets : Bytes → Bool
greets incoming = elim (recv_packet_blocking incoming) [
  | err _ ↦ false
  | ok (pkt, _) ↦ pkt.typ == msg_pid
]

unfoldable pub session_alive : PathEnv → World → Bytes → Bool × World
session_alive e w name =
    let (connected, w') = connect_session e w name in
    elim connected [ err _ ↦ (false, w') | ok incoming ↦ (greets incoming, w') ]

-- `str::trim_end`, on ASCII.
abbrev pub is_white : ℕ → Bool
is_white c = c == b' ' || leb 9 c && leb c 13

unfoldable pub trim_end : Bytes → Bytes
trim_end [] = []
trim_end (c ∷ cs) = let rest = trim_end cs in if is_empty rest && is_white c then [] else c ∷ rest

-- How the start of a session ends: well, with an error, or with the message of the server.
pub data Started : Type 0 where
  started : Started
  failed : IoError → Started
  refused : Bytes → Started

-- The loop of reads of `read_startup_status`, up to the end of the pipe.
unfoldable pub read_pipe : List ReadAnswer → Bytes → Result Bytes
read_pipe [] buf = ok buf
read_pipe (read_ok [] ∷ rs) buf = ok buf
read_pipe (read_ok (b ∷ bs) ∷ rs) buf = read_pipe rs (buf ++ b ∷ bs)
read_pipe (read_failed interrupted ∷ rs) buf = read_pipe rs buf
read_pipe (read_failed e ∷ rs) buf = err e

unfoldable pub read_startup_status : List ReadAnswer → Started
read_startup_status reads = elim (read_pipe reads []) [
  | err e ↦ failed e
  | ok buf ↦ if is_empty buf then started else refused (trim_end buf)
]

-- The socket of a session that is to start, with `greeting` what its server will send first.
unfoldable pub listen : Bytes → World → Bytes → Result (Unit {0}) × World
listen greeting w p =
    let above : Result (Unit {0}) × World = elim (parent p) [
      | none ↦ (ok tt, w)
      | some dir ↦ create_dir_all w dir
    ] in
    elim above.0 [
      | err kind ↦ (err kind, above.1)
      | ok _ ↦
          (let (bound, w') = bind (remove_file above.1 p).1 p greeting in
            elim bound [ err kind ↦ (err kind, w') | ok _ ↦ (ok tt, set_permissions w' p 0o600) ])
    ]

-- The listener is closed, and the socket stays.
unfoldable pub drop_listener : World → Bytes → World
drop_listener w p =
    let at_ = absolute w p in
    record w { kind = λ q. if eq_bytes q at_ then some (socket none) else w.kind q }

-- `pipe` or `fork` fails, or the server runs: what it does to the file system until it has reported,
-- and what the reads of the pipe give.
pub data Fork : Type 0 where
  pipe_failed fork_failed : Fork
  forked : (World → World) → List ReadAnswer → Fork

unfoldable pub await_server : Fork → World → Bytes → Started × World
await_server pipe_failed w p = (failed other, drop_listener w p)
await_server fork_failed w p = (failed other, drop_listener w p)
await_server (forked serve reads) w p = elim (read_startup_status reads) [
  | started ↦ (started, serve w)
  | failed e ↦ (failed e, (remove_file (serve w) p).1)
  | refused message ↦ (refused message, (remove_file (serve w) p).1)
]

-- `create_session` on the side of the process that calls it.
unfoldable pub create_session : PathEnv → Bytes → Fork → World → Bytes → Started × World
create_session e greeting fork w name =
    let (alive, w1) = session_alive e w name in
    let (path, w2) = socket_path e w1 name in
    if alive then (failed addr_in_use, w1) else elim path [
      | err kind ↦ (failed kind, w2)
      | ok p ↦
          (let (listening, w3) = listen greeting w2 p in
            elim listening [ err kind ↦ (failed kind, w3) | ok _ ↦ await_server fork w3 p ])
    ]

-- `forkpty`, and the error of `execvp` in the new process, if it has one.
pub data Forkpty : Type 0 where
  forkpty_failed : IoError → Forkpty
  child : Option IoError → Forkpty

-- What `run_server` and its child write to the pipe; `describe` is the text of an error.
unfoldable pub startup_report : (IoError → Bytes) → Bytes → Forkpty → Bytes
startup_report describe program (forkpty_failed e) =
    codes "server-forkpty: " ++ (describe e ++ b'\n' ∷ [])
startup_report describe program (child none) = []
startup_report describe program (child (some e)) =
    codes "server-execvp: " ++ (program ++ (codes ": " ++ (describe e ++ b'\n' ∷ [])))

-- An open file: its status flags, by their bits, and whether `fcntl` can read and set them.
pub record Descriptor : Type 0 where
  pub flags : ℕ → Bool
  pub readable : Bool
  pub settable : Bool

-- The bit `o_nonblock` stands for O_NONBLOCK.
unfoldable pub set_nonblocking : ℕ → Descriptor → Result (Unit {0}) × Descriptor
set_nonblocking o_nonblock fd =
    if not fd.readable || not fd.settable
    then (err other, fd)
    else (ok tt, record fd { flags = λ bit. fd.flags bit || bit == o_nonblock })

-- What the operating system gives to `run_server`, and where its loop has come to.
pub record Run : Type 0 where
  pub forkpty : Forkpty
  pub o_nonblock : ℕ
  pub listener : Descriptor
  pub master : Descriptor
  pub loop : Outcome

-- The listener, and then the pty.
unfoldable pub set_both_nonblocking : Run → Result (Unit {0})
set_both_nonblocking r = elim (set_nonblocking r.o_nonblock r.listener).0 [
  | err e ↦ err e
  | ok _ ↦ (set_nonblocking r.o_nonblock r.master).0
]

-- The result of `run_server`, if it has returned.
unfoldable pub run_server : Bytes → Run → World → Option (Result (Unit {0})) × World
run_server p r w = elim r.forkpty [
  | forkpty_failed e ↦ (some (err e), w)
  | child _ ↦
      (let w' = record w { cwd = codes "/" } in
        elim (set_both_nonblocking r) [
          | err e ↦ (some (err e), w')
          | ok _ ↦ elim r.loop [
            | running s ↦ (none, if is_none s.child_exit then w' else set_permissions w' p 0o610)
            | finished _ _ ↦ (some (ok tt), set_permissions w' p 0o610)
          ]
        ])
]

pub record SocketGuard : Type 0 where
  pub path : Bytes
  pub armed : Bool

-- `SocketGuard::new`
abbrev pub guard_of : Bytes → SocketGuard
guard_of path = record { path = path; armed = true }

-- The drop of the guard.
abbrev pub drop_guard : SocketGuard → World → World
drop_guard g w = if g.armed then (remove_file w g.path).1 else w

-- The server process behind the fork of `create_session`: its exit code, if it has ended. The guard
-- removes the socket before the process exits. The file of the log is no part of the world.
unfoldable pub server_process : Bytes → Run → World → Option ℕ × World
server_process p r w =
    let (result, w') = run_server p r w in
    elim result [
      | none ↦ (none, w')
      | some (ok _) ↦ (some 0, drop_guard (guard_of p) w')
      | some (err _) ↦ (some 1, drop_guard (guard_of p) w')
    ]
