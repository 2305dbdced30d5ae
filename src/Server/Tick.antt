-- ===== src/Server/Tick.antt =====
-- src/main.rs: `exit_status`, and one round of the loop of `server_loop`. What the operating system
-- does in the round is data: `Round`. The sleep at its end and the log lines are left out.
pub mod Frames
pub mod Sound
pub mod Stamps
pub mod Exit
pub mod Ending
pub mod Returns
pub mod Output
pub mod Follower
pub mod Log
pub mod Follow
pub mod Held
pub mod Rounds
pub mod Broadcast
pub mod Told
pub mod Signals
pub mod Shutdown
pub mod Late
pub mod Apart
pub mod Alone
mod Tests
use abduco_inline.Prelude.{
  ℕ, ◌+◌, ◌-◌, ◌*◌, ◌^◌, List, [], ◌∷◌, ◌++◌, is_empty, leb, ◌==◌, if◌then◌else◌, Bool, true, false,
  not, ◌&&◌, ◌||◌, Option, none, some, is_none, ok, err, would_block, interrupted,
}
use abduco_inline.Prelude.Bytes.{Bytes, u32_to_ne_bytes, u64_to_ne_bytes}
use abduco_inline.Protocol.{Packet, msg_pid, msg_exit}
use abduco_inline.Stream.{Stream, ReadAnswer, read_ok, read_failed, send_packet_blocking}
use abduco_inline.History.{History}
use abduco_inline.History
use abduco_inline.Server.Client.{
  Client, send_packet_nonblocking, try_flush_client, broadcast_content,
}
use abduco_inline.Server.Packets.{Pty, term_group, read_client_packets}

-- The status macros of libc on the status word that `waitpid` gives, and the server's own pid.
pub record Os : Type 0 where
  pub pid : ℕ
  pub wifexited : ℕ → Bool
  pub wexitstatus : ℕ → ℕ
  pub wifsignaled : ℕ → Bool
  pub wtermsig : ℕ → ℕ

-- An i32 is its 32-bit pattern.
unfoldable pub exit_status : Os → ℕ → ℕ
exit_status os status =
    if os.wifexited status
    then os.wexitstatus status
    else if os.wifsignaled status
    then 128 + os.wtermsig status
    else status

abbrev pub sigterm : ℕ
sigterm = 15

abbrev pub exit_drain_deadline : ℕ
exit_drain_deadline = 5000

-- `socket_mode` is the permission bits of the socket file.
pub record Server : Type 0 where
  pub clients : List Client
  pub history : History
  pub child_exit : Option ℕ
  pub read_pty : Bool
  pub pty : Pty
  pub socket_mode : ℕ

-- A connection that `accept` gives, and whether it could be made non-blocking.
pub record Accepted : Type 0 where
  pub stream : Stream
  pub nonblocking : Bool

-- What happens to the server in one round: whether a signal asked for a shutdown, the connections
-- until `accept` gives an error, the status that `waitpid` finds, and the instants read while the
-- packets are handled, when the exit is queued, and when the queues have been flushed.
pub record Round : Type 0 where
  pub shutdown_requested : Bool
  pub accepted : List Accepted
  pub waited : Option ℕ
  pub packets_at : ℕ
  pub exit_at : ℕ
  pub drain_at : ℕ

unfoldable pub shutdown : Bool → Server → Server
shutdown requested s =
    if requested && is_none s.child_exit
    then record s {
      pty = record (s.pty) { calls = s.pty.calls ++ term_group ∷ [] };
      child_exit = some (128 + sigterm);
      socket_mode = 0o610;
    }
    else s

abbrev pub new_client : Stream → Client
new_client stream = record {
  stream = stream;
  buf = [];
  attached = false;
  flags = 0;
  disconnected = false;
  send_queue = [];
  close_after_drain = none;
}

unfoldable pub pid_packet : Os → Packet
pid_packet os = record { typ = msg_pid; payload = u64_to_ne_bytes os.pid }

-- The result of the blocking send is not looked at.
unfoldable pub accept_one : Os → Server → Accepted → Server
accept_one os s a =
    let stream = (send_packet_blocking a.stream (pid_packet os)).1 in
    if a.nonblocking
    then record s { clients = s.clients ++ new_client stream ∷ []; read_pty = true }
    else s

unfoldable pub accept_all : Os → Server → List Accepted → Server
accept_all os s [] = s
accept_all os s (a ∷ more) = accept_all os (accept_one os s a) more

-- The loop of reads of the pty.
unfoldable pub pump : List ReadAnswer → Server → Server
pump [] s = record s { pty = record (s.pty) { reads = [] } }
pump (read_ok [] ∷ rs) s = record s { pty = record (s.pty) { reads = rs }; read_pty = false }
pump (read_ok (b ∷ bs) ∷ rs) s = pump rs (record s {
  history = History.append s.history (b ∷ bs);
  clients = broadcast_content s.clients (b ∷ bs);
})
pump (read_failed would_block ∷ rs) s = record s { pty = record (s.pty) { reads = rs } }
pump (read_failed interrupted ∷ rs) s = pump rs s
pump (read_failed e ∷ rs) s = record s { pty = record (s.pty) { reads = rs }; read_pty = false }

unfoldable pub read_output : Server → Server
read_output s = if s.read_pty then pump s.pty.reads s else s

unfoldable pub reap : Os → Option ℕ → Server → Server
reap os waited s =
    if is_none s.child_exit
    then elim waited [
      | none ↦ s
      | some status ↦ record s { child_exit = some (exit_status os status); socket_mode = 0o610 }
    ]
    else s

unfoldable pub read_all : ℕ → History → List Client → Pty → List Client × Pty
read_all now h [] pty = ([], pty)
read_all now h (c ∷ cs) pty =
    let (c', pty') = read_client_packets now h c pty in
    let (cs', pty'') = read_all now h cs pty' in (c' ∷ cs', pty'')

unfoldable pub read_packets : ℕ → Server → Server
read_packets now s =
    let (clients, pty) = read_all now s.history s.clients s.pty in
    record s { clients = clients; pty = pty }

unfoldable pub exit_packet : ℕ → Packet
exit_packet status = record { typ = msg_exit; payload = u32_to_ne_bytes status }

unfoldable pub queue_exit : ℕ → ℕ → Client → Client
queue_exit now status c =
    if c.disconnected || not (is_none c.close_after_drain)
    then c
    else record ((send_packet_nonblocking c (exit_packet status)).1) {
      close_after_drain = some now;
    }

unfoldable pub flush_client : Client → Client
flush_client c =
    if c.disconnected
    then c
    else (let (flushed, c') = try_flush_client c in
        elim flushed [ ok _ ↦ c' | err _ ↦ record c' { disconnected = true } ])

-- `duration_since` is 0 where the earlier instant is the later one.
unfoldable pub close_drained : ℕ → Client → Client
close_drained now c = if c.disconnected then c else elim c.close_after_drain [
  | none ↦ c
  | some t ↦
      if is_empty c.send_queue || leb exit_drain_deadline (now - t)
      then record c { disconnected = true }
      else c
]

-- `for client in &mut clients { … }`
unfoldable pub for_clients : (Client → Client) → List Client → List Client
for_clients f [] = []
for_clients f (c ∷ cs) = f c ∷ for_clients f cs

-- `clients.retain(|c| !c.disconnected)`
unfoldable pub retain_connected : List Client → List Client
retain_connected [] = []
retain_connected (c ∷ cs) =
    let rest = retain_connected cs in if c.disconnected then rest else c ∷ rest

unfoldable pub queue_exits : ℕ → Option ℕ → List Client → List Client
queue_exits now none cs = cs
queue_exits now (some status) cs = for_clients (queue_exit now status) cs

unfoldable pub settle : Round → Server → Server
settle r s = record s {
  clients = retain_connected (
      for_clients (close_drained r.drain_at)
        (for_clients flush_client (queue_exits r.exit_at s.child_exit s.clients)));
}

unfoldable pub tick : Os → Round → Server → Server
tick os r s =
    let s1 = shutdown r.shutdown_requested s in
    let s2 = accept_all os s1 r.accepted in
    let s3 = read_output s2 in
    let s4 = reap os r.waited s3 in let s5 = read_packets r.packets_at s4 in settle r s5

-- The loop returns `Ok(())` with the clients gone after the child's exit.
pub data Outcome : Type 0 where
  running : Server → Outcome
  finished : ℕ → Server → Outcome

unfoldable pub check_finished : Server → Outcome
check_finished s = elim s.child_exit [
  | none ↦ running s
  | some code ↦ if is_empty s.clients then finished code s else running s
]

-- The loop over the rounds of one life of the server.
unfoldable pub server_loop : Os → List Round → Server → Outcome
server_loop os [] s = running s
server_loop os (r ∷ rs) s =
    let s' = tick os r s in
    elim (check_finished s') [ running t ↦ server_loop os rs t | finished code t ↦ finished code t ]

-- What `server_loop` starts from, with the pty that `forkpty` made.
abbrev pub start : Bool → Pty → Server
start read_pty pty = record {
  clients = [];
  history = History.new;
  child_exit = none;
  read_pty = read_pty;
  pty = pty;
  socket_mode = 0o600;
}
