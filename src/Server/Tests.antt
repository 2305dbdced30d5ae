-- ===== src/Server/Tests.antt =====
-- Runs of the server of src/main.rs.
use abduco_inline.Prelude.{
  ℕ, ◌/◌, ◌%◌, ◌≡◌, ◌==◌, refl, [], ◌∷◌, ◌++◌, take, true, false, not, none, some, would_block,
  arith,
}
use abduco_inline.Protocol.{Packet, packet_bytes}
use abduco_inline.Protocol.Loop.{encode_all}
use abduco_inline.Stream.{
  wrote, write_failed, read_ok, read_failed, write_loop, send_packet_blocking,
}
use abduco_inline.History.{History}
use abduco_inline.Server.Client.{Client}
use abduco_inline.Server.Packets.{Pty, attach, handle_packet, handle_packets}
use abduco_inline.Server.Packets.Readonly.{attach_packet, readonly_client_writes_nothing}
use abduco_inline.Server.Packets.Delivery.{input_is_cut_short}
use abduco_inline.Server.Tick.{
  Os, Server, Accepted, Round, new_client, pid_packet, start, server_loop,
}
use abduco_inline.Server.Tick.Sound.{IsSafe, server_of, server_loop-start-IsSafe}
use abduco_inline.Server.Tick.Returns.{Finishes, server_loop_returns}

-- The status word as on Linux.
abbrev linux : Os
linux = record {
  pid = 4711;
  wifexited = λ status. status % 128 == 0;
  wexitstatus = λ status. status / 256 % 256;
  wifsignaled = λ status. not (status % 128 == 0);
  wtermsig = λ status. status % 128;
}

abbrev bash_pty : Pty
bash_pty = record {
  written = [];
  writes = wrote 4096 ∷ wrote 4096 ∷ [];
  reads = read_ok (36 ∷ 32 ∷ []) ∷ read_failed would_block ∷ read_ok (111 ∷ 107 ∷ []) ∷ [];
  calls = [];
}

-- A peer that takes the pid packet and a little more, and asks to be attached.
abbrev peer : Accepted
peer = record {
  stream = record {
    wire = [];
    writes = wrote 16 ∷ wrote 3 ∷ write_failed would_block ∷ wrote 100 ∷ [];
    reads = read_ok (1 ∷ 0 ∷ 0 ∷ 0 ∷ 4 ∷ 0 ∷ 0 ∷ 0 ∷ 0 ∷ 0 ∷ 0 ∷ 0 ∷ []) ∷ [];
  };
  nonblocking = true;
}

abbrev quiet_round : ℕ → Round
quiet_round now = record {
  shutdown_requested = false;
  accepted = [];
  waited = none;
  packets_at = now;
  exit_at = now;
  drain_at = now;
}

abbrev first_round : Round
first_round = record (quiet_round 0) { accepted = peer ∷ [] }

abbrev exit_round : Round
exit_round = record (quiet_round 5) { waited = some 256 }

server_loop-start-IsSafe_example : IsSafe (
    server_of
      (server_loop linux (first_round ∷ exit_round ∷ quiet_round 10 ∷ []) (start true bash_pty)))
unfolding send_packet_blocking write_loop pid_packet packet_bytes
server_loop-start-IsSafe_example =
    server_loop-start-IsSafe linux (first_round ∷ exit_round ∷ quiet_round 10 ∷ []) true bash_pty
      (((refl, refl), tt), (tt, (tt, tt))) (omega arith, (tt, (omega arith, tt)))

-- A client that asks to be attached, and one whose kernel takes nothing.
abbrev guest : Client
guest = new_client (record { wire = []; writes = wrote 5 ∷ []; reads = [] })

abbrev stuck : Client
stuck = record guest {
  stream = record { wire = []; writes = []; reads = [] };
  attached = true;
  send_queue = 7 ∷ [];
}

abbrev prompt : History
prompt = record { bytes = 36 ∷ 32 ∷ [] }

abbrev host : Server
host = record (start true bash_pty) {
  history = prompt;
  clients = stuck ∷ attach guest prompt [] ∷ [];
}

-- The child has exited with code 3; one client never reads.
abbrev deaf : Server
deaf = record host { child_exit = some 3; clients = stuck ∷ [] }

server_loop_returns_example :
    Finishes 3
      (server_loop linux (quiet_round 1000 ∷ (quiet_round 2000 ∷ []) ++ quiet_round 6000 ∷ []) deaf)
server_loop_returns_example =
    server_loop_returns linux 1000 3 (quiet_round 1000) (quiet_round 6000) (quiet_round 2000 ∷ [])
      [] deaf refl (tt, tt) (refl, (refl, tt)) refl (omega arith) (omega arith) (omega arith)

abbrev typed : Packet
typed = record { typ = 0; payload = 108 ∷ 115 ∷ 10 ∷ [] }

readonly_client_writes_nothing_example :
    let c = record guest { buf = encode_all (attach_packet 1 ∷ typed ∷ []) } in
    let pty' = (handle_packets 0 prompt c bash_pty).1 in
    (pty'.written ≡ bash_pty.written) × (pty'.writes ≡ bash_pty.writes)
readonly_client_writes_nothing_example =
    readonly_client_writes_nothing 0 prompt
      (record guest { buf = encode_all (attach_packet 1 ∷ typed ∷ []) }) bash_pty 1 (typed ∷ [])
      refl (omega arith, tt) (omega arith, tt) (omega arith) refl

abbrev full_pty : Pty
full_pty = record bash_pty { writes = wrote 2 ∷ write_failed would_block ∷ [] }

input_is_cut_short_example :
    handle_packet 0 prompt (guest, full_pty) typed
    ≡ (guest, record full_pty { written = full_pty.written ++ take 2 typed.payload; writes = [] })
input_is_cut_short_example =
    input_is_cut_short 0 prompt guest full_pty typed 2 [] refl refl (omega arith) (omega arith) refl
