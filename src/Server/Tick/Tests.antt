-- ===== src/Server/Tick/Tests.antt =====
-- A run of `server_loop` of src/main.rs with a client that attaches.
use mathlib.Core.List.{map}
use abduco_inline.Prelude.Bytes.{Bytes}
use abduco_inline.Server.Client.Outbound.{committed}
use abduco_inline.Protocol.Loop.{encode_all}
use abduco_inline.Prelude.{
  All, length, ◌++◌, concat, arith, ◌≡◌, refl, List, [], ◌∷◌, true, false, none, take_last,
  would_block, some, ◌⊎◌, ◌≤◌, ℕ,
}
use abduco_inline.Protocol.{packet_bytes, max_payload, pop_packet, read_u32, while_packets}
use abduco_inline.History.{append, evict, new, snapshot, history_cap}
use abduco_inline.Stream.{
  wrote, write_failed, read_ok, read_failed, read_loop, write_loop, send_packet_blocking,
}
use abduco_inline.Server.Client.{
  Client, content, broadcast_content, broadcast_to, chunks, chunks_loop, flush_loop, send_chunks,
  send_history, send_packet_nonblocking, try_flush_client,
}
use abduco_inline.Server.Packets.{
  Pty, attach, dump, fd_write_all, handle_packet, handle_packets, resize, read_client_packets,
}
use abduco_inline.Server.Tick.{
  Os, Server, finished, Accepted, Round, new_client, start, server_loop, check_finished, tick,
  settle, read_packets, reap, read_output, accept_all, accept_one, pump, shutdown, read_all,
  close_drained, exit_packet, exit_status, flush_client, for_clients, pid_packet, queue_exit,
  queue_exits, retain_connected,
}
use abduco_inline.Server.Tick.Sound.{server_of}
use abduco_inline.Server.Tick.Output.{outputs}
use abduco_inline.Server.Tick.Signals.{terms}
use abduco_inline.Server.Tick.Shutdown.{terminated_at_most_once}
use abduco_inline.Server.Tick.Late.{late_output_is_lost}
use abduco_inline.Server.Tick.Told.{EndsIn}
use abduco_inline.Server.Tick.Rounds.{round_output, loop_output}
use abduco_inline.Server.Tick.Broadcast.{history_holds_output, clients_follow_output}

abbrev os : Os
os = record {
  pid = 815;
  wifexited = λ n. true;
  wexitstatus = λ n. 0;
  wifsignaled = λ n. false;
  wtermsig = λ n. 0;
}

-- Output comes in both rounds.
abbrev shell_pty : Pty
shell_pty = record {
  written = [];
  writes = [];
  reads = read_ok (36 ∷ 32 ∷ []) ∷ read_failed would_block ∷ read_ok (111 ∷ 107 ∷ []) ∷ [];
  calls = [];
}

-- A peer that takes the pid packet and a little more, and asks to be attached.
abbrev peer : Accepted
peer = record {
  stream = record {
    wire = [];
    writes = wrote 16 ∷ wrote 3 ∷ write_failed would_block ∷ wrote 100 ∷ [];
    reads = read_ok (1 ∷ 0 ∷ 0 ∷ 0 ∷ 4 ∷ 0 ∷ 0 ∷ 0 ∷ 0 ∷ 0 ∷ 0 ∷ 0 ∷ []) ∷ [];
  };
  nonblocking = true;
}

abbrev quiet_round : Round
quiet_round = record {
  shutdown_requested = false;
  accepted = [];
  waited = none;
  packets_at = 10;
  exit_at = 10;
  drain_at = 10;
}

-- The peer attaches in the first round.
abbrev two_rounds : List Round
two_rounds = record quiet_round { accepted = peer ∷ [] } ∷ quiet_round ∷ []

abbrev after_two : Server
after_two = server_of (server_loop os two_rounds (start true shell_pty))

abbrev first_client : List Client → Client
first_client [] = new_client (peer.stream)
first_client (c ∷ cs) = c

history_holds_output_example :
    snapshot after_two.history
    ≡ take_last history_cap (loop_output os two_rounds (start true shell_pty))
history_holds_output_example = history_holds_output os two_rounds true shell_pty

clients_follow_output_example :
    (pieces : List Bytes) × All (λ d. length d ≤ max_payload) pieces
    × (committed (first_client after_two.clients)
        ≡ packet_bytes (pid_packet os) ++ encode_all (map content pieces))
    × EndsIn (loop_output os two_rounds (start true shell_pty)) (concat pieces)
unfolding server_loop check_finished tick settle read_packets reap read_output accept_all accept_one
    pump shutdown read_all broadcast_content read_client_packets read_loop broadcast_to
    send_packet_blocking append evict snapshot packet_bytes pop_packet read_u32 while_packets chunks
    chunks_loop flush_loop send_chunks send_history send_packet_nonblocking try_flush_client attach
    dump fd_write_all handle_packet handle_packets resize close_drained exit_packet exit_status
    flush_client for_clients pid_packet queue_exit queue_exits retain_connected write_loop new
clients_follow_output_example =
    clients_follow_output os two_rounds true shell_pty 0 (first_client after_two.clients)
      (((refl, refl), tt), (tt, tt)) (omega arith, (tt, (omega arith, tt))) refl refl refl refl

output_of_two_rounds : loop_output os two_rounds (start true shell_pty) ≡ 36 ∷ 32 ∷ 111 ∷ 107 ∷ []
unfolding loop_output round_output outputs server_loop check_finished tick settle read_packets reap
    read_output accept_all accept_one pump shutdown read_all broadcast_content read_client_packets
    read_loop broadcast_to send_packet_blocking append evict snapshot packet_bytes pop_packet
    read_u32 while_packets chunks chunks_loop flush_loop send_chunks send_history
    send_packet_nonblocking try_flush_client attach dump fd_write_all handle_packet handle_packets
    resize close_drained exit_packet exit_status flush_client for_clients pid_packet queue_exit
    queue_exits retain_connected write_loop new
output_of_two_rounds = refl

-- An attached client, whose kernel takes all.
abbrev viewer : Client
viewer =
    record (new_client (record { wire = []; writes = wrote 100 ∷ wrote 100 ∷ []; reads = [] })) {
      attached = true;
    }

-- `ok` comes when the pty has been found empty.
abbrev busy : Server
busy = record (start true shell_pty) {
  clients = viewer ∷ [];
  pty = record shell_pty { reads = read_failed would_block ∷ read_ok (111 ∷ 107 ∷ []) ∷ [] };
}

abbrev exit_round : Round
exit_round = record quiet_round { waited = some 0 }

late_output_is_lost_example :
    (s' : Server) × (server_loop os (exit_round ∷ quiet_round ∷ []) busy ≡ finished 0 s')
    × (s'.clients ≡ [])
    × (snapshot s'.history ≡ snapshot busy.history)
    × (s'.pty.reads ≡ read_ok (111 ∷ 107 ∷ []) ∷ [])
unfolding server_loop check_finished tick settle read_packets reap read_output accept_all accept_one
    pump shutdown read_all broadcast_content read_client_packets read_loop broadcast_to
    send_packet_blocking append evict snapshot packet_bytes pop_packet read_u32 while_packets chunks
    chunks_loop flush_loop send_chunks send_history send_packet_nonblocking try_flush_client attach
    dump fd_write_all handle_packet handle_packets resize close_drained exit_packet exit_status
    flush_client for_clients pid_packet queue_exit queue_exits retain_connected write_loop new
late_output_is_lost_example =
    late_output_is_lost os exit_round (quiet_round ∷ []) busy 0 (read_ok (111 ∷ 107 ∷ []) ∷ []) refl
      refl refl refl refl refl refl

abbrev term_round : Round
term_round = record quiet_round { shutdown_requested = true }

terminated_at_most_once_example :
    let s = server_of (server_loop os (term_round ∷ []) (start true shell_pty)) in
    let s' = server_of (server_loop os (term_round ∷ quiet_round ∷ []) s) in
    ((s.child_exit ≡ none) × (terms s.pty.calls ≡ 0))
    ⊎ ((code : ℕ) × (s.child_exit ≡ some code)
        × (terms s.pty.calls ≤ 1)
        × (s'.child_exit ≡ some code)
        × (terms s'.pty.calls ≡ terms s.pty.calls))
terminated_at_most_once_example =
    terminated_at_most_once os (term_round ∷ []) (term_round ∷ quiet_round ∷ []) true shell_pty refl
