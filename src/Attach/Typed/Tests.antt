-- ===== src/Attach/Typed/Tests.antt =====
-- What is typed at a session of the attach client of src/main.rs arrives in two rounds.
use abduco_inline.Prelude.{
  ℕ, ◌≡◌, refl, List, [], ◌∷◌, take, drop, true, false, some, arith, would_block, interrupted,
}
use abduco_inline.Protocol.{packet_bytes}
use abduco_inline.History.{History}
use abduco_inline.Stream.{ReadAnswer, read_ok, read_failed, wrote, write_loop, send_packet_blocking}
use abduco_inline.Server.Client.{Client}
use abduco_inline.Server.Packets.{Pty}
use abduco_inline.Server.Packets.Rounds.Pieces.{read_rounds}
use abduco_inline.Cli.Task.{AttachOpts}
use abduco_inline.Attach.{
  Winsize, Wake, Terminal, ready, select_interrupted, client_loop, client_step, read_stdin,
  send_then,
}
use abduco_inline.Attach.Readonly.{terminal_of}
use abduco_inline.Prelude.{inl, none}
use abduco_inline.Protocol.{pop_packet, read_u32, while_packets}
use abduco_inline.History.{append, evict, new, snapshot}
use abduco_inline.Stream.{write_failed, read_loop}
use abduco_inline.Server.Client.{
  broadcast_content, broadcast_to, chunks, chunks_loop, flush_loop, send_chunks, send_history,
  send_packet_nonblocking, try_flush_client,
}
use abduco_inline.Server.Packets.{
  attach, dump, fd_write_all, handle_packet, handle_packets, resize, read_client_packets,
}
use abduco_inline.Server.Tick.{
  Server, Accepted, Round, start, server_loop, check_finished, tick, settle, read_packets, reap,
  read_output, accept_all, accept_one, pump, shutdown, read_all, close_drained, exit_packet,
  exit_status, flush_client, for_clients, queue_exit, queue_exits, retain_connected,
}
use abduco_inline.Server.Tick.Sound.{server_of}
use abduco_inline.Attach.Typed.Live.{typed_input_reaches_pty_in_loop}
use abduco_inline.Attach.Typed.Session.{typed_input_reaches_pty}
use abduco_inline.Server.Tick.{Os, new_client, pid_packet}
use abduco_inline.Protocol.{recv_packet_blocking, read_exact}
use abduco_inline.Prelude.Bytes.{Bytes}
use abduco_inline.Prelude.{replicate, inr}
use abduco_inline.Attach.{attach_session}

abbrev plain : AttachOpts
plain = record { flags = 0; quiet = false; passthrough = false; detach_key = 0x1c }

abbrev screen : Winsize
screen = record { rows = 24; cols = 80 }

abbrev linux : Os
linux = record {
  pid = 4711;
  wifexited = λ n. true;
  wexitstatus = λ n. 0;
  wifsignaled = λ n. false;
  wtermsig = λ n. 0;
}

-- The pid packet comes.
abbrev typist : Terminal
typist = record {
  stream = record { wire = []; writes = replicate 6 (wrote 4096); reads = [] };
  incoming = packet_bytes (pid_packet linux);
  stdout = record { wire = []; writes = []; reads = [] };
}

abbrev types : Bytes → Wake
types d = record { event = ready false (some (read_ok d)); winsize = screen }

-- `ls`, a change of the size, the end of the line, and the detach key.
abbrev wakes : List Wake
wakes =
    types (108 ∷ 115 ∷ [])
    ∷ record { event = select_interrupted true; winsize = screen }
    ∷ types (10 ∷ [])
    ∷ types (0x1c ∷ [])
    ∷ types (120 ∷ [])
    ∷ []

abbrev gone : Terminal
gone = terminal_of (attach_session plain screen true wakes typist)

-- The first piece ends within a header, and the connection ends with the second.
abbrev pieces : List ReadAnswer
pieces =
    read_ok (take 29 gone.stream.wire)
    ∷ read_failed would_block
    ∷ read_failed interrupted
    ∷ read_ok (drop 29 gone.stream.wire)
    ∷ read_ok []
    ∷ []

abbrev reader : Client
reader = new_client (record { wire = []; writes = []; reads = pieces })

abbrev shell : Pty
shell = record { written = []; writes = wrote 5000 ∷ wrote 4088 ∷ []; reads = []; calls = [] }

abbrev two_rounds : List (ℕ × History)
two_rounds = (0, record { bytes = [] }) ∷ (5, record { bytes = [] }) ∷ []

typed_input_reaches_pty_example :
    (read_rounds two_rounds reader shell).1.written ≡ 108 ∷ 115 ∷ 10 ∷ []
unfolding attach_session client_loop client_step read_stdin send_then send_packet_blocking
    write_loop packet_bytes pid_packet recv_packet_blocking read_exact
typed_input_reaches_pty_example =
    typed_input_reaches_pty plain screen true wakes typist gone two_rounds reader shell refl
      (omega arith) (omega arith) refl (inr refl) refl refl (omega arith) refl
      (omega arith, (omega arith, tt)) (omega arith)

-- The session goes on, and its stream comes in two rounds of the loop, with output in both.
abbrev going_on : List Wake
going_on = take 3 wakes

abbrev still_there : Terminal
still_there = terminal_of (attach_session plain screen true going_on typist)

abbrev peer : Accepted
peer = record {
  stream = record {
    wire = [];
    writes = wrote 16 ∷ wrote 9 ∷ write_failed would_block ∷ wrote 400 ∷ [];
    reads =
        read_ok (take 29 still_there.stream.wire)
        ∷ read_failed would_block
        ∷ read_ok (drop 29 still_there.stream.wire)
        ∷ [];
  };
  nonblocking = true;
}

abbrev first_round : Round
first_round = record {
  shutdown_requested = false;
  accepted = peer ∷ [];
  waited = none;
  packets_at = 10;
  exit_at = 10;
  drain_at = 10;
}

abbrev echoing : Pty
echoing = record shell {
  reads = read_ok (36 ∷ 32 ∷ []) ∷ read_failed would_block ∷ read_ok (108 ∷ 115 ∷ []) ∷ [];
}

abbrev after_both : Server
after_both = server_of (
    server_loop linux (first_round ∷ record first_round { accepted = [] } ∷ [])
      (start true echoing))

typed_input_reaches_pty_in_loop_example : after_both.pty.written ≡ 108 ∷ 115 ∷ 10 ∷ []
unfolding server_loop check_finished tick settle read_packets reap read_output accept_all accept_one
    pump shutdown read_all broadcast_content read_client_packets read_loop broadcast_to
    send_packet_blocking append evict snapshot packet_bytes pop_packet read_u32 while_packets chunks
    chunks_loop flush_loop send_chunks send_history send_packet_nonblocking try_flush_client attach
    dump fd_write_all handle_packet handle_packets resize close_drained exit_packet exit_status
    flush_client for_clients pid_packet queue_exit queue_exits retain_connected write_loop new
    attach_session client_loop client_step read_stdin send_then recv_packet_blocking read_exact
typed_input_reaches_pty_in_loop_example =
    typed_input_reaches_pty_in_loop plain screen true going_on typist still_there linux first_round
      (record first_round { accepted = [] } ∷ []) true echoing peer refl (omega arith) (omega arith)
      refl (inl refl) refl refl refl tt (omega arith) (omega arith, (omega arith, tt)) (omega arith)
      (refl, tt) (λ e. cc)
