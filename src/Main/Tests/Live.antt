-- ===== src/Main/Tests/Live.antt =====
-- A run of `real_main` of src/main.rs on a session whose server has gone through its loop.
use abduco_inline.Prelude.{
  ◌≡◌, refl, List, [], ◌∷◌, ◌++◌, replicate, All-replicate, true, false, none, some, would_block,
  arith,
}
use abduco_inline.Prelude.Bytes.{Bytes}
use abduco_inline.Prelude.Text.{codes}
use abduco_inline.Prelude.Decimal.{decimal, digits_loop}
use abduco_inline.Protocol.{packet_bytes, pop_packet, read_u32, while_packets}
use abduco_inline.History.{append, evict, new, snapshot}
use abduco_inline.Stream.{
  wrote, write_failed, read_ok, read_failed, read_loop, write_loop, send_packet_blocking,
}
use abduco_inline.Server.Client.{
  Client, broadcast_content, broadcast_to, chunks, chunks_loop, flush_loop, send_chunks,
  send_history, send_packet_nonblocking, try_flush_client,
}
use abduco_inline.Server.Client.Outbound.{committed}
use abduco_inline.Server.Packets.{
  Pty, attach, dump, fd_write_all, handle_packet, handle_packets, resize, read_client_packets,
}
use abduco_inline.Server.Packets.Delivery.{TakesAll}
use abduco_inline.Server.Tick.{
  Server, Accepted, Round, new_client, server_loop, check_finished, tick, settle, read_packets,
  reap, read_output, accept_all, accept_one, pump, shutdown, read_all, close_drained, exit_packet,
  exit_status, flush_client, for_clients, pid_packet, queue_exit, queue_exits, retain_connected,
}
use abduco_inline.Server.Tick.Told.{EndsIn}
use abduco_inline.Files.{World, socket}
use abduco_inline.Attach.{Wake, ready}
use abduco_inline.Attach.Exit.{FromSocket}
use abduco_inline.Attach.Whole.{framed}
use abduco_inline.Attach.Live.{after_rounds, output_until, told_exit}
use abduco_inline.Main.Program.{Machine, info, ended, main}
use abduco_inline.Main.Live.{main_shows_loop}
use abduco_inline.Main.Tests.{path, world_with, os, machine, terminal}
use abduco_inline.Tty.{enter}

abbrev shell_pty : Pty
shell_pty = record {
  written = [];
  writes = [];
  reads = read_ok (36 ∷ 32 ∷ []) ∷ read_failed would_block ∷ read_ok (111 ∷ 107 ∷ []) ∷ [];
  calls = [];
}

-- A peer that takes the pid packet and a little more, and asks to be attached.
abbrev peer : Accepted
peer = record {
  stream = record {
    wire = [];
    writes = wrote 16 ∷ wrote 3 ∷ write_failed would_block ∷ [];
    reads = read_ok (1 ∷ 0 ∷ 0 ∷ 0 ∷ 4 ∷ 0 ∷ 0 ∷ 0 ∷ 0 ∷ 0 ∷ 0 ∷ 0 ∷ []) ∷ [];
  };
  nonblocking = true;
}

abbrev first_round : Round
first_round = record {
  shutdown_requested = false;
  accepted = peer ∷ [];
  waited = none;
  packets_at = 10;
  exit_at = 10;
  drain_at = 10;
}

-- The child has exited.
abbrev last_round : Round
last_round = record first_round { accepted = []; waited = some 0 }

abbrev served : Server
served = after_rounds os (first_round ∷ []) last_round true shell_pty

abbrev first_client : List Client → Client
first_client [] = new_client (peer.stream)
first_client (c ∷ cs) = c

abbrev viewer : Client
viewer = first_client served.clients

abbrev viewer_at_exit : Client
viewer_at_exit = first_client (told_exit last_round served)

abbrev live : World
live = world_with (some (socket (some (committed viewer_at_exit ++ []))))

abbrev from_socket : Wake
from_socket = record { event = ready true none; winsize = record { rows = 24; cols = 80 } }

abbrev screen : Machine
screen = record machine {
  setting = record (machine.setting) { wakes = replicate 8 from_socket };
  terminal = record terminal {
    stream = record { wire = []; writes = wrote 100 ∷ wrote 100 ∷ []; reads = [] };
    stdout = record { wire = []; writes = replicate 8 (wrote 4096); reads = [] };
  };
}

main_shows_loop_example :
    (shown : Bytes) × EndsIn (output_until os (first_round ∷ []) last_round true shell_pty) shown
    × (main screen (codes "-a" ∷ path ∷ []) live
        ≡ ended 0
            (info path (codes "session terminated with exit status 0") ∷ [])
            (framed true shown)
            live)
unfolding server_loop check_finished tick settle read_packets reap read_output accept_all accept_one
    pump shutdown read_all broadcast_content read_client_packets read_loop broadcast_to
    send_packet_blocking append evict snapshot packet_bytes pop_packet read_u32 while_packets chunks
    chunks_loop flush_loop send_chunks send_history send_packet_nonblocking try_flush_client attach
    dump fd_write_all handle_packet handle_packets resize close_drained exit_packet exit_status
    flush_client for_clients pid_packet queue_exit queue_exits retain_connected write_loop new enter
    decimal digits_loop
main_shows_loop_example =
    main_shows_loop os (first_round ∷ []) last_round true shell_pty 0 viewer viewer_at_exit 0 []
      screen live path (((refl, refl), tt), tt) tt (omega arith, (tt, (omega arith, tt))) refl refl
      refl refl refl (omega arith) refl (omega arith) refl refl refl refl refl
      (All-replicate TakesAll 8 (wrote 4096) (omega arith)) (omega arith)
      (All-replicate FromSocket 8 from_socket refl) (omega arith)
