-- ===== src/Main/Tests/Clients.antt =====
-- Runs of `real_main` of src/main.rs that dump a session or send keys to it.
use abduco_inline.Prelude.{◌≡◌, List, arith, would_block, refl, [], ◌∷◌, false, some}
use abduco_inline.Prelude.Bytes.{Bytes}
use abduco_inline.Prelude.Text.{codes}
use abduco_inline.Protocol.{packet_bytes}
use abduco_inline.Prelude.Decimal.{parse_uint, parse_digits}
use abduco_inline.History.{History, snapshot}
use abduco_inline.Stream.{read_ok, read_failed, wrote, write_loop, send_packet_blocking}
use abduco_inline.Server.Client.{
  flush_loop, try_flush_client, send_packet_nonblocking, chunks_loop, chunks, send_chunks,
  send_history,
}
use abduco_inline.Server.Client.Outbound.{committed}
use abduco_inline.Server.Packets
use abduco_inline.Server.Packets.{attach}
use abduco_inline.Dump.{dump_start, tail_line_start, scan_from, scan_back}
use abduco_inline.Dump.Chosen.{Chosen}
use abduco_inline.Main.Dumped.{main_dumps_history}
use abduco_inline.Cli.{default_opts, dump, parse_size}
use abduco_inline.Cli.{parse_args, parse_loop, parse_step, check_opts}
use abduco_inline.Server.Tick.{new_client, pid_packet}
use abduco_inline.Files.{World, socket}
use abduco_inline.Main.Program.{Machine, ended, main}
use abduco_inline.Main.Tests.{path, world_with, os, machine, terminal, connection}
use abduco_inline.Server.Client.{Client}
use abduco_inline.Server.Packets.{Pty}
use abduco_inline.Server.Packets.Rounds.Pieces.{read_rounds}
use abduco_inline.Cli.{send_keys}
use abduco_inline.Stream.{Stream}
use abduco_inline.Keys.{key_token_bytes, encode_key, encode_keys, send_all, send_keys_session}
use abduco_inline.Main.Sent.{main_sends_keys}
use abduco_inline.Prelude.{ℕ, take, drop}
use abduco_inline.Protocol.{recv_packet_blocking, read_exact}

-- A session whose server has handled a request for its output.
abbrev two_lines : History
two_lines = record { bytes = 97 ∷ 10 ∷ 98 ∷ 10 ∷ [] }

abbrev dumped : World
dumped = world_with (
    some (
      socket (
        some (
          committed (
            Packets.dump 0 (new_client (send_packet_blocking connection.stream (pid_packet os)).1)
              two_lines)))))

abbrev printer : Machine
printer = record machine {
  terminal = record terminal {
    stream = record { wire = []; writes = wrote 8 ∷ []; reads = [] };
    stdout = record { wire = []; writes = wrote 1 ∷ wrote 9 ∷ []; reads = [] };
  };
}

abbrev dump_args : List Bytes
dump_args = codes "-d" ∷ codes "-L" ∷ codes "1" ∷ path ∷ []

main_dumps_history_example :
    (printed : Bytes) × Chosen two_lines.bytes 0 1 printed
    × (main printer dump_args dumped ≡ ended 0 [] printed dumped)
unfolding parse_args parse_loop parse_step check_opts parse_size parse_uint parse_digits
    send_packet_blocking write_loop pid_packet packet_bytes snapshot Packets.dump send_history
    send_chunks chunks chunks_loop send_packet_nonblocking try_flush_client flush_loop dump_start
    tail_line_start scan_from scan_back
main_dumps_history_example =
    main_dumps_history os connection 0 two_lines printer dump_args
      (record default_opts { action = some dump; name = some path; max_lines = 1 }) dumped path refl
      refl refl refl refl (refl, refl) (omega arith, (tt, tt)) (omega arith) refl refl

abbrev key_args : List Bytes
key_args = codes "-K" ∷ path ∷ codes "ls" ∷ codes "Enter" ∷ []

abbrev greeting : Bytes
greeting = packet_bytes (pid_packet os)

abbrev writer : Stream
writer = record { wire = []; writes = wrote 5 ∷ wrote 100 ∷ []; reads = [] }

abbrev tokens : List Bytes
tokens = codes "ls" ∷ codes "Enter" ∷ []

abbrev sent : Bytes
sent = (send_keys_session writer greeting tokens false).1.wire

abbrev reader : Client
reader = new_client (record (connection.stream) {
  reads = read_ok (take 5 sent) ∷ read_failed would_block ∷ read_ok (drop 5 sent) ∷ read_ok [] ∷ [];
})

abbrev shell_pty : Pty
shell_pty = record { written = []; writes = wrote 4096 ∷ []; reads = []; calls = [] }

abbrev two_rounds : List (ℕ × History)
two_rounds = (0, record { bytes = [] }) ∷ (5, record { bytes = [] }) ∷ []

abbrev typist : Machine
typist = record machine { terminal = record terminal { stream = writer } }

main_sends_keys_example :
    (main typist key_args (world_with (some (socket (some greeting))))
      ≡ ended 0 [] [] (world_with (some (socket (some greeting)))))
    × ((read_rounds two_rounds reader shell_pty).1.written ≡ 108 ∷ 115 ∷ 13 ∷ [])
unfolding parse_args parse_loop parse_step check_opts send_keys_session recv_packet_blocking
    read_exact send_all send_packet_blocking write_loop pid_packet packet_bytes chunks chunks_loop
    encode_keys encode_key key_token_bytes
main_sends_keys_example =
    main_sends_keys typist key_args
      (record default_opts { action = some send_keys; name = some path; rest = tokens })
      (world_with (some (socket (some greeting)))) path greeting two_rounds reader shell_pty refl
      refl refl refl refl refl refl refl refl refl (omega arith) refl (omega arith) (omega arith)
