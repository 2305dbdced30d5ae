-- ===== src/Server/Tick/Apart/Tests.antt =====
-- A run of `server_loop` of src/main.rs with a client that sends nothing and takes nothing.
use abduco_inline.Prelude.{refl, [], ◌∷◌, true, false, none, some, would_block}
use abduco_inline.Stream.{wrote, write_failed, read_ok, read_failed}
use abduco_inline.Server.Client.{Client}
use abduco_inline.Server.Packets.{Pty}
use abduco_inline.Server.Tick.{Os, Server, Round, new_client, start, server_loop}
use abduco_inline.Server.Tick.Apart.{keep, skip, none_left}
use abduco_inline.Server.Tick.Apart.Loop.{Beside, silent_clients_change_nothing}

abbrev os : Os
os = record {
  pid = 815;
  wifexited = λ n. true;
  wexitstatus = λ n. 0;
  wifsignaled = λ n. false;
  wtermsig = λ n. 0;
}

-- A client that types `ls`, and one whose connection would block each time.
abbrev typist : Client
typist =
    record (new_client (record {
      wire = [];
      writes = wrote 100 ∷ [];
      reads = read_ok (0 ∷ 0 ∷ 0 ∷ 0 ∷ 2 ∷ 0 ∷ 0 ∷ 0 ∷ 108 ∷ 115 ∷ []) ∷ [];
    })) { attached = true }

abbrev deaf : Client
deaf =
    record (new_client (record {
      wire = [];
      writes = write_failed would_block ∷ [];
      reads = read_failed would_block ∷ [];
    })) { attached = true }

abbrev shell : Pty
shell = record {
  written = [];
  writes = wrote 4096 ∷ [];
  reads = read_ok (36 ∷ 32 ∷ []) ∷ read_failed would_block ∷ [];
  calls = [];
}

abbrev host : Server
host = record (start true shell) { clients = deaf ∷ typist ∷ [] }

abbrev exit_round : Round
exit_round = record {
  shutdown_requested = false;
  accepted = [];
  waited = some 0;
  packets_at = 10;
  exit_at = 10;
  drain_at = 10;
}

silent_clients_change_nothing_example :
    Beside (server_loop os (record exit_round { waited = none } ∷ exit_round ∷ []) host) (
      server_loop os
        (record exit_round { waited = none } ∷ exit_round ∷ [])
        (record host { clients = typist ∷ [] }))
silent_clients_change_nothing_example =
    silent_clients_change_nothing os (record exit_round { waited = none } ∷ exit_round ∷ []) host
      (typist ∷ []) (skip deaf (refl, (tt, tt)) (keep typist none_left))
