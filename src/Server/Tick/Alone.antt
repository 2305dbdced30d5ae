-- ===== src/Server/Tick/Alone.antt =====
-- What a client of `server_loop` in src/main.rs has sent, through the rounds of a loop that serves it
-- alone: the broadcasts, the flushes and the exit leave its receiving side as it is.
pub mod Loop
pub mod Whole
pub mod Start
use abduco_inline.Prelude.{
  ℕ, suc, ◌≤◌, ◌<◌, ◌≡◌, refl, sym, ap, ◌∙◌, subst, List, [], ◌∷◌, ◌++◌, length, Bool-cases, inl,
  inr, ◌⊎◌, true, false, Option, none, some, IoError, All, arith, Result, ok, err, if◌then◌else◌,
  is_empty,
}
use abduco_inline.Prelude.Bytes.{Bytes}
use abduco_inline.Protocol.{Packet}
use abduco_inline.Stream.{ReadAnswer, read_ok, read_failed}
use abduco_inline.Server.Client.{Client, send_packet_nonblocking, try_flush_client, broadcast_to}
use abduco_inline.Server.Client.Outbound.{
  Sends, send_packet_nonblocking-Send, try_flush_client-Sends,
}
use abduco_inline.Server.Client.Outbound.Replay.{broadcast_to-Replays, broadcast_to-detached}
use abduco_inline.Server.Packets.{Pty, read_client_packets}
use abduco_inline.Server.Packets.Delivery.{TakesAll, inputs}
use abduco_inline.Server.Packets.Rounds.{Handled}
use abduco_inline.Server.Packets.Rounds.Pieces.{
  Awaits, Advances, read_client_packets-Advances, then_later, room_left, nothing_left,
}
use abduco_inline.Server.Tick.{
  Os, Server, Round, shutdown, accept_all, pump, read_output, reap, read_packets, exit_packet,
  queue_exit, queue_exits, flush_client, close_drained, for_clients, retain_connected, settle, tick,
  Outcome, running, finished, check_finished, server_loop,
}
use abduco_inline.Server.Tick.Sound.{server_of}
use abduco_inline.Server.Tick.Output.{outputs, hear, clients-pump}

-- The receiving side of a client is as it was.
pub record Keeps (c c' : Client) : Type 0 where
  pub reads : c'.stream.reads ≡ c.stream.reads
  pub buf : c'.buf ≡ c.buf
  pub flags : c'.flags ≡ c.flags

pub trans-Keeps : (c d e : Client) → Keeps c d → Keeps d e → Keeps c e
trans-Keeps c d e k l = record {
  reads = l.reads ∙ k.reads;
  buf = l.buf ∙ k.buf;
  flags = l.flags ∙ k.flags;
}

Sends-Keeps : (ps : List Packet) (c d : Client) → Sends ps c d → Keeps c d
Sends-Keeps ps c d s = record { reads = s.reads; buf = s.buf; flags = s.flags }

broadcast_to-Keeps : (d : Bytes) (c : Client) → Keeps c (broadcast_to d c)
broadcast_to-Keeps d c = elim (Bool-cases c.attached) [
  | inl on ↦
      let s = (broadcast_to-Replays d c on).sends in
      record { reads = s.reads; buf = s.buf; flags = s.flags }
  | inr off ↦
      subst (Keeps c) (sym (broadcast_to-detached d c off))
        (record { reads = refl; buf = refl; flags = refl })
]

hear-Keeps : (ds : List Bytes) (c : Client) → Keeps c (hear ds c)
unfolding hear
hear-Keeps [] c = record { reads = refl; buf = refl; flags = refl }
hear-Keeps (d ∷ ds) c =
    trans-Keeps c (broadcast_to d c) (hear ds (broadcast_to d c)) (broadcast_to-Keeps d c)
      (hear-Keeps ds (broadcast_to d c))

pub queue_exit-Keeps : (now status : ℕ) (c : Client) → Keeps c (queue_exit now status c)
unfolding queue_exit
queue_exit-Keeps now status c =
    let s = (send_packet_nonblocking-Send c (exit_packet status)).sends in
    record {
      reads = ground (arith, s.reads);
      buf = ground (arith, s.buf);
      flags = ground (arith, s.flags);
    }

pub flush_client-Keeps : (c : Client) → Keeps c (flush_client c)
unfolding flush_client
flush_client-Keeps c =
    let s = try_flush_client-Sends c in
    record {
      reads = ground (arith, s.reads);
      buf = ground (arith, s.buf);
      flags = ground (arith, s.flags);
    }

pub close_drained-Keeps : (now : ℕ) (c : Client) → Keeps c (close_drained now c)
unfolding close_drained
close_drained-Keeps now c = record {
  reads = ground arith;
  buf = ground arith;
  flags = ground arith;
}

pub Awaits-Keeps :
    (n : ℕ) (ps : List Packet) (c d : Client) → Keeps c d → Awaits n ps c → Awaits n ps d
Awaits-Keeps n ps c d k a = record {
  bytes = ground (arith, k.reads, k.buf, a.bytes);
  intact = ground (arith, k.reads, a.intact);
  enough = ground (arith, k.reads, a.enough);
  writer = ground (arith, k.flags, a.writer);
  kinds = a.kinds;
  valid = a.valid;
}

-- The pty has been written to as before.
pub record IsUnwritten (pty pty' : Pty) : Type 0 where
  pub written : pty'.written ≡ pty.written
  pub writes : pty'.writes ≡ pty.writes

pump-IsUnwritten : (rs : List ReadAnswer) (s : Server) → IsUnwritten s.pty (pump rs s).pty
unfolding pump
pump-IsUnwritten [] s = record { written = refl; writes = refl }
pump-IsUnwritten (read_ok [] ∷ rs) s = record { written = refl; writes = refl }
pump-IsUnwritten (read_ok (b ∷ bs) ∷ rs) s = pump-IsUnwritten rs _
pump-IsUnwritten (read_failed IoError.interrupted ∷ rs) s = pump-IsUnwritten rs s
pump-IsUnwritten (read_failed e ∷ rs) s = record { written = refl; writes = refl }

-- A server that serves `c` alone, before and behind a part of a round.
pub record Alone (c : Client) (pty : Pty) (s : Server) : Type 0 where
  pub client : Client
  pub clients : s.clients ≡ client ∷ []
  pub keeps : Keeps c client
  pub unwritten : IsUnwritten pty s.pty

pub read_output-Alone :
    (c : Client) (s : Server) → s.clients ≡ c ∷ [] → Alone c s.pty (read_output s)
unfolding read_output for_clients
read_output-Alone c s e = elim (Bool-cases s.read_pty) [
  | inl on ↦ simp on (record {
    client = hear (outputs s.pty.reads) c;
    clients = clients-pump s.pty.reads s ∙ ap (for_clients (hear (outputs s.pty.reads))) e;
    keeps = hear-Keeps (outputs s.pty.reads) c;
    unwritten = pump-IsUnwritten s.pty.reads s;
  })
  | inr off ↦ simp off (record {
    client = c;
    clients = e;
    keeps = record { reads = refl; buf = refl; flags = refl };
    unwritten = record { written = refl; writes = refl };
  })
]

pub reap-Alone :
    (os : Os) (waited : Option ℕ) (c : Client) (pty : Pty) (s : Server)
    → Alone c pty s
    → Alone c pty (reap os waited s)
unfolding reap
reap-Alone os waited c pty s a = ground (arith, a)
