-- ===== src/Server/Tick/Sound.antt =====
-- The rounds of `server_loop` in src/main.rs, seen from the clients' outbound streams.
use abduco_inline.Prelude.{
  ℕ, ◌≡◌, refl, sym, ap, ◌∙◌, subst, List, [], ◌∷◌, ◌++◌, append-nil, Bool, arith, All, All-append,
  Option, none, some, ok, IoError, Bool-cases, inl, inr,
}
use abduco_inline.Prelude.Bytes.{Bytes}
use abduco_inline.Protocol.{packet_bytes}
use abduco_inline.Protocol.Framing.{IsPacket}
use abduco_inline.Stream.{ReadAnswer, read_ok, read_failed, send_packet_blocking}
use abduco_inline.Stream.Writing.{write_loop-Wrote}
use abduco_inline.Server.Client.{Client}
use abduco_inline.Server.Client.Outbound.{committed}
use abduco_inline.Server.Packets.{Pty, read_client_packets}
use abduco_inline.Server.Packets.Input.{reads-read_client_packets}
use abduco_inline.History.{History}
use abduco_inline.Server.Tick.{
  Os, Server, Accepted, Round, shutdown, new_client, pid_packet, accept_one, accept_all, pump,
  read_output, reap, read_all, read_packets, queue_exit, flush_client, close_drained, queue_exits,
  settle, tick, Outcome, running, finished, check_finished, server_loop, start,
}
use abduco_inline.Server.Tick.Frames.{
  IsSound, FitsPacket, broadcast_content-IsSound, for_clients-IsSound, queue_exit-Emits,
  flush_client-Emits, close_drained-Emits, retain_connected-IsSound, read_all-IsSound,
}

-- A new connection has nothing on its wire, and takes the packet with the server's pid.
abbrev pub IsFresh : Os → Accepted → Type 0
IsFresh os a = (a.stream.wire ≡ []) × ((send_packet_blocking a.stream (pid_packet os)).0 ≡ ok tt)

pub pid_packet-IsPacket : (os : Os) → IsPacket (pid_packet os)
unfolding pid_packet
pid_packet-IsPacket os = omega arith

-- What a new connection has been sent is the pid packet.
pub new_client-committed :
    (os : Os) (a : Accepted)
    → IsFresh os a
    → committed (new_client (send_packet_blocking a.stream (pid_packet os)).1)
      ≡ packet_bytes (pid_packet os)
unfolding send_packet_blocking
new_client-committed os a (fresh, sent) =
    let w = write_loop-Wrote a.stream.writes (packet_bytes (pid_packet os)) a.stream.wire in
    append-nil _
    ∙ w.taken
    ∙ ap (λ (b : Bytes). b ++ w.sent) fresh
    ∙ sym (append-nil w.sent)
    ∙ ap (◌++◌ w.sent) (sym (w.complete sent))
    ∙ w.parts

new_client-IsSound :
    (os : Os) (a : Accepted)
    → IsFresh os a
    → IsSound (new_client (send_packet_blocking a.stream (pid_packet os)).1)
new_client-IsSound os a fresh = record {
  packets = pid_packet os ∷ [];
  valid = (pid_packet-IsPacket os, tt);
  framed = new_client-committed os a fresh ∙ sym (append-nil (packet_bytes (pid_packet os)));
  bounded = omega arith;
}

-- What every part of a round keeps: sound clients, and a pty whose answers fit a packet.
pub record IsSafe (s : Server) : Type 0 where
  pub clients : All IsSound s.clients
  pub output : All FitsPacket s.pty.reads

shutdown-IsSafe : (requested : Bool) (s : Server) → IsSafe s → IsSafe (shutdown requested s)
unfolding shutdown
shutdown-IsSafe requested s v = ground arith

accept_one-IsSafe :
    (os : Os) (s : Server) (a : Accepted) → IsFresh os a → IsSafe s → IsSafe (accept_one os s a)
unfolding accept_one
accept_one-IsSafe os s a f v = elim (Bool-cases a.nonblocking) [
  | inl e ↦ simp e (record {
    clients = All-append IsSound s.clients _ v.clients (new_client-IsSound os a f, tt);
    output = v.output;
  })
  | inr e ↦ simp e v
]

accept_all-IsSafe :
    (os : Os) (s : Server) (more : List Accepted)
    → All (IsFresh os) more
    → IsSafe s
    → IsSafe (accept_all os s more)
unfolding accept_all
accept_all-IsSafe os s [] f v = v
accept_all-IsSafe os s (a ∷ more) (f, fs) v =
    accept_all-IsSafe os (accept_one os s a) more fs (accept_one-IsSafe os s a f v)

pump-IsSafe :
    (rs : List ReadAnswer) (s : Server)
    → All FitsPacket rs
    → All IsSound s.clients
    → IsSafe (pump rs s)
unfolding pump
pump-IsSafe [] s fits v = record { clients = v; output = tt }
pump-IsSafe (read_ok [] ∷ rs) s (f, fits) v = record { clients = v; output = fits }
pump-IsSafe (read_ok (b ∷ bs) ∷ rs) s (f, fits) v =
    pump-IsSafe rs _ fits (broadcast_content-IsSound s.clients (b ∷ bs) f v)
pump-IsSafe (read_failed IoError.would_block ∷ rs) s (f, fits) v = record {
  clients = v;
  output = fits;
}
pump-IsSafe (read_failed IoError.interrupted ∷ rs) s (f, fits) v = pump-IsSafe rs s fits v
pump-IsSafe (read_failed e ∷ rs) s (f, fits) v = record { clients = v; output = fits }

read_output-IsSafe : (s : Server) → IsSafe s → IsSafe (read_output s)
unfolding read_output
read_output-IsSafe s v = ground (arith, pump-IsSafe s.pty.reads s v.output v.clients)

reap-IsSafe : (os : Os) (waited : Option ℕ) (s : Server) → IsSafe s → IsSafe (reap os waited s)
unfolding reap
reap-IsSafe os waited s v = ground arith

queue_exits-IsSound :
    (now : ℕ) (child_exit : Option ℕ) (cs : List Client)
    → All IsSound cs
    → All IsSound (queue_exits now child_exit cs)
unfolding queue_exits
queue_exits-IsSound now none cs v = v
queue_exits-IsSound now (some status) cs v =
    for_clients-IsSound (queue_exit now status) cs (queue_exit-Emits now status) v

settle-IsSafe : (r : Round) (s : Server) → IsSafe s → IsSafe (settle r s)
unfolding settle
settle-IsSafe r s v = record {
  clients = retain_connected-IsSound _ (
      for_clients-IsSound (close_drained r.drain_at) _ (close_drained-Emits r.drain_at) (
        for_clients-IsSound flush_client _ flush_client-Emits
          (queue_exits-IsSound r.exit_at s.child_exit s.clients v.clients)));
  output = v.output;
}

pub reads-read_all :
    (now : ℕ) (h : History) (cs : List Client) (pty : Pty)
    → (read_all now h cs pty).1.reads ≡ pty.reads
unfolding read_all
reads-read_all now h [] pty = refl
reads-read_all now h (c ∷ cs) pty =
    reads-read_all now h cs (read_client_packets now h c pty).1
    ∙ reads-read_client_packets now h c pty

read_packets-IsSafe : (now : ℕ) (s : Server) → IsSafe s → IsSafe (read_packets now s)
unfolding read_packets
read_packets-IsSafe now s v = record {
  clients = read_all-IsSound now s.history s.clients s.pty v.clients;
  output = subst (All FitsPacket) (sym (reads-read_all now s.history s.clients s.pty)) v.output;
}

-- A round keeps every client's stream a sequence of whole packets within the bound of its queue,
-- whatever the clients send and however the kernel cuts the writes, where the new connections take
-- the pid packet and the pty is read in pieces of MAX_PAYLOAD at most.
pub tick-IsSafe :
    (os : Os) (r : Round) (s : Server)
    → All (IsFresh os) r.accepted
    → IsSafe s
    → IsSafe (tick os r s)
unfolding tick
tick-IsSafe os r s f v = settle-IsSafe r _ (
    read_packets-IsSafe r.packets_at _ (
      reap-IsSafe os r.waited _ (
        read_output-IsSafe _
          (accept_all-IsSafe os _ r.accepted f (shutdown-IsSafe r.shutdown_requested s v)))))

-- The server that an outcome holds.
abbrev pub server_of : Outcome → Server
server_of (running s) = s
server_of (finished code s) = s

pub server_of-check_finished : (s : Server) → server_of (check_finished s) ≡ s
unfolding check_finished
server_of-check_finished s = ground arith

loop_step-IsSafe :
    (os : Os) (rs : List Round) (o : Outcome)
    → IsSafe (server_of o)
    → ((s : Server) → IsSafe s → IsSafe (server_of (server_loop os rs s)))
    → let next : Outcome = elim o [
      | running t ↦ server_loop os rs t
      | finished code t ↦ finished code t
    ] in
      IsSafe (server_of next)
loop_step-IsSafe os rs (running t) v later = later t v
loop_step-IsSafe os rs (finished code t) v later = v

server_loop-IsSafe :
    (os : Os) (rs : List Round) (s : Server)
    → All (λ r. All (IsFresh os) r.accepted) rs
    → IsSafe s
    → IsSafe (server_of (server_loop os rs s))
unfolding server_loop
server_loop-IsSafe os [] s f v = v
server_loop-IsSafe os (r ∷ rs) s (f, fs) v =
    loop_step-IsSafe os rs (check_finished (tick os r s))
      (subst IsSafe (sym (server_of-check_finished (tick os r s))) (tick-IsSafe os r s f v))
      (λ t w. server_loop-IsSafe os rs t fs w)

-- From its start on, through any rounds, the server's stream to every client is a sequence of whole
-- packets and its queues are within SEND_QUEUE_CAP, where the new connections take the pid packet
-- and the pty is read in pieces of MAX_PAYLOAD at most.
pub server_loop-start-IsSafe :
    (os : Os) (rs : List Round) (read_pty : Bool) (pty : Pty)
    → All (λ r. All (IsFresh os) r.accepted) rs
    → All FitsPacket pty.reads
    → IsSafe (server_of (server_loop os rs (start read_pty pty)))
server_loop-start-IsSafe os rs read_pty pty f fits =
    server_loop-IsSafe os rs (start read_pty pty) f (record { clients = tt; output = fits })
