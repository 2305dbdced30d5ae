-- ===== src/Server/Tick/Follow.antt =====
-- What follows the output of the pty in `server_loop` of src/main.rs: the parts of a round on one client.
use abduco_inline.Prelude.{
  inl, inr, Option-cases, ℕ, ◌≡◌, refl, ◌∙◌, append-nil, length, take_last, true, some, arith,
}
use abduco_inline.Prelude.Bytes.{Bytes}
use abduco_inline.Protocol.{Packet, while_packets}
use abduco_inline.Protocol.Loop.{while_packets-keeps}
use abduco_inline.History.{History, snapshot, history_cap}
use abduco_inline.Stream.{ReadEnd, blocked, saw_eof, broken, read_loop}
use abduco_inline.Server.Client.{Client, send_packet_nonblocking, try_flush_client}
use abduco_inline.Server.Client.Outbound.{committed, try_flush_client-Sends}
use abduco_inline.Server.Packets.{
  Pty, attach, dump, handle_packet, handle_packets, read_client_packets,
}
use abduco_inline.Server.Tick.{Os, Accepted, exit_packet, flush_client, close_drained, queue_exit}
use abduco_inline.Server.Tick.Stamps.{close-dump}
use abduco_inline.Server.Tick.Follower.{Same, Follower}

-- What holds behind each arm of the match holds behind a packet.
handle_packet-arms :
    (P : Client → Type 0) (now : ℕ) (h : History) (c : Client) (pty : Pty) (pkt : Packet)
    → P c
    → P (attach c h pkt.payload)
    → P (dump now c h)
    → P (record c { disconnected = true })
    → P (handle_packet now h (c, pty) pkt).0
unfolding handle_packet
handle_packet-arms P now h c pty pkt same attached dumped gone =
    ground (arith, same, attached, dumped, gone)

queue_exit-arms :
    (P : Client → Type 0) (now status : ℕ) (c : Client)
    → P c
    → P (record ((send_packet_nonblocking c (exit_packet status)).1) {
      close_after_drain = some now;
    })
    → P (queue_exit now status c)
unfolding queue_exit
queue_exit-arms P now status c same closing = ground (arith, same, closing)

-- Through the parts of a round, with the output `out` read so far.
module _ {os : Os} {Comes : Accepted → Type 0} {Fits : Bytes → Type 0} {P : Bytes → Client → Type 0}
    (f : Follower os Comes Fits P) (out : Bytes) where
  gone-Follows : (c : Client) → P out (record c { disconnected = true })
  gone-Follows c = f.gone out (record c { disconnected = true }) refl

  dump-Follows : (now : ℕ) (c : Client) (h : History) → P out (dump now c h)
  dump-Follows now c h = elim (Option-cases (dump now c h).close_after_drain) [
    | inl e ↦ absurd (ground (arith, close-dump now c h, e))
    | inr (t, e) ↦ f.closing out (dump now c h) t e
  ]

  handle_packets-Follows :
      (now : ℕ) (h : History) (c : Client) (pty : Pty)
      → snapshot h ≡ take_last history_cap out
      → P out c
      → P out (handle_packets now h c pty).0
  unfolding handle_packets
  handle_packets-Follows now h c pty e v =
      let packet : (s : Client × Pty) (pkt : Packet)
          → P out s.0
          → P out (handle_packet now h s pkt).0 =
        λ s pkt w.
          handle_packet-arms (P out) now h s.0 s.1 pkt w (f.attached out s.0 h pkt.payload e w)
            (dump-Follows now s.0 h) (gone-Follows s.0) in
      let all : P out (while_packets (length c.buf) (handle_packet now h) (c, pty) c.buf).0.0 =
        while_packets-keeps (handle_packet now h) (λ (s : Client × Pty). P out s.0) packet
          (length c.buf) (c, pty) c.buf v in
      f.same out _ _
        (record { bytes = refl; attached = refl; close_after_drain = refl; up = λ up. up }) all

  read_end-Follows :
      (now : ℕ) (h : History) (c : Client) (pty : Pty) (end_ : ReadEnd)
      → snapshot h ≡ take_last history_cap out
      → P out c
      → let next : Client × Pty = elim end_ [
        | broken ↦ (record c { disconnected = true }, pty)
        | blocked ↦ handle_packets now h c pty
        | saw_eof ↦
            (let (c', pty') = handle_packets now h c pty in
              (record c' { disconnected = true }, pty'))
      ] in
        P out next.0
  read_end-Follows now h c pty broken e v = gone-Follows c
  read_end-Follows now h c pty blocked e v = handle_packets-Follows now h c pty e v
  read_end-Follows now h c pty saw_eof e v = gone-Follows (handle_packets now h c pty).0

  pub read_client_packets-Follows :
      (now : ℕ) (h : History) (c : Client) (pty : Pty)
      → snapshot h ≡ take_last history_cap out
      → P out c
      → P out (read_client_packets now h c pty).0
  unfolding read_client_packets
  read_client_packets-Follows now h c pty e v =
      let r = read_loop c.stream.reads c.buf in
      let c' : Client = record c { stream = record (c.stream) { reads = r.reads }; buf = r.buf } in
      let same : Same c c' = record {
        bytes = refl;
        attached = refl;
        close_after_drain = refl;
        up = λ up. up;
      } in
      read_end-Follows now h c' pty r.end_ e (f.same out c c' same v)

  pub queue_exit-Follows : (now status : ℕ) (c : Client) → P out c → P out (queue_exit now status c)
  queue_exit-Follows now status c v =
      queue_exit-arms (P out) now status c v (f.closing out _ now refl)

  flush_client-Same : (c : Client) → Same c (flush_client c)
  unfolding flush_client
  flush_client-Same c =
      let s = try_flush_client-Sends c in
      let same : committed (try_flush_client c).1 ≡ committed c =
        s.bytes ∙ append-nil (committed c) in
      record {
        bytes = ground (arith, same);
        attached = ground (arith, s.attached);
        close_after_drain = ground (arith, s.close_after_drain);
        up = ground (arith, s.disconnected);
      }

  pub flush_client-Follows : (c : Client) → P out c → P out (flush_client c)
  flush_client-Follows c v = f.same out c (flush_client c) (flush_client-Same c) v

  close_drained-Same : (now : ℕ) (c : Client) → Same c (close_drained now c)
  unfolding close_drained
  close_drained-Same now c = record {
    bytes = ground arith;
    attached = ground arith;
    close_after_drain = ground arith;
    up = ground arith;
  }

  pub close_drained-Follows : (now : ℕ) (c : Client) → P out c → P out (close_drained now c)
  close_drained-Follows now c v = f.same out c (close_drained now c) (close_drained-Same now c) v
