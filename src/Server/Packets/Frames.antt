-- ===== src/Server/Packets/Frames.antt =====
-- Reading a client's packets in src/main.rs, seen from the client's outbound stream.
use abduco_inline.Prelude.{
  ℕ, ◌≤◌, ◌≡◌, sym, ap, ◌∙◌, subst, List, [], ◌++◌, append-nil, append_assoc, length, Bool, true,
  false, arith, All, All-append, All-append_left, Bool-cases, inl, inr,
}
use abduco_inline.Prelude.Bytes.{Bytes}
use abduco_inline.Protocol.{Packet, max_payload}
use abduco_inline.Protocol.Framing.{IsPacket}
use abduco_inline.Protocol.Loop.{encode_all, encode_all-append, while_packets-keeps}
use abduco_inline.History.{History, snapshot}
use abduco_inline.Stream.{ReadEnd, blocked, saw_eof, broken, read_loop}
use abduco_inline.Server.Client.{
  Client, chunks, dump_end, send_chunks, send_history, send_packet_nonblocking, send_queue_cap,
}
use abduco_inline.Server.Client.Outbound.{Sends, committed, send_packet_nonblocking-Send}
use abduco_inline.Server.Client.Outbound.Replay.{
  Replays, send_history-Replays, history_packets, send_chunks-Ended,
}
use abduco_inline.Server.Client.Outbound.Chunks.{map-content-IsPacket, chunks-fits}
use abduco_inline.Server.Packets.{
  Pty, handle_packet, handle_packets, read_client_packets, attach, dump,
}

-- From `c` to `c'` whole packets were committed, and the queue stayed within its bound.
pub record Emits (c c' : Client) : Type 0 where
  pub packets : List Packet
  pub valid : All IsPacket packets
  pub bytes : committed c' ≡ committed c ++ encode_all packets
  pub bounded : length c.send_queue ≤ send_queue_cap → length c'.send_queue ≤ send_queue_cap

pub refl-Emits : (c : Client) → Emits c c
refl-Emits c = record {
  packets = [];
  valid = tt;
  bytes = sym (append-nil (committed c));
  bounded = λ h. h;
}

pub trans-Emits : (c d e : Client) → Emits c d → Emits d e → Emits c e
trans-Emits c d e s t = record {
  packets = s.packets ++ t.packets;
  valid = All-append IsPacket s.packets t.packets s.valid t.valid;
  bytes =
      t.bytes
      ∙ ap (λ (b : Bytes). b ++ encode_all t.packets) s.bytes
      ∙ append_assoc (committed c) (encode_all s.packets) (encode_all t.packets)
      ∙ ap (◌++◌ (committed c)) (sym (encode_all-append s.packets t.packets));
  bounded = λ h. t.bounded (s.bounded h);
}

pub Sends-Emits : (ps : List Packet) (c d : Client) → All IsPacket ps → Sends ps c d → Emits c d
Sends-Emits ps c d v s = record { packets = ps; valid = v; bytes = s.bytes; bounded = s.bounded }

pub Replays-Emits :
    (all : List Packet) (c d : Client) → All IsPacket all → Replays all c d → Emits c d
Replays-Emits all c d v r =
    Sends-Emits r.packets c d
      (All-append_left IsPacket r.packets r.missing (subst (All IsPacket) (sym r.parts) v)) r.sends

pub send-Emits :
    (c : Client) (pkt : Packet) → IsPacket pkt → Emits c (send_packet_nonblocking c pkt).1
send-Emits c pkt v =
    let s = send_packet_nonblocking-Send c pkt in
    elim s.whole [
      | inl e ↦ Sends-Emits s.packets c _ (subst (All IsPacket) (sym e) (v, tt)) s.sends
      | inr (e, _, _) ↦ Sends-Emits s.packets c _ (subst (All IsPacket) (sym e) tt) s.sends
    ]

pub history_packets-IsPacket : (h : History) → All IsPacket (history_packets h)
history_packets-IsPacket h = map-content-IsPacket _ (chunks-fits _ (snapshot h))

dump_end-IsPacket : IsPacket dump_end
dump_end-IsPacket = omega arith

send_history-Emits : (c : Client) (h : History) (e : Bool) → Emits c (send_history c h e)
unfolding send_history
send_history-Emits c h false =
    Replays-Emits (history_packets h) c _ (history_packets-IsPacket h) (send_history-Replays c h)
send_history-Emits c h true =
    let r = send_chunks-Ended (chunks max_payload (snapshot h)) c in
    let chunks_sent =
      Replays-Emits (history_packets h) c _ (history_packets-IsPacket h) r.replays in
    elim (Bool-cases (send_chunks (chunks max_payload (snapshot h)) c).0) [
      | inl done ↦ rw done (trans-Emits c _ _ chunks_sent (send-Emits _ dump_end dump_end-IsPacket))
      | inr stop ↦ rw stop chunks_sent
    ]

attach-Emits : (c : Client) (h : History) (payload : Bytes) → Emits c (attach c h payload)
unfolding attach
attach-Emits c h payload =
    let e = send_history-Emits (record c { attached = true; flags = _ }) h false in
    record { packets = e.packets; valid = e.valid; bytes = e.bytes; bounded = e.bounded }

dump-Emits : (now : ℕ) (c : Client) (h : History) → Emits c (dump now c h)
unfolding dump
dump-Emits now c h = ground (arith, send_history-Emits c h true)

handle_packet-Emits :
    (now : ℕ) (h : History) (c : Client) (pty : Pty) (pkt : Packet)
    → Emits c (handle_packet now h (c, pty) pkt).0
unfolding handle_packet
handle_packet-Emits now h c pty pkt =
    ground (arith, refl-Emits c, attach-Emits c h pkt.payload, dump-Emits now c h)

handle_packets-Emits :
    (now : ℕ) (h : History) (c : Client) (pty : Pty) → Emits c (handle_packets now h c pty).0
unfolding handle_packets
handle_packets-Emits now h c pty =
    let e =
      while_packets-keeps (handle_packet now h) (λ (s : Client × Pty). Emits c s.0)
        (λ s p before. trans-Emits c s.0 _ before (handle_packet-Emits now h s.0 s.1 p))
        (length c.buf) (c, pty) c.buf (refl-Emits c) in
    record { packets = e.packets; valid = e.valid; bytes = e.bytes; bounded = e.bounded }

read_end-Emits :
    (now : ℕ) (h : History) (c c' : Client) (pty : Pty) (end_ : ReadEnd)
    → Emits c c'
    → let out : Client × Pty = elim end_ [
      | broken ↦ (record c' { disconnected = true }, pty)
      | blocked ↦ handle_packets now h c' pty
      | saw_eof ↦
          (let (c'', pty') = handle_packets now h c' pty in
            (record c'' { disconnected = true }, pty'))
    ] in
      Emits c out.0
read_end-Emits now h c c' pty broken e = record {
  packets = e.packets;
  valid = e.valid;
  bytes = e.bytes;
  bounded = e.bounded;
}
read_end-Emits now h c c' pty blocked e = trans-Emits c c' _ e (handle_packets-Emits now h c' pty)
read_end-Emits now h c c' pty saw_eof e =
    let t = trans-Emits c c' _ e (handle_packets-Emits now h c' pty) in
    record { packets = t.packets; valid = t.valid; bytes = t.bytes; bounded = t.bounded }

-- Whatever a client sends, reading it commits whole packets to that client and nothing else.
pub read_client_packets-Emits :
    (now : ℕ) (h : History) (c : Client) (pty : Pty) → Emits c (read_client_packets now h c pty).0
unfolding read_client_packets
read_client_packets-Emits now h c pty =
    let r = read_loop c.stream.reads c.buf in
    read_end-Emits now h c
      (record c { stream = record (c.stream) { reads = r.reads }; buf = r.buf }) pty r.end_
      (record {
        packets = [];
        valid = tt;
        bytes = sym (append-nil (committed c));
        bounded = λ b. b;
      })
