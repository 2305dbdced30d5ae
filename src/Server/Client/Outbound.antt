-- ===== src/Server/Client/Outbound.antt =====
-- What the server's sends put into a client's stream (`send_packet_nonblocking`,
-- `try_flush_client` in src/main.rs).
pub mod Chunks
pub mod Replay
pub mod Dump
pub mod Healthy
use abduco_inline.Prelude.{
  ℕ, zero, suc, ◌+◌, ◌-◌, ◌≤◌, ◌<◌, ◌≡◌, refl, sym, ap, ◌∙◌, subst, List, [], ◌∷◌, ◌++◌,
  append_assoc, append-nil, length, take, drop, ltb, ◌==◌, if◌then◌else◌, Bool, true, false, Option,
  arith, ok, err, IoError, would_block, interrupted, write_zero, take-append-drop, length-append,
  length-drop, Bool-cases, inl, inr, ◌⊎◌, All, All-append, Result,
}
use abduco_inline.Prelude.Bytes.{Bytes}
use abduco_inline.Protocol.{Packet, packet_bytes}
use abduco_inline.Protocol.Framing.{IsPacket, length-packet_bytes}
use abduco_inline.Protocol.Loop.{encode_all, encode_all-append}
use abduco_inline.Stream.{WriteAnswer, wrote, write_failed}
use abduco_inline.Server.Client.{
  Client, Flushed, flush_loop, try_flush_client, send_packet_nonblocking, send_queue_cap,
  saturating_add,
}

-- All that was ever committed to a client's stream: what the kernel took, and what waits.
abbrev pub committed : Client → Bytes
committed c = c.stream.wire ++ c.send_queue

-- From `c` to `c'` exactly the packets `ps` were committed, and what belongs to the receiving side
-- is as it was.
pub record Sends (ps : List Packet) (c c' : Client) : Type 0 where
  pub bytes : committed c' ≡ committed c ++ encode_all ps
  pub bounded : length c.send_queue ≤ send_queue_cap → length c'.send_queue ≤ send_queue_cap
  pub grows : length c'.send_queue ≤ length c.send_queue + length (encode_all ps)
  pub attached : c'.attached ≡ c.attached
  pub flags : c'.flags ≡ c.flags
  pub buf : c'.buf ≡ c.buf
  pub reads : c'.stream.reads ≡ c.stream.reads
  pub close_after_drain : c'.close_after_drain ≡ c.close_after_drain
  pub disconnected : c.disconnected ≡ true → c'.disconnected ≡ true

pub refl-Sends : (c : Client) → Sends [] c c
refl-Sends c = record {
  bytes = sym (append-nil (committed c));
  bounded = λ h. h;
  grows = omega arith;
  attached = refl;
  flags = refl;
  buf = refl;
  reads = refl;
  close_after_drain = refl;
  disconnected = λ h. h;
}

pub trans-Sends :
    (ps qs : List Packet) (c d e : Client) → Sends ps c d → Sends qs d e → Sends (ps ++ qs) c e
trans-Sends ps qs c d e s t = record {
  bytes =
      t.bytes
      ∙ ap (λ (b : Bytes). b ++ encode_all qs) s.bytes
      ∙ append_assoc (committed c) (encode_all ps) (encode_all qs)
      ∙ ap (◌++◌ (committed c)) (sym (encode_all-append ps qs));
  bounded = λ h. t.bounded (s.bounded h);
  grows = omega (
    arith,
    s.grows,
    t.grows,
    ap (length {A = ℕ}) (encode_all-append ps qs),
    length-append (encode_all ps) (encode_all qs),
  );
  attached = t.attached ∙ s.attached;
  flags = t.flags ∙ s.flags;
  buf = t.buf ∙ s.buf;
  reads = t.reads ∙ s.reads;
  close_after_drain = t.close_after_drain ∙ s.close_after_drain;
  disconnected = λ h. t.disconnected (s.disconnected h);
}

-- A flush moves bytes from the front of the queue to the end of the wire.
pub record Moves (queue wire : Bytes) (f : Flushed) : Type 0 where
  pub same : f.wire ++ f.queue ≡ wire ++ queue
  pub shorter : length f.queue ≤ length queue

Moves-first :
    (n : ℕ) (queue wire : Bytes) (f : Flushed)
    → Moves (drop n queue) (wire ++ take n queue) f
    → Moves queue wire f
Moves-first n queue wire f m = record {
  same =
      m.same
      ∙ append_assoc wire (take n queue) (drop n queue)
      ∙ ap (◌++◌ wire) (take-append-drop n queue);
  shorter = omega (arith, m.shorter, length-drop n queue);
}

Moves-step :
    (n : ℕ) (queue wire : Bytes) (ws : List WriteAnswer) (f : Flushed)
    → Moves queue wire f
    → Moves queue wire (
        if n == 0
        then record { result = err write_zero; writes = ws; queue = queue; wire = wire }
        else f)
Moves-step n queue wire ws f m = elim (Bool-cases (n == 0)) [
  | inl e ↦ rw e (record { same = refl; shorter = omega arith })
  | inr e ↦ rw e m
]

flush_loop-Moves :
    (ws : List WriteAnswer) (queue wire : Bytes) → Moves queue wire (flush_loop ws queue wire)
unfolding flush_loop
flush_loop-Moves [] queue wire = record { same = refl; shorter = omega arith }
flush_loop-Moves (a ∷ ws) [] wire = record { same = refl; shorter = omega arith }
flush_loop-Moves (wrote n ∷ ws) (b ∷ bs) wire = Moves-step n (b ∷ bs) wire ws _ (
    Moves-first n (b ∷ bs) wire _ (flush_loop-Moves ws (drop n (b ∷ bs)) (wire ++ take n (b ∷ bs))))
flush_loop-Moves (write_failed IoError.would_block ∷ ws) (b ∷ bs) wire = record {
  same = refl;
  shorter = omega arith;
}
flush_loop-Moves (write_failed IoError.interrupted ∷ ws) (b ∷ bs) wire =
    flush_loop-Moves ws (b ∷ bs) wire
flush_loop-Moves (write_failed e ∷ ws) (b ∷ bs) wire = record { same = refl; shorter = omega arith }

-- A flush commits nothing new and loses nothing, whatever the kernel answers.
pub try_flush_client-Sends : (c : Client) → Sends [] c (try_flush_client c).1
unfolding try_flush_client
try_flush_client-Sends c =
    let m = flush_loop-Moves c.stream.writes c.send_queue c.stream.wire in
    record {
      bytes = m.same ∙ sym (append-nil (committed c));
      bounded = λ h. omega (arith, m.shorter);
      grows = omega (arith, m.shorter);
      attached = refl;
      flags = refl;
      buf = refl;
      reads = refl;
      close_after_drain = refl;
      disconnected = λ h. h;
    }

pub disconnected-try_flush_client :
    (c : Client) → (try_flush_client c).1.disconnected ≡ c.disconnected
unfolding try_flush_client
disconnected-try_flush_client c = refl

-- The queue takes the whole packet.
enqueue-Sends :
    (c : Client) (pkt : Packet)
    → length c.send_queue + length (packet_bytes pkt) ≤ send_queue_cap
    → Sends (pkt ∷ []) c (record c { send_queue = c.send_queue ++ packet_bytes pkt })
enqueue-Sends c pkt h = record {
  bytes =
      sym (append_assoc c.stream.wire c.send_queue (packet_bytes pkt))
      ∙ ap (◌++◌ (committed c)) (sym (append-nil (packet_bytes pkt)));
  bounded = λ _. omega (arith, length-append c.send_queue (packet_bytes pkt));
  grows =
      omega
        (arith, length-append c.send_queue (packet_bytes pkt), length-append (packet_bytes pkt) []);
  attached = refl;
  flags = refl;
  buf = refl;
  reads = refl;
  close_after_drain = refl;
  disconnected = λ d. d;
}

-- Of a send: the whole packet is committed, or it is refused and the client is as it was.
pub record Send (pkt : Packet) (c : Client) (out : Result (Unit {0}) × Client) : Type 0 where
  pub packets : List Packet
  pub sends : Sends packets c out.1
  pub connected : out.1.disconnected ≡ c.disconnected
  pub whole :
      (packets ≡ pkt ∷ [])
      ⊎ ((packets ≡ [])
          × (out ≡ (err write_zero, c))
          × (send_queue_cap < length c.send_queue + length (packet_bytes pkt)))

-- A send commits all bytes of the packet or none of them: it never leaves a packet cut in two.
pub send_packet_nonblocking-Send :
    (c : Client) (pkt : Packet) → Send pkt c (send_packet_nonblocking c pkt)
unfolding send_packet_nonblocking
send_packet_nonblocking-Send c pkt =
    elim (Bool-cases
      (ltb send_queue_cap (saturating_add (length c.send_queue) (length (packet_bytes pkt))))) [
        | inl full ↦ rw full (record {
          packets = [];
          sends = refl-Sends c;
          connected = refl;
          whole = inr (refl, refl, ground arith);
        })
        | inr fits ↦
            let queued : Client = record c { send_queue = c.send_queue ++ packet_bytes pkt } in
            rw fits (record {
              packets = pkt ∷ [];
              sends =
                  trans-Sends (pkt ∷ []) [] c queued _ (enqueue-Sends c pkt (ground arith))
                    (try_flush_client-Sends queued);
              connected = disconnected-try_flush_client queued;
              whole = inl refl;
            })
      ]

-- A send commits all bytes of the packet behind what was committed before, or, where the queue would
-- grow past SEND_QUEUE_CAP, it reports `WriteZero` and the client is as it was: no packet is ever cut
-- in two, whatever the kernel answers.
pub send_packet_nonblocking_whole :
    (c : Client) (pkt : Packet)
    → let out = send_packet_nonblocking c pkt in
      (committed out.1 ≡ committed c ++ packet_bytes pkt)
      ⊎ ((out ≡ (err write_zero, c))
          × (send_queue_cap < length c.send_queue + length (packet_bytes pkt)))
send_packet_nonblocking_whole c pkt =
    let s = send_packet_nonblocking-Send c pkt in
    elim s.whole [
      | inl one ↦ inl (
          s.sends.bytes
          ∙ ap (λ (ps : List Packet). committed c ++ encode_all ps) one
          ∙ ap (◌++◌ (committed c)) (append-nil (packet_bytes pkt)))
      | inr (_, same, full) ↦ inr (same, full)
    ]
