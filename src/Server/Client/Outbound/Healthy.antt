-- ===== src/Server/Client/Outbound/Healthy.antt =====
-- Dumps to connections that are not broken: `send_history` and `try_flush_client` in src/main.rs.
use mathlib.Core.List.{map}
use abduco_inline.Prelude.{
  ℕ, ◌+◌, ◌≤◌, ◌<◌, ◌≡◌, refl, ap, ◌∙◌, List, [], ◌∷◌, ◌++◌, length, drop, take, ltb, ◌==◌, Bool,
  true, false, arith, All, Result, ok, err, IoError, inl, inr, length-append,
}
use abduco_inline.Prelude.Bytes.{Bytes}
use abduco_inline.Protocol.{Packet, packet_bytes, max_payload}
use abduco_inline.Protocol.Loop.{encode_all}
use abduco_inline.Stream.{WriteAnswer, wrote, write_failed}
use abduco_inline.History.{History, history_cap, snapshot}
use abduco_inline.Server.Client.{
  Client, Flushed, flush_loop, try_flush_client, send_packet_nonblocking, send_queue_cap,
  saturating_add, chunks, content, dump_end, send_chunks, send_history,
}
use abduco_inline.Server.Client.Outbound.{send_packet_nonblocking-Send}
use abduco_inline.Server.Client.Outbound.Replay.{history_packets}
use abduco_inline.Server.Client.Outbound.Dump.{room}

-- An answer of a connection that is not broken.
abbrev pub IsHealthy : WriteAnswer → Type 0
IsHealthy (wrote n) = 0 < n
IsHealthy (write_failed IoError.would_block) = Unit
IsHealthy (write_failed IoError.interrupted) = Unit
IsHealthy (write_failed e) = ⊥

-- A flush that found no error, and left the connection healthy.
record Flows (f : Flushed) : Type 0 where
  result : f.result ≡ ok tt
  writes : All IsHealthy f.writes

flush_loop-Flows :
    (ws : List WriteAnswer) (queue wire : Bytes)
    → All IsHealthy ws
    → Flows (flush_loop ws queue wire)
unfolding flush_loop
flush_loop-Flows [] queue wire h = record { result = refl; writes = tt }
flush_loop-Flows (a ∷ ws) [] wire h = record { result = refl; writes = h }
flush_loop-Flows (wrote n ∷ ws) (b ∷ bs) wire (h, hs) =
    let wrote_some : (n == 0) ≡ false = ground arith in
    rw wrote_some (flush_loop-Flows ws (drop n (b ∷ bs)) (wire ++ take n (b ∷ bs)) hs)
flush_loop-Flows (write_failed IoError.would_block ∷ ws) (b ∷ bs) wire (h, hs) = record {
  result = refl;
  writes = hs;
}
flush_loop-Flows (write_failed IoError.interrupted ∷ ws) (b ∷ bs) wire (h, hs) =
    flush_loop-Flows ws (b ∷ bs) wire hs
flush_loop-Flows (write_failed e ∷ ws) (b ∷ bs) wire (h, hs) = absurd h

-- A send that was accepted by a connection that stays healthy.
record Accepts (out : Result (Unit {0}) × Client) : Type 0 where
  result : out.0 ≡ ok tt
  writes : All IsHealthy out.1.stream.writes

send_packet_nonblocking-Accepts :
    (c : Client) (pkt : Packet)
    → All IsHealthy c.stream.writes
    → length c.send_queue + length (packet_bytes pkt) ≤ send_queue_cap
    → Accepts (send_packet_nonblocking c pkt)
unfolding send_packet_nonblocking try_flush_client
send_packet_nonblocking-Accepts c pkt h fits =
    let room_left : ltb send_queue_cap
          (saturating_add (length c.send_queue) (length (packet_bytes pkt)))
        ≡ false =
      ground arith in
    let f = flush_loop-Flows c.stream.writes (c.send_queue ++ packet_bytes pkt) c.stream.wire h in
    rw room_left (record { result = f.result; writes = f.writes })

length-send_packet_nonblocking :
    (c : Client) (pkt : Packet)
    → length (send_packet_nonblocking c pkt).1.send_queue
      ≤ length c.send_queue + length (packet_bytes pkt)
length-send_packet_nonblocking c pkt =
    let s = send_packet_nonblocking-Send c pkt in
    elim s.whole [
      | inl e ↦ omega (
        arith,
        s.sends.grows,
        ap (λ (ps : List Packet). length (encode_all ps)) e,
        length-append (packet_bytes pkt) [],
      )
      | inr (e, _, _) ↦
          omega (arith, s.sends.grows, ap (λ (ps : List Packet). length (encode_all ps)) e)
    ]

-- The loop of `send_history` ran to its end, and the client is as connected as before.
record RunsThrough (cs : List Bytes) (c : Client) (out : Bool × Client) : Type 0 where
  all_sent : out.0 ≡ true
  writes : All IsHealthy out.1.stream.writes
  connected : out.1.disconnected ≡ c.disconnected
  grows : length out.1.send_queue ≤ length c.send_queue + length (encode_all (map content cs))

chunk_step :
    (chunk : Bytes) (rest : List Bytes) (c : Client) (out : Result (Unit {0}) × Client)
    → Accepts out
    → out.1.disconnected ≡ c.disconnected
    → length out.1.send_queue ≤ length c.send_queue + length (packet_bytes (content chunk))
    → RunsThrough rest out.1 (send_chunks rest out.1)
    → RunsThrough (chunk ∷ rest) c (elim out.0 [
      | ok _ ↦ send_chunks rest out.1
      | err _ ↦ (false, record (out.1) { disconnected = true })
    ])
chunk_step chunk rest c (ok u, d) a same le r = record {
  all_sent = r.all_sent;
  writes = r.writes;
  connected = r.connected ∙ same;
  grows = omega (
    arith,
    r.grows,
    length-append (packet_bytes (content chunk)) (encode_all (map content rest)),
  );
}
chunk_step chunk rest c (err e, d) a same le r = absurd (cc (a.result))

send_chunks-RunsThrough :
    (cs : List Bytes) (c : Client)
    → All IsHealthy c.stream.writes
    → length c.send_queue + length (encode_all (map content cs)) ≤ send_queue_cap
    → RunsThrough cs c (send_chunks cs c)
unfolding send_chunks
send_chunks-RunsThrough [] c h fits = record {
  all_sent = refl;
  writes = h;
  connected = refl;
  grows = omega arith;
}
send_chunks-RunsThrough (chunk ∷ rest) c h fits =
    let long = length-append (packet_bytes (content chunk)) (encode_all (map content rest)) in
    let a = send_packet_nonblocking-Accepts c (content chunk) h (omega (arith, long)) in
    let le = length-send_packet_nonblocking c (content chunk) in
    chunk_step chunk rest c _ a (send_packet_nonblocking-Send c (content chunk)).connected le
      (send_chunks-RunsThrough rest _ a.writes (omega (arith, long, le)))

-- A dump does not give up a client whose connection is healthy and whose queue is empty, however
-- little the kernel takes: the whole history fits into the queue.
pub disconnected-send_history :
    (c : Client) (h : History)
    → length (snapshot h) ≤ history_cap
    → c.send_queue ≡ []
    → All IsHealthy c.stream.writes
    → (send_history c h true).disconnected ≡ c.disconnected
unfolding send_history
disconnected-send_history c h le empty healthy =
    let fits : length c.send_queue + length (encode_all (history_packets h)) ≤ send_queue_cap =
      omega (arith, room h le, ap (length {A = ℕ}) empty) in
    let r = send_chunks-RunsThrough (chunks max_payload (snapshot h)) c healthy fits in
    rw (r.all_sent) ((send_packet_nonblocking-Send _ dump_end).connected ∙ r.connected)
