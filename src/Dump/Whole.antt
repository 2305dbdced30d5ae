-- ===== src/Dump/Whole.antt =====
-- A dump end to end: `MSG_DUMP` in the server and `dump_session` in src/main.rs.
use mathlib.Core.List.{map}
use abduco_inline.Prelude.{
  ℕ, zero, suc, ◌≤◌, ◌<◌, ◌≡◌, ◌≢◌, refl, sym, ap, ◌∙◌, List, [], ◌∷◌, ◌++◌, append_assoc,
  append-nil, length, drop, ◌==◌, if◌then◌else◌, true, false, arith, All, ok, length-append,
}
use abduco_inline.Prelude.Bytes.{Bytes}
use abduco_inline.Protocol.{Packet, packet_bytes, msg_content, msg_dump_end}
use abduco_inline.Protocol.Framing.{
  IsPacket, recv_packet_blocking-packet_bytes, length-packet_bytes,
}
use abduco_inline.Protocol.Loop.{encode_all, encode_all-append}
use abduco_inline.Protocol.Contents.{contents}
use abduco_inline.Stream.{Stream, send_packet_blocking}
use abduco_inline.History.{History, snapshot, history_cap}
use abduco_inline.Server.Client.{Client, content, dump_end, send_history}
use abduco_inline.Server.Client.Outbound.{committed}
use abduco_inline.Server.Client.Outbound.Replay.{history_packets, packets-Replays}
use abduco_inline.Server.Client.Outbound.Dump.{send_history-dump}
use abduco_inline.Server.Client.Outbound.Healthy.{IsHealthy, disconnected-send_history}
use abduco_inline.Server.Packets.{dump}
use abduco_inline.Server.Packets.Frames.{history_packets-IsPacket}
use abduco_inline.Server.Tick.{Os, Accepted, new_client, pid_packet}
use abduco_inline.Server.Tick.Sound.{IsFresh, new_client-committed, pid_packet-IsPacket}
use abduco_inline.Server.Tick.Output.{contents-history_packets}
use abduco_inline.Dump.{recv_dump, dump_start, dump_session, dump_request}

dump_end-IsPacket : IsPacket dump_end
dump_end-IsPacket = omega arith

recv_dump-cons :
    (fuel : ℕ) (p : Packet) (rest out : Bytes)
    → IsPacket p
    → recv_dump (suc fuel) (packet_bytes p ++ rest) out ≡ (
        if p.typ == msg_dump_end
        then ok out
        else recv_dump fuel rest (if p.typ == msg_content then out ++ p.payload else out))
unfolding recv_dump
recv_dump-cons fuel p rest out v = ground (arith, recv_packet_blocking-packet_bytes p rest v)

-- The loop collects the content of the packets up to the end packet, and looks at nothing behind it.
recv_dump-encode_all :
    (ps : List Packet) (fuel : ℕ) (rest out : Bytes)
    → All IsPacket ps
    → All (λ p. p.typ ≢ msg_dump_end) ps
    → length (encode_all ps) < fuel
    → recv_dump fuel (encode_all ps ++ (packet_bytes dump_end ++ rest)) out
      ≡ ok (out ++ contents ps)
unfolding contents
recv_dump-encode_all ps zero rest out v ne lt = absurd (omega arith)
recv_dump-encode_all [] (suc fuel) rest out v ne lt =
    recv_dump-cons fuel dump_end rest out dump_end-IsPacket ∙ ap ok (sym (append-nil out))
recv_dump-encode_all (p ∷ ps) (suc fuel) rest out (v, vs) (n, ne) lt =
    let behind = packet_bytes dump_end ++ rest in
    let bound : length (encode_all ps) < fuel =
      omega (arith, length-append (packet_bytes p) (encode_all ps), length-packet_bytes p) in
    ap (λ (b : Bytes). recv_dump (suc fuel) b out)
      (append_assoc (packet_bytes p) (encode_all ps) behind)
    ∙ recv_dump-cons fuel p (encode_all ps ++ behind) out v
    ∙ ground (
      arith,
      n,
      recv_dump-encode_all ps fuel rest out vs ne bound,
      recv_dump-encode_all ps fuel rest (out ++ p.payload) vs ne bound,
      append_assoc out p.payload (contents ps),
    )

-- The pid packet, then content, then the end packet: `dump_session` prints the chosen part of it.
dump_session-encode_all :
    (stream : Stream) (pid : Packet) (ps : List Packet) (rest : Bytes) (max_bytes max_lines : ℕ)
    → IsPacket pid
    → All IsPacket ps
    → All (λ p. p.typ ≢ msg_dump_end) ps
    → (send_packet_blocking stream dump_request).0 ≡ ok tt
    → dump_session stream
        (packet_bytes pid ++ (encode_all ps ++ (packet_bytes dump_end ++ rest)))
        max_bytes
        max_lines
      ≡ ok (drop (dump_start (contents ps) max_bytes max_lines) (contents ps))
unfolding dump_session
dump_session-encode_all stream pid ps rest max_bytes max_lines vp v ne sent =
    let behind = packet_bytes dump_end ++ rest in
    let bound : length (encode_all ps) < suc (length (encode_all ps ++ behind)) = omega (
      arith,
      length-append (encode_all ps) behind,
      length-append (packet_bytes dump_end) rest,
      length-packet_bytes dump_end,
    ) in
    ground (
      arith,
      recv_packet_blocking-packet_bytes pid (encode_all ps ++ behind) vp,
      sent,
      recv_dump-encode_all ps (suc (length (encode_all ps ++ behind))) rest [] v ne bound,
    )

map-content-ne : (cs : List Bytes) → All (λ p. p.typ ≢ msg_dump_end) (map content cs)
map-content-ne [] = tt
map-content-ne (c ∷ cs) = (omega arith, map-content-ne cs)

dump-committed :
    (now : ℕ) (c : Client) (h : History)
    → length (snapshot h) ≤ history_cap
    → c.send_queue ≡ []
    → (dump now c h).disconnected ≡ false
    → committed (dump now c h) ≡ committed c ++ encode_all (history_packets h ++ dump_end ∷ [])
unfolding dump
dump-committed now c h le empty up =
    let r = send_history-dump c h le empty in
    let up' : (send_history c h true).disconnected ≡ false = ground arith in
    let all = packets-Replays _ c _ r (r.complete up') in
    ground (arith, r.sends.bytes, ap encode_all all)

disconnected-dump :
    (now : ℕ) (c : Client) (h : History)
    → (dump now c h).disconnected ≡ (send_history c h true).disconnected
unfolding dump
disconnected-dump now c h = ground arith

-- A dump request on a new connection that takes the pid packet and does not break afterwards, however
-- little of each write it takes: what the server has committed when it has handled the request makes
-- `dump_session`, where it can send the request, print exactly the part of the history that the limits
-- choose. The history is within HISTORY_CAP.
pub dump_prints_history :
    (os : Os) (a : Accepted) (now : ℕ) (h : History) (stream : Stream) (max_bytes max_lines : ℕ)
    → IsFresh os a
    → All IsHealthy (send_packet_blocking a.stream (pid_packet os)).1.writes
    → length (snapshot h) ≤ history_cap
    → (send_packet_blocking stream dump_request).0 ≡ ok tt
    → let c = dump now (new_client (send_packet_blocking a.stream (pid_packet os)).1) h in
      dump_session stream (committed c) max_bytes max_lines
      ≡ ok (drop (dump_start (snapshot h) max_bytes max_lines) (snapshot h))
dump_prints_history os a now h stream max_bytes max_lines fresh healthy le sent =
    let client = new_client (send_packet_blocking a.stream (pid_packet os)).1 in
    let up = disconnected-dump now client h ∙ disconnected-send_history client h le refl healthy in
    let bytes =
      dump-committed now client h le refl up
      ∙ ap (λ (b : Bytes). b ++ encode_all (history_packets h ++ dump_end ∷ []))
          (new_client-committed os a fresh)
      ∙ ap (◌++◌ (packet_bytes (pid_packet os)))
          (encode_all-append (history_packets h) (dump_end ∷ [])) in
    ap (λ (b : Bytes). dump_session stream b max_bytes max_lines) bytes
    ∙ dump_session-encode_all stream (pid_packet os) (history_packets h) [] max_bytes max_lines
        (pid_packet-IsPacket os) (history_packets-IsPacket h) (map-content-ne _) sent
    ∙ ap (λ (b : Bytes). ok (drop (dump_start b max_bytes max_lines) b))
        (contents-history_packets h)
