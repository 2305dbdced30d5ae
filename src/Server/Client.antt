-- ===== src/Server/Client.antt =====
-- src/main.rs: the server's `Client`, its outbound queue (`send_packet_nonblocking`,
-- `try_flush_client`), `send_history` and `broadcast_content`. Instants are milliseconds.
pub mod Outbound
use abduco_inline.Prelude.{
  ℕ, zero, suc, ◌+◌, ◌-◌, ◌*◌, ◌^◌, min, List, [], ◌∷◌, ◌++◌, length, take, drop, ltb, ◌==◌,
  if◌then◌else◌, Bool, true, false, Option, none, some, Result, ok, err, IoError, would_block,
  interrupted, write_zero,
}
use abduco_inline.Prelude.Bytes.{Bytes}
use abduco_inline.Protocol.{Packet, packet_bytes, msg_content, msg_dump_end, max_payload}
use abduco_inline.Stream.{Stream, WriteAnswer, wrote, write_failed}
use abduco_inline.History.{History, snapshot}

abbrev pub send_queue_cap : ℕ
send_queue_cap = 16 * 1024 * 1024

pub record Client : Type 0 where
  pub stream : Stream
  pub buf : Bytes
  pub attached : Bool
  pub flags : ℕ
  pub disconnected : Bool
  pub send_queue : Bytes
  pub close_after_drain : Option ℕ

-- What a flush left: its result, the answers still to come, the queue, and the bytes on the wire.
pub record Flushed : Type 0 where
  pub result : Result (Unit {0})
  pub writes : List WriteAnswer
  pub queue : Bytes
  pub wire : Bytes

-- The loop of `try_flush_client`. A call of the kernel is made only for a queue that is not empty.
-- The front segment of the deque is some front part of the queue: how much of the queue one write
-- takes is the answer's.
unfoldable pub flush_loop : List WriteAnswer → Bytes → Bytes → Flushed
flush_loop [] queue wire = record { result = ok tt; writes = []; queue = queue; wire = wire }
flush_loop (a ∷ ws) [] wire = record { result = ok tt; writes = a ∷ ws; queue = []; wire = wire }
flush_loop (wrote n ∷ ws) (b ∷ bs) wire =
    let rest = flush_loop ws (drop n (b ∷ bs)) (wire ++ take n (b ∷ bs)) in
    if n == 0
    then record { result = err write_zero; writes = ws; queue = b ∷ bs; wire = wire }
    else rest
flush_loop (write_failed would_block ∷ ws) (b ∷ bs) wire = record {
  result = ok tt;
  writes = ws;
  queue = b ∷ bs;
  wire = wire;
}
flush_loop (write_failed interrupted ∷ ws) (b ∷ bs) wire = flush_loop ws (b ∷ bs) wire
flush_loop (write_failed e ∷ ws) (b ∷ bs) wire = record {
  result = err e;
  writes = ws;
  queue = b ∷ bs;
  wire = wire;
}

unfoldable pub try_flush_client : Client → Result (Unit {0}) × Client
try_flush_client c =
    let f = flush_loop c.stream.writes c.send_queue c.stream.wire in
    (
      f.result,
      record c {
        stream = record (c.stream) { wire = f.wire; writes = f.writes };
        send_queue = f.queue;
      },
    )

-- `usize::saturating_add`
abbrev pub saturating_add : ℕ → ℕ → ℕ
saturating_add a b = min (a + b) (2 ^ 64 - 1)

unfoldable pub send_packet_nonblocking : Client → Packet → Result (Unit {0}) × Client
send_packet_nonblocking c pkt =
    let bytes = packet_bytes pkt in
    if ltb send_queue_cap (saturating_add (length c.send_queue) (length bytes))
    then (err write_zero, c)
    else try_flush_client (record c { send_queue = c.send_queue ++ bytes })

-- `slice::chunks`: pieces of `n` elements, the last one shorter. The fuel is the length.
unfoldable pub chunks_loop : ℕ → ℕ → Bytes → List Bytes
chunks_loop zero n bs = []
chunks_loop (suc fuel) n [] = []
chunks_loop (suc fuel) n (b ∷ bs) = take n (b ∷ bs) ∷ chunks_loop fuel n (drop n (b ∷ bs))

unfoldable pub chunks : ℕ → Bytes → List Bytes
chunks n bs = chunks_loop (length bs) n bs

abbrev pub content : Bytes → Packet
content payload = record { typ = msg_content; payload = payload }

abbrev pub dump_end : Packet
dump_end = record { typ = msg_dump_end; payload = [] }

-- The loop of `send_history`: whether it ran to its end, and the client.
unfoldable pub send_chunks : List Bytes → Client → Bool × Client
send_chunks [] c = (true, c)
send_chunks (chunk ∷ rest) c =
    let (sent, c') = send_packet_nonblocking c (content chunk) in
    elim sent [ ok _ ↦ send_chunks rest c' | err _ ↦ (false, record c' { disconnected = true }) ]

unfoldable pub send_history : Client → History → Bool → Client
send_history c h send_end =
    let (all_sent, c') = send_chunks (chunks max_payload (snapshot h)) c in
    if all_sent then (if send_end then (send_packet_nonblocking c' dump_end).1 else c') else c'

-- The body of the loop of `broadcast_content`, with the loop's filter.
unfoldable pub broadcast_to : Bytes → Client → Client
broadcast_to bytes c =
    if c.attached
    then (let (sent, c') = send_packet_nonblocking c (content bytes) in
        elim sent [ ok _ ↦ c' | err _ ↦ record c' { disconnected = true } ])
    else c

unfoldable pub broadcast_content : List Client → Bytes → List Client
broadcast_content [] bytes = []
broadcast_content (c ∷ cs) bytes = broadcast_to bytes c ∷ broadcast_content cs bytes
