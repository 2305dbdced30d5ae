-- ===== src/Stream.antt =====
-- src/main.rs: the writes and reads of sockets and of the pty. The kernel's answers are data: a
-- stream carries the answers to its next writes and reads in their order, and at the end of either
-- list the call would block.
pub mod Writing
mod Tests
use abduco_inline.Prelude.{
  ℕ, ◌+◌, List, [], ◌∷◌, ◌++◌, length, take, drop, ltb, ◌==◌, if◌then◌else◌, Bool, Result, ok, err,
  IoError, would_block, interrupted, write_zero,
}
use abduco_inline.Prelude.Bytes.{Bytes}
use abduco_inline.Protocol.{Packet, packet_bytes}

-- `Ok(n)`: the kernel took the first `n` bytes of what was offered, or all if these are fewer.
pub data WriteAnswer : Type 0 where
  wrote : ℕ → WriteAnswer
  write_failed : IoError → WriteAnswer

-- `Ok(n)` with the n bytes; no bytes are the end of the stream.
pub data ReadAnswer : Type 0 where
  read_ok : Bytes → ReadAnswer
  read_failed : IoError → ReadAnswer

-- `wire` is what the kernel has taken so far.
pub record Stream : Type 0 where
  pub wire : Bytes
  pub writes : List WriteAnswer
  pub reads : List ReadAnswer

-- What a write left: its result, the answers still to come, and the bytes taken so far.
pub record Written : Type 0 where
  pub result : Result (Unit {0})
  pub writes : List WriteAnswer
  pub wire : Bytes

-- The loop of `fd_write_all`, and of `Write::write_all`.
unfoldable pub write_loop : List WriteAnswer → Bytes → Bytes → Written
write_loop [] [] wire = record { result = ok tt; writes = []; wire = wire }
write_loop [] (b ∷ bs) wire = record { result = err would_block; writes = []; wire = wire }
write_loop (a ∷ ws) [] wire = record { result = ok tt; writes = a ∷ ws; wire = wire }
write_loop (wrote n ∷ ws) (b ∷ bs) wire =
    let rest = write_loop ws (drop n (b ∷ bs)) (wire ++ take n (b ∷ bs)) in
    if n == 0 then record { result = err write_zero; writes = ws; wire = wire } else rest
write_loop (write_failed interrupted ∷ ws) (b ∷ bs) wire = write_loop ws (b ∷ bs) wire
write_loop (write_failed e ∷ ws) (b ∷ bs) wire = record { result = err e; writes = ws; wire = wire }

unfoldable pub send_packet_blocking : Stream → Packet → Result (Unit {0}) × Stream
send_packet_blocking s pkt =
    let w = write_loop s.writes (packet_bytes pkt) s.wire in
    (w.result, record s { wire = w.wire; writes = w.writes })

-- How a loop of reads on a non-blocking stream ended.
pub data ReadEnd : Type 0 where
  blocked saw_eof broken : ReadEnd

pub record ReadSoFar : Type 0 where
  pub end_ : ReadEnd
  pub reads : List ReadAnswer
  pub buf : Bytes

-- The first loop of `read_client_packets`.
unfoldable pub read_loop : List ReadAnswer → Bytes → ReadSoFar
read_loop [] buf = record { end_ = blocked; reads = []; buf = buf }
read_loop (read_ok [] ∷ rs) buf = record { end_ = saw_eof; reads = rs; buf = buf }
read_loop (read_ok (b ∷ bs) ∷ rs) buf = read_loop rs (buf ++ b ∷ bs)
read_loop (read_failed would_block ∷ rs) buf = record { end_ = blocked; reads = rs; buf = buf }
read_loop (read_failed interrupted ∷ rs) buf = read_loop rs buf
read_loop (read_failed e ∷ rs) buf = record { end_ = broken; reads = rs; buf = buf }
