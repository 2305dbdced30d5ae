-- ===== src/Protocol.antt =====
-- src/main.rs: the constants of the protocol, `Packet`, and its codec (`packet_bytes`,
-- `pop_packet`, `recv_packet_blocking`, `read_u32`, `read_u64`). A byte stream is the list of its
-- bytes.
pub mod Framing
pub mod Loop
pub mod Feed
pub mod Contents
mod Tests
use abduco_inline.Prelude.{
  ℕ, zero, suc, ◌+◌, ◌-◌, ◌*◌, ◌%◌, ◌^◌, List, [], ◌∷◌, ◌++◌, Option, none, some, length, get_or,
  take, drop, ltb, leb, if◌then◌else◌, Bool, true, Result, ok, err, ◌>>=◌, invalid_data,
  unexpected_eof,
}
use abduco_inline.Prelude.Bytes.{Bytes, u32_to_ne_bytes, u32_from_ne_bytes}

abbrev pub msg_content : ℕ
msg_content = 0

abbrev pub msg_attach : ℕ
msg_attach = 1

abbrev pub msg_detach : ℕ
msg_detach = 2

abbrev pub msg_resize : ℕ
msg_resize = 3

abbrev pub msg_exit : ℕ
msg_exit = 4

abbrev pub msg_pid : ℕ
msg_pid = 5

abbrev pub msg_dump : ℕ
msg_dump = 6

abbrev pub msg_dump_end : ℕ
msg_dump_end = 7

abbrev pub msg_send_keys : ℕ
msg_send_keys = 8

abbrev pub max_payload : ℕ
max_payload = 4096 - 8

pub record Packet : Type 0 where
  pub typ : ℕ
  pub payload : Bytes

-- `as u32` keeps the low 32 bits of the length.
unfoldable pub packet_bytes : Packet → Bytes
packet_bytes pkt =
    u32_to_ne_bytes pkt.typ ++ (u32_to_ne_bytes (length pkt.payload % 2 ^ 32) ++ pkt.payload)

-- The u32 that stands in four bytes from index `i` on.
abbrev pub u32_at : Bytes → ℕ → ℕ
u32_at b i =
    u32_from_ne_bytes (get_or b i 0) (get_or b (suc i) 0) (get_or b (suc (suc i)) 0)
      (get_or b (suc (suc (suc i))) 0)

-- The packet taken off the front of `buf`, and what is left in `buf`.
unfoldable pub pop_packet : Bytes → Option Packet × Bytes
pop_packet buf =
    if ltb (length buf) 8
    then (none, buf)
    else let typ = u32_at buf 0 in
      let len = u32_at buf 4 in
      if ltb max_payload len
      then (none, [])
      else if ltb (length buf) (8 + len)
      then (none, buf)
      else (some (record { typ = typ; payload = take len (drop 8 buf) }), drop (8 + len) buf)

-- `while let Some(pkt) = pop_packet(&mut buf) { s = f(s, pkt) }`, with fuel.
unfoldable pub while_packets {ℓ} : {S : Type ℓ} → ℕ → (S → Packet → S) → S → Bytes → S × Bytes
while_packets zero f s buf = (s, buf)
while_packets (suc fuel) f s buf =
    let (popped, rest) = pop_packet buf in
    elim popped [ none ↦ (s, rest) | some pkt ↦ while_packets fuel f (f s pkt) rest ]

-- `Read::read_exact` on a stream that holds these bytes before its end.
unfoldable pub read_exact : ℕ → Bytes → Result (Bytes × Bytes)
read_exact n stream =
    if ltb (length stream) n then err unexpected_eof else ok (take n stream, drop n stream)

-- The packet, and what is left in the stream.
unfoldable pub recv_packet_blocking : Bytes → Result (Packet × Bytes)
recv_packet_blocking stream = do
  hdr ← read_exact 8 stream
  let typ = u32_at hdr.0 0
  let len = u32_at hdr.0 4
  if ltb max_payload len
      then err invalid_data
      else (do body ← read_exact len hdr.1; ok (record { typ = typ; payload = body.0 }, body.1))

unfoldable pub read_u32 : Bytes → Option ℕ
read_u32 bytes = if leb 4 (length bytes) then some (u32_at bytes 0) else none

unfoldable pub read_u64 : Bytes → Option ℕ
read_u64 bytes =
    if leb 8 (length bytes) then some (u32_at bytes 0 + 2 ^ 32 * u32_at bytes 4) else none
