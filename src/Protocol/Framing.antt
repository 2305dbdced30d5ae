-- ===== src/Protocol/Framing.antt =====
-- The codec of src/main.rs: `packet_bytes` against `pop_packet` and `recv_packet_blocking`.
use abduco_inline.Prelude.{
  ℕ, ◌+◌, ◌^◌, ◌≤◌, ◌<◌, ◌≡◌, refl, [], ◌∷◌, ◌++◌, some, length, take, drop, arith, All,
  take-append, drop-append, drop-drop, take-append-drop, length-append, length-take, length-drop,
  ok,
}
use abduco_inline.Prelude.Bytes.{Bytes, IsByte, u32_from_ne_bytes, from-to_ne_bytes}
use abduco_inline.Protocol.{
  Packet, packet_bytes, pop_packet, read_exact, recv_packet_blocking, u32_at, max_payload,
}

-- What the program sends: a u32 type, and a payload that the receiver accepts.
pub record IsPacket (p : Packet) : Type 0 where
  pub typ_fits : p.typ < 2 ^ 32
  pub payload_fits : length p.payload ≤ max_payload

pub length-packet_bytes : (p : Packet) → length (packet_bytes p) ≡ 8 + length p.payload
unfolding packet_bytes
length-packet_bytes p = omega arith

typ-packet_bytes :
    (p : Packet) (rest : Bytes) → IsPacket p → u32_at (packet_bytes p ++ rest) 0 ≡ p.typ
unfolding packet_bytes
typ-packet_bytes p rest h = omega arith

pub len-packet_bytes :
    (p : Packet) (rest : Bytes) → IsPacket p → u32_at (packet_bytes p ++ rest) 4 ≡ length p.payload
unfolding packet_bytes
len-packet_bytes p rest h = omega arith

drop-packet_bytes :
    (p : Packet) (rest : Bytes) → drop 8 (packet_bytes p ++ rest) ≡ p.payload ++ rest
unfolding packet_bytes
drop-packet_bytes p rest = refl

-- A packet at the front of the buffer is popped as it was written, and what follows it is left.
pub pop_packet-packet_bytes :
    (p : Packet) (rest : Bytes) → IsPacket p → pop_packet (packet_bytes p ++ rest) ≡ (some p, rest)
unfolding pop_packet
pop_packet-packet_bytes p rest h = ground (
  arith,
  length-append (packet_bytes p) rest,
  length-packet_bytes p,
  typ-packet_bytes p rest h,
  len-packet_bytes p rest h,
  drop-packet_bytes p rest,
  take-append (length p.payload) p.payload rest refl,
  drop-append (8 + length p.payload) (packet_bytes p) rest,
)

-- A blocking receive reads a packet as it was written, and leaves the stream behind it.
pub recv_packet_blocking-packet_bytes :
    (p : Packet) (rest : Bytes)
    → IsPacket p
    → recv_packet_blocking (packet_bytes p ++ rest) ≡ ok (p, rest)
unfolding recv_packet_blocking read_exact packet_bytes
recv_packet_blocking-packet_bytes p rest h = ground (
  arith,
  h.typ_fits,
  length-append p.payload rest,
  from-to_ne_bytes p.typ,
  from-to_ne_bytes (length p.payload),
  take-append (length p.payload) p.payload rest refl,
  drop-append (length p.payload) p.payload rest,
)

-- A pop of a packet takes at least its header off the buffer.
pub pop_packet_shrinks :
    (buf : Bytes) (p : Packet) (rest : Bytes)
    → pop_packet buf ≡ (some p, rest)
    → length rest + 8 ≤ length buf
unfolding pop_packet
pop_packet_shrinks buf p rest h = ground (arith, length-drop (8 + u32_at buf 4) buf)

header_sound :
    (a b c d e f g h : ℕ) (body : Bytes)
    → All IsByte (a ∷ b ∷ c ∷ d ∷ e ∷ f ∷ g ∷ h ∷ [])
    → u32_from_ne_bytes e f g h ≤ length body
    → let len = u32_from_ne_bytes e f g h in
      a ∷ b ∷ c ∷ d ∷ e ∷ f ∷ g ∷ h ∷ body
      ≡ packet_bytes (record { typ = u32_from_ne_bytes a b c d; payload = take len body })
        ++ drop len body
unfolding packet_bytes
header_sound a b c d e f g h body bytes fits = ground (
  arith,
  length-take (u32_from_ne_bytes e f g h) body,
  take-append-drop (u32_from_ne_bytes e f g h) body,
)

-- What is popped from a buffer of bytes is well formed, and writing it back in front of what is
-- left gives the buffer.
pub pop_packet_sound :
    (buf : Bytes) (p : Packet) (rest : Bytes)
    → All IsByte buf
    → pop_packet buf ≡ (some p, rest)
    → IsPacket p × (buf ≡ packet_bytes p ++ rest)
unfolding pop_packet
pop_packet_sound (a ∷ b ∷ c ∷ d ∷ e ∷ f ∷ g ∷ h ∷ body) p rest bytes popped = ground (
  arith,
  header_sound a b c d e f g h body,
  length-take (u32_from_ne_bytes e f g h) body,
  drop-drop 8 (u32_from_ne_bytes e f g h) (8 + u32_from_ne_bytes e f g h)
      (a ∷ b ∷ c ∷ d ∷ e ∷ f ∷ g ∷ h ∷ body) refl,
)
pop_packet_sound _ p rest bytes popped = ground arith
