-- ===== src/Protocol/Tests.antt =====
-- Runs of the codec of src/main.rs.
use mathlib.Core.List.{foldl}
use abduco_inline.Prelude.{◌≡◌, refl, [], ◌∷◌, ◌++◌, arith, none}
use abduco_inline.Prelude.Bytes.{Bytes}
use abduco_inline.Protocol.{Packet, packet_bytes, pop_packet}
use abduco_inline.Protocol.Framing.{IsPacket, pop_packet_sound}
use abduco_inline.Protocol.Loop.{nil-Waits}
use abduco_inline.Protocol.Feed.{feed, feed_any_pieces}

abbrev keys : Packet
keys = record { typ = 8; payload = 104 ∷ 105 ∷ [] }

abbrev detach : Packet
detach = record { typ = 2; payload = [] }

abbrev keys_bytes : Bytes
keys_bytes = 8 ∷ 0 ∷ 0 ∷ 0 ∷ 2 ∷ 0 ∷ 0 ∷ 0 ∷ 104 ∷ 105 ∷ []

-- Appends the payload.
abbrev gather : Bytes → Packet → Bytes
gather out pkt = out ++ pkt.payload

layout : packet_bytes keys ≡ keys_bytes
unfolding packet_bytes
layout = refl

oversized_header_clears_buffer : pop_packet (0 ∷ 0 ∷ 0 ∷ 0 ∷ 249 ∷ 15 ∷ 0 ∷ 0 ∷ 7 ∷ []) ≡ (none, [])
unfolding pop_packet
oversized_header_clears_buffer = refl

half_packet_waits :
    pop_packet (8 ∷ 0 ∷ 0 ∷ 0 ∷ 2 ∷ 0 ∷ 0 ∷ 0 ∷ 104 ∷ [])
    ≡ (none, 8 ∷ 0 ∷ 0 ∷ 0 ∷ 2 ∷ 0 ∷ 0 ∷ 0 ∷ 104 ∷ [])
unfolding pop_packet
half_packet_waits = refl

pop_packet_sound_example : IsPacket keys × (keys_bytes ≡ packet_bytes keys ++ [])
unfolding pop_packet
pop_packet_sound_example = pop_packet_sound keys_bytes keys [] (omega arith) refl

-- Two packets in three pieces, cut in the middle of both.
feed_any_pieces_example :
    feed gather [] [] (
      (8 ∷ 0 ∷ 0 ∷ [])
      ∷ (0 ∷ 2 ∷ 0 ∷ 0 ∷ 0 ∷ 104 ∷ 105 ∷ 2 ∷ [])
      ∷ (0 ∷ 0 ∷ 0 ∷ 0 ∷ 0 ∷ 0 ∷ 0 ∷ [])
      ∷ [])
    ≡ (foldl gather [] (keys ∷ detach ∷ []), [])
unfolding packet_bytes
feed_any_pieces_example =
    feed_any_pieces gather (keys ∷ detach ∷ [])
      ((8 ∷ 0 ∷ 0 ∷ [])
        ∷ (0 ∷ 2 ∷ 0 ∷ 0 ∷ 0 ∷ 104 ∷ 105 ∷ 2 ∷ [])
        ∷ (0 ∷ 0 ∷ 0 ∷ 0 ∷ 0 ∷ 0 ∷ 0 ∷ [])
        ∷ [])
      [] [] (omega arith, (omega arith, tt)) nil-Waits refl
