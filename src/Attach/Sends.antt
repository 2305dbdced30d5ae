-- ===== src/Attach/Sends.antt =====
-- What the sends of the attach client in src/main.rs put on the wire.
use abduco_inline.Prelude.{
  ◌≡◌, false, refl, sym, ap, ◌∙◌, List, [], ◌∷◌, ◌++◌, append-nil, append_assoc, All, All-append,
  Result, ok, err,
}
use abduco_inline.Prelude.Bytes.{Bytes}
use abduco_inline.Protocol.{Packet, packet_bytes}
use abduco_inline.Protocol.Framing.{IsPacket}
use abduco_inline.Server.Packets.{is_input}
use abduco_inline.Protocol.Loop.{encode_all, encode_all-append}
use abduco_inline.Stream.{Stream, write_loop, send_packet_blocking}
use abduco_inline.Stream.Writing.{Wrote, write_loop-Wrote, wire-send_packet_blocking}
use abduco_inline.Attach.{Terminal, Progress, again, returned, send_then, print}

-- What stands on the wire behind `base` is a sequence of well-formed packets, none of which the server
-- takes as input for the pty; the bytes `lost` at its end are not sent.
pub record SendsNoInput (base : Bytes) (s : Terminal) : Type 0 where
  pub packets : List Packet
  pub lost : Bytes
  pub parts : s.stream.wire ++ lost ≡ base ++ encode_all packets
  pub valid : All IsPacket packets
  pub no_input : All (λ p. is_input p ≡ false) packets

-- The same with nothing lost.
pub record Whole (base : Bytes) (s : Terminal) : Type 0 where
  pub packets : List Packet
  pub wire : s.stream.wire ≡ base ++ encode_all packets
  pub valid : All IsPacket packets
  pub no_input : All (λ p. is_input p ≡ false) packets

-- As long as the loop goes on, the packets are whole.
abbrev pub Goes : Bytes → Progress → Type 0
Goes base (again s) = Whole base s
Goes base (returned r s) = SendsNoInput base s

pub stops : (base : Bytes) (s : Terminal) → Whole base s → SendsNoInput base s
stops base s w = record {
  packets = w.packets;
  lost = [];
  parts = append-nil s.stream.wire ∙ w.wire;
  valid = w.valid;
  no_input = w.no_input;
}

-- The packet that a send adds.
pub adds :
    (base : Bytes) (s : Terminal) (pkt : Packet) (stream : Stream) (lost : Bytes)
    → IsPacket pkt
    → is_input pkt ≡ false
    → Whole base s
    → stream.wire ++ lost ≡ s.stream.wire ++ packet_bytes pkt
    → SendsNoInput base (record s { stream = stream })
adds base s pkt stream lost v ne w e = record {
  packets = w.packets ++ pkt ∷ [];
  lost = lost;
  parts =
      e
      ∙ ap (λ (b : Bytes). b ++ packet_bytes pkt) w.wire
      ∙ append_assoc base (encode_all w.packets) (packet_bytes pkt)
      ∙ ap (◌++◌ base) (
          ap (◌++◌ (encode_all w.packets)) (sym (append-nil (packet_bytes pkt)))
          ∙ sym (encode_all-append w.packets (pkt ∷ [])));
  valid = All-append IsPacket w.packets (pkt ∷ []) w.valid (v, tt);
  no_input = All-append (λ p. is_input p ≡ false) w.packets (pkt ∷ []) w.no_input (ne, tt);
}

pub send_front :
    (s : Stream) (pkt : Packet)
    → Wrote (packet_bytes pkt) s.wire (write_loop s.writes (packet_bytes pkt) s.wire)
    → (lost : Bytes) × ((send_packet_blocking s pkt).1.wire ++ lost ≡ s.wire ++ packet_bytes pkt)
unfolding send_packet_blocking
send_front s pkt w = (
  w.lost,
  ap (λ (b : Bytes). b ++ w.lost) w.taken
      ∙ append_assoc s.wire w.sent w.lost
      ∙ ap (◌++◌ (s.wire)) w.parts,
)

then_Goes :
    (base : Bytes) (s : Terminal) (pkt : Packet) (next : Terminal → Progress)
    (out : Result (Unit {0}) × Stream) (lost : Bytes)
    → IsPacket pkt
    → is_input pkt ≡ false
    → Whole base s
    → out.1.wire ++ lost ≡ s.stream.wire ++ packet_bytes pkt
    → (out.0 ≡ ok tt → out.1.wire ≡ s.stream.wire ++ packet_bytes pkt)
    → ((s' : Terminal) → Whole base s' → Goes base (next s'))
    → Goes base (elim out.0 [
      | ok _ ↦ next (record s { stream = out.1 })
      | err e ↦ returned (err e) (record s { stream = out.1 })
    ])
unfolding adds
then_Goes base s pkt next (ok u, stream) lost v ne w e sent later =
    let all = adds base s pkt stream [] v ne w (append-nil stream.wire ∙ sent refl) in
    later _ (record {
      packets = all.packets;
      wire = sym (append-nil stream.wire) ∙ all.parts;
      valid = all.valid;
      no_input = all.no_input;
    })
then_Goes base s pkt next (err e', stream) lost v ne w e sent later =
    adds base s pkt stream lost v ne w e

pub send_then-Goes :
    (base : Bytes) (s : Terminal) (pkt : Packet) (next : Terminal → Progress)
    → IsPacket pkt
    → is_input pkt ≡ false
    → Whole base s
    → ((s' : Terminal) → Whole base s' → Goes base (next s'))
    → Goes base (send_then s pkt next)
unfolding send_then
send_then-Goes base s pkt next v ne w later =
    let (lost, e) = send_front s.stream pkt (write_loop-Wrote s.stream.writes _ s.stream.wire) in
    then_Goes base s pkt next (send_packet_blocking s.stream pkt) lost v ne w e
      (wire-send_packet_blocking s.stream pkt) later

printed-Goes :
    (base : Bytes) (s : Terminal) (stdout : Stream) (result : Result (Unit {0}))
    → Whole base s
    → let s' : Terminal = record s { stdout = stdout } in
      Goes base (elim result [ ok _ ↦ again s' | err e ↦ returned (err e) s' ])
printed-Goes base s stdout (ok u) v = record {
  packets = v.packets;
  wire = v.wire;
  valid = v.valid;
  no_input = v.no_input;
}
printed-Goes base s stdout (err e) v = record {
  packets = v.packets;
  lost = [];
  parts = append-nil s.stream.wire ∙ v.wire;
  valid = v.valid;
  no_input = v.no_input;
}

pub print-Goes : (base bytes : Bytes) (s : Terminal) → Whole base s → Goes base (print bytes s)
unfolding print
print-Goes base bytes s w =
    printed-Goes base s _ (write_loop s.stdout.writes bytes s.stdout.wire).result w
