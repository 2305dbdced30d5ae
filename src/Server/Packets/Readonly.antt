-- ===== src/Server/Packets/Readonly.antt =====
-- The read-only flag of a client (`MSG_ATTACH`, `CLIENT_READONLY` in src/main.rs).
use mathlib.Core.List.{foldl}
use abduco_inline.Prelude.{
  ℕ, ◌^◌, ◌<◌, ◌≡◌, refl, ap, ◌∙◌, List, [], ◌∷◌, true, false, ◌==◌, arith, All, ◌≢◌, bit_and,
}
use abduco_inline.Prelude.Bytes.{u32_to_ne_bytes, from-to_ne_bytes}
use abduco_inline.Protocol.{Packet, msg_attach, read_u32}
use abduco_inline.Protocol.Framing.{IsPacket}
use abduco_inline.Protocol.Loop.{encode_all}
use abduco_inline.History.{History}
use abduco_inline.Server.Client.{Client}
use abduco_inline.Server.Client.Outbound.Replay.{state-send_history}
use abduco_inline.Server.Packets.{
  Pty, resize, may_write, attach, dump, handle_packet, handle_packets, client_readonly,
}
use abduco_inline.Server.Packets.Input.{handle_packets-encode_all}

pub flags-dump : (now : ℕ) (c : Client) (h : History) → (dump now c h).flags ≡ c.flags
unfolding dump
flags-dump now c h = ground (arith, state-send_history c h true)

-- What a client that may not write leaves as it was.
record IsSpared (pty : Pty) (s : Client × Pty) : Type 0 where
  readonly : may_write s.0 ≡ false
  written : s.1.written ≡ pty.written
  writes : s.1.writes ≡ pty.writes

handle_packet-IsSpared :
    (now : ℕ) (h : History) (pty : Pty) (s : Client × Pty) (pkt : Packet)
    → pkt.typ ≢ msg_attach
    → IsSpared pty s
    → IsSpared pty (handle_packet now h s pkt)
unfolding handle_packet resize
handle_packet-IsSpared now h pty (c, p) pkt ne v = ground (arith, flags-dump now c h)

foldl-IsSpared :
    (now : ℕ) (h : History) (pty : Pty) (ps : List Packet) (s : Client × Pty)
    → All (λ p. p.typ ≢ msg_attach) ps
    → IsSpared pty s
    → IsSpared pty (foldl (handle_packet now h) s ps)
foldl-IsSpared now h pty [] s ne v = v
foldl-IsSpared now h pty (p ∷ ps) s (n, ne) v =
    foldl-IsSpared now h pty ps _ ne (handle_packet-IsSpared now h pty s p n v)

abbrev pub attach_packet : ℕ → Packet
attach_packet flags = record { typ = msg_attach; payload = u32_to_ne_bytes flags }

-- The attach request sets the client's flags to the u32 that it carries.
pub flags-attach :
    (c : Client) (h : History) (flags : ℕ)
    → flags < 2 ^ 32
    → (attach c h (u32_to_ne_bytes flags)).flags ≡ flags
unfolding attach read_u32
flags-attach c h flags lt = (state-send_history _ h false).0 ∙ from-to_ne_bytes flags lt

attach-IsSpared :
    (now : ℕ) (h : History) (c : Client) (pty : Pty) (flags : ℕ)
    → flags < 2 ^ 32
    → (bit_and flags client_readonly == 0) ≡ false
    → IsSpared pty (handle_packet now h (c, pty) (attach_packet flags))
unfolding handle_packet
attach-IsSpared now h c pty flags lt ro = record {
  readonly = rw (flags-attach c h flags lt) ro;
  written = refl;
  writes = refl;
}

-- A client that attaches with the read-only flag and does not attach again writes nothing to the
-- pty, whatever other well-formed packets it sends behind the attach request.
pub readonly_client_writes_nothing :
    (now : ℕ) (h : History) (c : Client) (pty : Pty) (flags : ℕ) (ps : List Packet)
    → c.buf ≡ encode_all (attach_packet flags ∷ ps)
    → All IsPacket ps
    → All (λ p. p.typ ≢ msg_attach) ps
    → flags < 2 ^ 32
    → (bit_and flags client_readonly == 0) ≡ false
    → let pty' = (handle_packets now h c pty).1 in
      (pty'.written ≡ pty.written) × (pty'.writes ≡ pty.writes)
readonly_client_writes_nothing now h c pty flags ps e v ne lt ro =
    let valid : IsPacket (attach_packet flags) = omega arith in
    let same = handle_packets-encode_all now h c pty (attach_packet flags ∷ ps) (valid, v) e in
    let spared = foldl-IsSpared now h pty ps _ ne (attach-IsSpared now h c pty flags lt ro) in
    (
      ap (λ (p : Pty). p.written) same ∙ spared.written,
      ap (λ (p : Pty). p.writes) same ∙ spared.writes,
    )
