-- ===== src/Server/Packets/Input.antt =====
-- What a client's packets do to the pty in `read_client_packets` of src/main.rs.
use mathlib.Core.List.{foldl}
use abduco_inline.Prelude.{
  ℕ, ◌≡◌, refl, sym, ap, ◌∙◌, List, [], append-nil, length, true, arith, All,
}
use abduco_inline.Prelude.Bytes.{Bytes}
use abduco_inline.Protocol.{Packet, while_packets}
use abduco_inline.Protocol.Framing.{IsPacket}
use abduco_inline.Protocol.Loop.{
  encode_all, nil-Waits, while_packets-keeps, while_packets-encode_all,
}
use abduco_inline.History.{History}
use abduco_inline.Stream.{ReadEnd, blocked, saw_eof, broken, read_loop}
use abduco_inline.Server.Client.{Client}
use abduco_inline.Server.Packets.{
  Pty, fd_write_all, resize, handle_packet, handle_packets, read_client_packets,
}

-- What writes and resizes of the pty keep, every packet of a client keeps.
module _ (P : Pty → Type 0)
    (written : (pty : Pty) (buf : Bytes) → P pty → P (fd_write_all pty buf).1)
    (resized : (pty : Pty) (buf : Bytes) → P pty → P (resize pty buf)) where
  handle_packet-pty :
      (now : ℕ) (h : History) (c : Client) (pty : Pty) (pkt : Packet)
      → P pty
      → P (handle_packet now h (c, pty) pkt).1
  unfolding handle_packet
  handle_packet-pty now h c pty pkt v =
      ground (arith, v, written pty pkt.payload v, resized pty pkt.payload v)

  handle_packets-pty :
      (now : ℕ) (h : History) (c : Client) (pty : Pty) → P pty → P (handle_packets now h c pty).1
  unfolding handle_packets
  handle_packets-pty now h c pty v =
      while_packets-keeps (handle_packet now h) (λ (s : Client × Pty). P s.1)
        (λ s p before. handle_packet-pty now h s.0 s.1 p before) (length c.buf) (c, pty) c.buf v

  end-pty :
      (now : ℕ) (h : History) (c : Client) (pty : Pty) (end_ : ReadEnd)
      → P pty
      → let out : Client × Pty = elim end_ [
        | broken ↦ (record c { disconnected = true }, pty)
        | blocked ↦ handle_packets now h c pty
        | saw_eof ↦
            (let (c', pty') = handle_packets now h c pty in
              (record c' { disconnected = true }, pty'))
      ] in
        P out.1
  end-pty now h c pty broken v = v
  end-pty now h c pty blocked v = handle_packets-pty now h c pty v
  end-pty now h c pty saw_eof v = handle_packets-pty now h c pty v

  pub read_client_packets-pty :
      (now : ℕ) (h : History) (c : Client) (pty : Pty)
      → P pty
      → P (read_client_packets now h c pty).1
  unfolding read_client_packets
  read_client_packets-pty now h c pty v =
      let r = read_loop c.stream.reads c.buf in
      end-pty now h (record c { stream = record (c.stream) { reads = r.reads }; buf = r.buf }) pty
        r.end_ v

-- Reading a client never reads the pty.
pub reads-read_client_packets :
    (now : ℕ) (h : History) (c : Client) (pty : Pty)
    → (read_client_packets now h c pty).1.reads ≡ pty.reads
unfolding fd_write_all resize
reads-read_client_packets now h c pty =
    read_client_packets-pty (λ (p : Pty). p.reads ≡ pty.reads) (λ p buf e. e) (λ p buf e. e) now h c
      pty refl

-- The loop over a buffer of whole packets handles them in their order, and empties the buffer.
pub handle_packets-whole :
    (now : ℕ) (h : History) (c : Client) (pty : Pty) (ps : List Packet)
    → All IsPacket ps
    → c.buf ≡ encode_all ps
    → let after = foldl (handle_packet now h) (c, pty) ps in
      handle_packets now h c pty ≡ (record (after.0) { buf = [] }, after.1)
unfolding handle_packets
handle_packets-whole now h c pty ps v e =
    let full = e ∙ sym (append-nil (encode_all ps)) in
    ap {B = Client × Pty} (λ (t : (Client × Pty) × Bytes). (record (t.0.0) { buf = t.1 }, t.0.1))
      (ap (while_packets (length c.buf) (handle_packet now h) (c, pty)) full
        ∙ while_packets-encode_all (handle_packet now h) ps (length c.buf) (c, pty) [] v nil-Waits
            (omega (arith, ap (length {A = ℕ}) full)))

pub handle_packets-encode_all :
    (now : ℕ) (h : History) (c : Client) (pty : Pty) (ps : List Packet)
    → All IsPacket ps
    → c.buf ≡ encode_all ps
    → (handle_packets now h c pty).1 ≡ (foldl (handle_packet now h) (c, pty) ps).1
handle_packets-encode_all now h c pty ps v e =
    ap (λ (t : Client × Pty). t.1) (handle_packets-whole now h c pty ps v e)
