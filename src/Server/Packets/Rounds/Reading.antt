-- ===== src/Server/Packets/Rounds/Reading.antt =====
-- The reads of a client in one round of `server_loop` in src/main.rs, however its connection cuts the
-- stream of its packets.
use mathlib.Core.List.{foldl}
use abduco_inline.Prelude.{
  ℕ, ◌+◌, ◌≤◌, ◌≡◌, refl, sym, ap, ◌∙◌, subst, List, [], ◌∷◌, ◌++◌, append_assoc, All, true, inl,
  inr, ◌⊎◌, arith, IoError, Bool,
}
use abduco_inline.Prelude.Bytes.{Bytes}
use abduco_inline.Protocol.{Packet}
use abduco_inline.Protocol.Framing.{IsPacket}
use abduco_inline.Protocol.Feed.{Divides, while_packets-Divides}
use abduco_inline.History.{History}
use abduco_inline.Stream.{ReadSoFar, ReadAnswer, read_ok, read_failed, read_loop, blocked, saw_eof}
use abduco_inline.Server.Client.{Client}
use abduco_inline.Server.Packets.{Pty, handle_packet, handle_packets, read_client_packets}

-- A connection that does not break: pieces of the stream come, in between a read would block or is
-- interrupted, and its end comes at most once, behind them.
abbrev pub IsIntact : List ReadAnswer → Type 0
IsIntact [] = Unit
IsIntact (read_ok [] ∷ rs) = rs ≡ []
IsIntact (read_ok (b ∷ bs) ∷ rs) = IsIntact rs
IsIntact (read_failed IoError.would_block ∷ rs) = IsIntact rs
IsIntact (read_failed IoError.interrupted ∷ rs) = IsIntact rs
IsIntact (read_failed e ∷ rs) = ⊥

abbrev pub data_of : List ReadAnswer → Bytes
data_of [] = []
data_of (read_ok d ∷ rs) = d ++ data_of rs
data_of (read_failed e ∷ rs) = data_of rs

-- How often a read would block.
abbrev pub pauses : List ReadAnswer → ℕ
pauses [] = 0
pauses (read_failed IoError.would_block ∷ rs) = 1 + pauses rs
pauses (a ∷ rs) = pauses rs

-- What the reads of a round leave: no data is lost, and there is a pause less, or nothing more to come.
pub record Takes (rs : List ReadAnswer) (buf : Bytes) (r : ReadSoFar) : Type 0 where
  pub end_ : (r.end_ ≡ blocked) ⊎ (r.end_ ≡ saw_eof)
  pub later : IsIntact r.reads
  pub bytes : r.buf ++ data_of r.reads ≡ buf ++ data_of rs
  pub pause : (1 + pauses r.reads ≤ pauses rs) ⊎ (r.reads ≡ [])

pub read_loop-Takes :
    (rs : List ReadAnswer) (buf : Bytes) → IsIntact rs → Takes rs buf (read_loop rs buf)
unfolding read_loop
read_loop-Takes [] buf a = record { end_ = inl refl; later = tt; bytes = refl; pause = inr refl }
read_loop-Takes (read_ok [] ∷ rs) buf a = record {
  end_ = inr refl;
  later = subst IsIntact (sym a) tt;
  bytes = refl;
  pause = inr a;
}
read_loop-Takes (read_ok (b ∷ bs) ∷ rs) buf a =
    let t = read_loop-Takes rs (buf ++ b ∷ bs) a in
    record {
      end_ = t.end_;
      later = t.later;
      bytes = t.bytes ∙ append_assoc buf (b ∷ bs) (data_of rs);
      pause = t.pause;
    }
read_loop-Takes (read_failed IoError.would_block ∷ rs) buf a = record {
  end_ = inl refl;
  later = a;
  bytes = refl;
  pause = inl (omega arith);
}
read_loop-Takes (read_failed IoError.interrupted ∷ rs) buf a =
    let t = read_loop-Takes rs buf a in
    record { end_ = t.end_; later = t.later; bytes = t.bytes; pause = t.pause }
read_loop-Takes (read_failed IoError.write_zero ∷ rs) buf a = absurd a
read_loop-Takes (read_failed IoError.unexpected_eof ∷ rs) buf a = absurd a
read_loop-Takes (read_failed IoError.invalid_data ∷ rs) buf a = absurd a
read_loop-Takes (read_failed IoError.invalid_input ∷ rs) buf a = absurd a
read_loop-Takes (read_failed IoError.not_found ∷ rs) buf a = absurd a
read_loop-Takes (read_failed IoError.connection_refused ∷ rs) buf a = absurd a
read_loop-Takes (read_failed IoError.addr_in_use ∷ rs) buf a = absurd a
read_loop-Takes (read_failed IoError.other ∷ rs) buf a = absurd a

-- The client with what has been read.
abbrev pub taken : Client → ReadSoFar → Client
taken c r = record c { stream = record (c.stream) { reads = r.reads }; buf = r.buf }

-- Where the reads end without an error, what has come is handled, and the client is lost or not.
read_client_packets-ends :
    (now : ℕ) (h : History) (c : Client) (pty : Pty)
    → let r = read_loop c.stream.reads c.buf in
      (r.end_ ≡ blocked) ⊎ (r.end_ ≡ saw_eof)
      → (lost : Bool) × (read_client_packets now h c pty ≡ (
        record ((handle_packets now h (taken c r) pty).0) { disconnected = lost },
        (handle_packets now h (taken c r) pty).1,
      ))
unfolding read_client_packets
read_client_packets-ends now h c pty (inl e) = (
  (handle_packets now h (taken c (read_loop c.stream.reads c.buf)) pty).0.disconnected,
  ground (arith, e),
)
read_client_packets-ends now h c pty (inr e) = (true, ground (arith, e))

handle_packets-Divides :
    (now : ℕ) (h : History) (c : Client) (pty : Pty) (ps : List Packet) (rest : Bytes)
    (d : Divides ps c.buf rest)
    → All IsPacket ps
    → let s = foldl (handle_packet now h) (c, pty) d.whole in
      handle_packets now h c pty ≡ (record (s.0) { buf = d.tail }, s.1)
unfolding handle_packets
handle_packets-Divides now h c pty ps rest d v =
    ap {B = Client × Pty} (λ (t : (Client × Pty) × Bytes). (record (t.0.0) { buf = t.1 }, t.0.1))
      (while_packets-Divides (handle_packet now h) ps (c, pty) c.buf rest d v)

-- A round of the client: the whole packets that have come are handled, and the rest waits.
pub read_client_packets-Divides :
    (now : ℕ) (h : History) (c : Client) (pty : Pty) (ps : List Packet)
    (d : Divides ps
      (read_loop c.stream.reads c.buf).buf
      (data_of (read_loop c.stream.reads c.buf).reads))
    → Takes c.stream.reads c.buf (read_loop c.stream.reads c.buf)
    → All IsPacket ps
    → let c1 = taken c (read_loop c.stream.reads c.buf) in
      let s = foldl (handle_packet now h) (c1, pty) d.whole in
      (lost : Bool) × (read_client_packets now h c pty
        ≡ (record (s.0) { buf = d.tail; disconnected = lost }, s.1))
read_client_packets-Divides now h c pty ps d t v =
    let c1 = taken c (read_loop c.stream.reads c.buf) in
    let (lost, e) = read_client_packets-ends now h c pty t.end_ in
    (
      lost,
      e
          ∙ ap {B = Client × Pty}
              (λ (u : Client × Pty). (record (u.0) { disconnected = lost }, u.1))
              (handle_packets-Divides now h c1 pty ps _ d v),
    )

pub later-nil : (whole later : List Packet) → [] ≡ whole ++ later → later ≡ []
later-nil [] later e = sym e
later-nil (p ∷ whole) later e = cc
