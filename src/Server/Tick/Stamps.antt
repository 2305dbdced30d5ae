-- ===== src/Server/Tick/Stamps.antt =====
-- When a client of `server_loop` in src/main.rs is to be closed: `close_after_drain` through the
-- parts of a round.
use abduco_inline.Prelude.{
  ℕ, ◌≡◌, refl, sym, subst, List, [], ◌∷◌, true, false, if◌then◌else◌, Option, none, some, is_none,
  arith, All, Bool-cases, length, inl, inr, IoError,
}
use abduco_inline.Prelude.Bytes.{Bytes}
use abduco_inline.Protocol.{Packet}
use abduco_inline.Protocol.Loop.{while_packets-keeps}
use abduco_inline.History.{History}
use abduco_inline.Stream.{
  ReadEnd, blocked, saw_eof, broken, read_loop, ReadAnswer, read_ok, read_failed,
}
use abduco_inline.Server.Client.{Client, broadcast_to, broadcast_content}
use abduco_inline.Server.Client.Outbound.Replay.{
  state-send_history, broadcast_to-Replays, broadcast_to-detached,
}
use abduco_inline.Server.Packets.{
  Pty, attach, dump, handle_packet, handle_packets, read_client_packets,
}
use abduco_inline.Server.Tick.{Server, pump, read_all}

close-broadcast_to :
    (bytes : Bytes) (c : Client) → (broadcast_to bytes c).close_after_drain ≡ c.close_after_drain
close-broadcast_to bytes c = elim (Bool-cases c.attached) [
  | inl on ↦ (broadcast_to-Replays bytes c on).sends.close_after_drain
  | inr off ↦
      subst (λ (d : Client). d.close_after_drain ≡ c.close_after_drain)
        (sym (broadcast_to-detached bytes c off)) refl
]

close-attach :
    (c : Client) (h : History) (payload : Bytes)
    → (attach c h payload).close_after_drain ≡ c.close_after_drain
unfolding attach
close-attach c h payload = (state-send_history _ h false).1

pub close-dump :
    (now : ℕ) (c : Client) (h : History)
    → (dump now c h).close_after_drain
      ≡ (if is_none c.close_after_drain then some now else c.close_after_drain)
unfolding dump
close-dump now c h = ground (arith, (state-send_history c h true).1)

-- A predicate on the stamp that a dump request at `now` keeps.
module _ (P : Option ℕ → Type 0) (now : ℕ) (stamped : P none → P (some now)) where
  abbrev Keeps : Client → Type 0
  Keeps c = P c.close_after_drain

  stamp-keeps : (o : Option ℕ) → P o → P (if is_none o then some now else o)
  stamp-keeps none p = stamped p
  stamp-keeps (some t) p = p

  handle_packet-Keeps :
      (h : History) (s : Client × Pty) (pkt : Packet)
      → Keeps s.0
      → Keeps (handle_packet now h s pkt).0
  unfolding handle_packet
  handle_packet-Keeps h (c, pty) pkt p =
      let attached = subst P (sym (close-attach c h pkt.payload)) p in
      let dumped = subst P (sym (close-dump now c h)) (stamp-keeps c.close_after_drain p) in
      ground (arith, p, attached, dumped)

  handle_packets-Keeps :
      (h : History) (c : Client) (pty : Pty) → Keeps c → Keeps (handle_packets now h c pty).0
  unfolding handle_packets
  handle_packets-Keeps h c pty p =
      while_packets-keeps (handle_packet now h) (λ (s : Client × Pty). Keeps s.0)
        (λ s pkt q. handle_packet-Keeps h s pkt q) (length c.buf) (c, pty) c.buf p

  read_end-Keeps :
      (h : History) (c : Client) (pty : Pty) (end_ : ReadEnd)
      → Keeps c
      → let out : Client × Pty = elim end_ [
        | broken ↦ (record c { disconnected = true }, pty)
        | blocked ↦ handle_packets now h c pty
        | saw_eof ↦
            (let (c', pty') = handle_packets now h c pty in
              (record c' { disconnected = true }, pty'))
      ] in
        Keeps out.0
  read_end-Keeps h c pty broken p = p
  read_end-Keeps h c pty blocked p = handle_packets-Keeps h c pty p
  read_end-Keeps h c pty saw_eof p = handle_packets-Keeps h c pty p

  pub read_all-keeps :
      (h : History) (cs : List Client) (pty : Pty)
      → All (λ c. P c.close_after_drain) cs
      → All (λ c. P c.close_after_drain) (read_all now h cs pty).0
  unfolding read_all read_client_packets
  read_all-keeps h [] pty ps = tt
  read_all-keeps h (c ∷ cs) pty (p, ps) =
      let r = read_loop c.stream.reads c.buf in
      (
        read_end-Keeps h (record c { stream = record (c.stream) { reads = r.reads }; buf = r.buf })
            pty r.end_ p,
        read_all-keeps h cs _ ps,
      )

module _ (P : Option ℕ → Type 0) where
  broadcast_content-keeps :
      (cs : List Client) (bytes : Bytes)
      → All (λ c. P c.close_after_drain) cs
      → All (λ c. P c.close_after_drain) (broadcast_content cs bytes)
  unfolding broadcast_content
  broadcast_content-keeps [] bytes ps = tt
  broadcast_content-keeps (c ∷ cs) bytes (p, ps) =
      (subst P (sym (close-broadcast_to bytes c)) p, broadcast_content-keeps cs bytes ps)

  pub pump-keeps :
      (rs : List ReadAnswer) (s : Server)
      → All (λ c. P c.close_after_drain) s.clients
      → All (λ c. P c.close_after_drain) (pump rs s).clients
  unfolding pump
  pump-keeps [] s ps = ps
  pump-keeps (read_ok [] ∷ rs) s ps = ps
  pump-keeps (read_ok (b ∷ bs) ∷ rs) s ps =
      pump-keeps rs _ (broadcast_content-keeps s.clients (b ∷ bs) ps)
  pump-keeps (read_failed IoError.interrupted ∷ rs) s ps = pump-keeps rs s ps
  pump-keeps (read_failed e ∷ rs) s ps = ps

pub child_exit-pump : (rs : List ReadAnswer) (s : Server) → (pump rs s).child_exit ≡ s.child_exit
unfolding pump
child_exit-pump [] s = refl
child_exit-pump (read_ok [] ∷ rs) s = refl
child_exit-pump (read_ok (b ∷ bs) ∷ rs) s = child_exit-pump rs _
child_exit-pump (read_failed IoError.interrupted ∷ rs) s = child_exit-pump rs s
child_exit-pump (read_failed e ∷ rs) s = refl
