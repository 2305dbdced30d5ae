-- ===== src/Server/Tick/Frames.antt =====
-- The outbound streams of the clients through the parts of a round of `server_loop` in
-- src/main.rs.
use abduco_inline.Prelude.{
  ℕ, ◌≤◌, ◌≡◌, sym, ap, ◌∙◌, subst, List, [], ◌∷◌, ◌++◌, length, arith, All, All-append, Bool-cases,
  inl, inr,
}
use abduco_inline.Prelude.Bytes.{Bytes}
use abduco_inline.Protocol.{Packet, max_payload}
use abduco_inline.Protocol.Framing.{IsPacket}
use abduco_inline.Protocol.Loop.{encode_all, encode_all-append}
use abduco_inline.History.{History}
use abduco_inline.Stream.{ReadAnswer, read_ok, read_failed}
use abduco_inline.Server.Client.{Client, broadcast_to, broadcast_content, content, send_queue_cap}
use abduco_inline.Server.Client.Outbound.{committed, try_flush_client-Sends}
use abduco_inline.Server.Client.Outbound.Replay.{broadcast_to-Replays, broadcast_to-detached}
use abduco_inline.Server.Packets.{Pty, read_client_packets}
use abduco_inline.Server.Packets.Frames.{
  Emits, refl-Emits, Sends-Emits, Replays-Emits, send-Emits, read_client_packets-Emits,
}
use abduco_inline.Server.Tick.{
  read_all, exit_packet, queue_exit, flush_client, close_drained, for_clients, retain_connected,
}

-- All that was committed to the client's stream is whole packets, and the queue is within its bound.
pub record IsSound (c : Client) : Type 0 where
  pub packets : List Packet
  pub valid : All IsPacket packets
  pub framed : committed c ≡ encode_all packets
  pub bounded : length c.send_queue ≤ send_queue_cap

pub Emits-IsSound : (c d : Client) → Emits c d → IsSound c → IsSound d
Emits-IsSound c d e s = record {
  packets = s.packets ++ e.packets;
  valid = All-append IsPacket s.packets e.packets s.valid e.valid;
  framed =
      e.bytes
      ∙ ap (λ (b : Bytes). b ++ encode_all e.packets) s.framed
      ∙ sym (encode_all-append s.packets e.packets);
  bounded = e.bounded s.bounded;
}

-- The pty is read in pieces that fit a packet (the buffer of `server_loop` has MAX_PAYLOAD bytes).
abbrev pub FitsPacket : ReadAnswer → Type 0
FitsPacket (read_ok bs) = length bs ≤ max_payload
FitsPacket (read_failed e) = Unit

broadcast_to-Emits :
    (bytes : Bytes) (c : Client) → length bytes ≤ max_payload → Emits c (broadcast_to bytes c)
broadcast_to-Emits bytes c h = elim (Bool-cases c.attached) [
  | inl e ↦
      Replays-Emits (content bytes ∷ []) c _
        (record { typ_fits = omega arith; payload_fits = h }, tt) (broadcast_to-Replays bytes c e)
  | inr e ↦ subst (Emits c) (sym (broadcast_to-detached bytes c e)) (refl-Emits c)
]

pub broadcast_content-IsSound :
    (cs : List Client) (bytes : Bytes)
    → length bytes ≤ max_payload
    → All IsSound cs
    → All IsSound (broadcast_content cs bytes)
unfolding broadcast_content
broadcast_content-IsSound [] bytes h v = tt
broadcast_content-IsSound (c ∷ cs) bytes h (s, v) =
    (Emits-IsSound c _ (broadcast_to-Emits bytes c h) s, broadcast_content-IsSound cs bytes h v)

pub for_clients-IsSound :
    (f : Client → Client) (cs : List Client)
    → ((c : Client) → Emits c (f c))
    → All IsSound cs
    → All IsSound (for_clients f cs)
unfolding for_clients
for_clients-IsSound f [] e v = tt
for_clients-IsSound f (c ∷ cs) e (s, v) = (Emits-IsSound c _ (e c) s, for_clients-IsSound f cs e v)

exit_packet-IsPacket : (status : ℕ) → IsPacket (exit_packet status)
unfolding exit_packet
exit_packet-IsPacket status = omega arith

pub queue_exit-Emits : (now status : ℕ) (c : Client) → Emits c (queue_exit now status c)
unfolding queue_exit
queue_exit-Emits now status c =
    ground (arith, refl-Emits c, send-Emits c (exit_packet status) (exit_packet-IsPacket status))

pub flush_client-Emits : (c : Client) → Emits c (flush_client c)
unfolding flush_client
flush_client-Emits c =
    ground (arith, refl-Emits c, Sends-Emits [] c _ tt (try_flush_client-Sends c))

pub close_drained-Emits : (now : ℕ) (c : Client) → Emits c (close_drained now c)
unfolding close_drained
close_drained-Emits now c = ground (arith, refl-Emits c)

pub retain_connected-IsSound :
    (cs : List Client) → All IsSound cs → All IsSound (retain_connected cs)
unfolding retain_connected
retain_connected-IsSound [] v = tt
retain_connected-IsSound (c ∷ cs) (s, v) = ground (arith, s, retain_connected-IsSound cs v)

pub read_all-IsSound :
    (now : ℕ) (h : History) (cs : List Client) (pty : Pty)
    → All IsSound cs
    → All IsSound (read_all now h cs pty).0
unfolding read_all
read_all-IsSound now h [] pty v = tt
read_all-IsSound now h (c ∷ cs) pty (s, v) = (
  Emits-IsSound c _ (read_client_packets-Emits now h c pty) s,
  read_all-IsSound now h cs (read_client_packets now h c pty).1 v,
)
