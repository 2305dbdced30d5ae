-- ===== src/Server/Client/Outbound/Replay.antt =====
-- What `send_history` and `broadcast_content` in src/main.rs commit to a client.
use abduco_inline.Prelude.{
  ◌≡◌, refl, sym, ap, ◌∙◌, subst, List, [], ◌∷◌, ◌++◌, append-nil, append_assoc, IoError,
  if◌then◌else◌, Bool, true, false, arith, ok, err, Bool-cases, inl, inr, Result,
}
use mathlib.Core.List.{map}
use abduco_inline.Prelude.Bytes.{Bytes}
use abduco_inline.Protocol.{Packet, max_payload}
use abduco_inline.History.{History, snapshot}
use abduco_inline.Server.Client.{
  Client, send_packet_nonblocking, chunks, content, dump_end, send_chunks, send_history,
  broadcast_to,
}
use abduco_inline.Server.Client.Outbound.{
  Sends, refl-Sends, trans-Sends, Send, send_packet_nonblocking-Send,
}

-- What an operation that sends `all` may have done: some of these packets were committed, and all of
-- them if the client is still connected.
pub record Replays (all : List Packet) (c c' : Client) : Type 0 where
  pub packets : List Packet
  pub missing : List Packet
  pub parts : packets ++ missing ≡ all
  pub sends : Sends packets c c'
  pub complete : c'.disconnected ≡ false → missing ≡ []

pub packets-Replays :
    (all : List Packet) (c c' : Client) (r : Replays all c c') → r.missing ≡ [] → r.packets ≡ all
packets-Replays all c c' r e = sym (append-nil r.packets) ∙ ap (◌++◌ r.packets) (sym e) ∙ r.parts

pub refl-Replays : (c : Client) → Replays [] c c
refl-Replays c = record {
  packets = [];
  missing = [];
  parts = refl;
  sends = refl-Sends c;
  complete = λ _. refl;
}

pub close-Sends :
    (ps : List Packet) (c d : Client) → Sends ps c d → Sends ps c (record d { disconnected = true })
close-Sends ps c d s = record {
  bytes = s.bytes;
  bounded = s.bounded;
  grows = s.grows;
  attached = s.attached;
  flags = s.flags;
  buf = s.buf;
  reads = s.reads;
  close_after_drain = s.close_after_drain;
  disconnected = λ _. refl;
}

Send-ok : (pkt : Packet) (c d : Client) (u : Unit {0}) → Send pkt c (ok u, d) → Sends (pkt ∷ []) c d
Send-ok pkt c d u s = elim s.whole [
  | inl e ↦ subst (λ (ps : List Packet). Sends ps c d) e s.sends
  | inr (_, e, _) ↦ absurd (ground arith)
]

Send-err :
    (pkt : Packet) (more : List Packet) (c d : Client) (e : IoError)
    → Send pkt c (err e, d)
    → Replays (pkt ∷ more) c (record d { disconnected = true })
Send-err pkt more c d e s = elim s.whole [
  | inl p ↦ record {
    packets = s.packets;
    missing = more;
    parts = ap (λ (ps : List Packet). ps ++ more) p;
    sends = close-Sends s.packets c d s.sends;
    complete = λ h. cc;
  }
  | inr (p, _, _) ↦ record {
    packets = s.packets;
    missing = pkt ∷ more;
    parts = ap (λ (ps : List Packet). ps ++ pkt ∷ more) p;
    sends = close-Sends s.packets c d s.sends;
    complete = λ h. cc;
  }
]

pub then-Replays :
    (ps qs : List Packet) (c d e : Client) → Sends ps c d → Replays qs d e → Replays (ps ++ qs) c e
then-Replays ps qs c d e s r = record {
  packets = ps ++ r.packets;
  missing = r.missing;
  parts = append_assoc ps r.packets r.missing ∙ ap (◌++◌ ps) r.parts;
  sends = trans-Sends ps r.packets c d e s r.sends;
  complete = r.complete;
}

-- How a loop of sends ended: if it broke off, the client is given up.
pub record Ended (ps : List Packet) (c : Client) (out : Bool × Client) : Type 0 where
  pub replays : Replays ps c out.1
  pub stopped : out.0 ≡ false → out.1.disconnected ≡ true
  pub finished : out.0 ≡ true → replays.missing ≡ []

chunk_step :
    (chunk : Bytes) (rest : List Bytes) (c : Client) (out : Result (Unit {0}) × Client)
    → Send (content chunk) c out
    → ((d : Client) → Ended (map content rest) d (send_chunks rest d))
    → Ended (map content (chunk ∷ rest)) c (elim out.0 [
      | ok _ ↦ send_chunks rest out.1
      | err _ ↦ (false, record (out.1) { disconnected = true })
    ])
unfolding then-Replays
chunk_step chunk rest c (ok u, d) s later =
    let e = later d in
    record {
      replays =
          then-Replays (content chunk ∷ []) (map content rest) c d _ (Send-ok _ c d u s) e.replays;
      stopped = e.stopped;
      finished = e.finished;
    }
chunk_step chunk rest c (err e, d) s later = record {
  replays = Send-err (content chunk) (map content rest) c d e s;
  stopped = λ _. refl;
  finished = λ h. cc;
}

pub send_chunks-Ended : (cs : List Bytes) (c : Client) → Ended (map content cs) c (send_chunks cs c)
unfolding send_chunks refl-Replays
send_chunks-Ended [] c = record {
  replays = refl-Replays c;
  stopped = λ h. cc;
  finished = λ _. refl;
}
send_chunks-Ended (chunk ∷ rest) c =
    chunk_step chunk rest c (send_packet_nonblocking c (content chunk))
      (send_packet_nonblocking-Send c (content chunk)) (send_chunks-Ended rest)

-- The history as packets.
abbrev pub history_packets : History → List Packet
history_packets h = map content (chunks max_payload (snapshot h))

-- An attach replay commits the whole history, in packets of content, unless the client is given up.
pub send_history-Replays :
    (c : Client) (h : History) → Replays (history_packets h) c (send_history c h false)
unfolding send_history
send_history-Replays c h =
    let e = send_chunks-Ended (chunks max_payload (snapshot h)) c in
    elim (Bool-cases (send_chunks (chunks max_payload (snapshot h)) c).0) [
      | inl done ↦ rw done e.replays
      | inr stop ↦ rw stop e.replays
    ]

broadcast_step :
    (bytes : Bytes) (c : Client) (out : Result (Unit {0}) × Client)
    → Send (content bytes) c out
    → Replays
        (content bytes ∷ [])
        c
        (elim out.0 [ ok _ ↦ out.1 | err _ ↦ record (out.1) { disconnected = true } ])
broadcast_step bytes c (ok u, d) s = record {
  packets = content bytes ∷ [];
  missing = [];
  parts = refl;
  sends = Send-ok _ c d u s;
  complete = λ _. refl;
}
broadcast_step bytes c (err e, d) s = Send-err (content bytes) [] c d e s

-- An attached client is sent what the pty wrote, or is given up; any other client is left alone.
pub broadcast_to-Replays :
    (bytes : Bytes) (c : Client)
    → c.attached ≡ true
    → Replays (content bytes ∷ []) c (broadcast_to bytes c)
unfolding broadcast_to
broadcast_to-Replays bytes c h = simp h (
    broadcast_step bytes c (send_packet_nonblocking c (content bytes))
      (send_packet_nonblocking-Send c (content bytes)))

pub broadcast_to-detached :
    (bytes : Bytes) (c : Client) → c.attached ≡ false → broadcast_to bytes c ≡ c
unfolding broadcast_to
broadcast_to-detached bytes c h = rw h

history_step :
    (send_end : Bool) (ps : List Packet) (c : Client) (out : Bool × Client)
    → Ended ps c out
    → let c' : Client =
        if out.0
        then (if send_end then (send_packet_nonblocking out.1 dump_end).1 else out.1)
        else out.1 in
      (c'.flags ≡ c.flags)
      × (c'.close_after_drain ≡ c.close_after_drain)
      × (c'.disconnected ≡ false → c.disconnected ≡ false)
history_step send_end ps c out e = ground (
  arith,
  e.replays.sends.flags,
  e.replays.sends.close_after_drain,
  e.replays.sends.disconnected,
  (send_packet_nonblocking-Send out.1 dump_end).sends.flags,
  (send_packet_nonblocking-Send out.1 dump_end).sends.close_after_drain,
  (send_packet_nonblocking-Send out.1 dump_end).connected,
)

-- Sending the history changes no flags and no closing, and connects nobody again.
pub state-send_history :
    (c : Client) (h : History) (send_end : Bool)
    → ((send_history c h send_end).flags ≡ c.flags)
      × ((send_history c h send_end).close_after_drain ≡ c.close_after_drain)
      × ((send_history c h send_end).disconnected ≡ false → c.disconnected ≡ false)
unfolding send_history
state-send_history c h send_end =
    history_step send_end (history_packets h) c _
      (send_chunks-Ended (chunks max_payload (snapshot h)) c)
