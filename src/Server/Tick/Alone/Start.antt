-- ===== src/Server/Tick/Alone/Start.antt =====
-- `server_loop` in src/main.rs from its start, with one client, that connects in the first round.
use abduco_inline.Prelude.{
  suc, ◌≤◌, ◌<◌, ◌≡◌, ◌≢◌, refl, ap, ◌∙◌, List, [], ◌∷◌, length, inl, true, All, arith, Bool,
}
use abduco_inline.Protocol.{Packet}
use abduco_inline.Protocol.Framing.{IsPacket}
use abduco_inline.Protocol.Loop.{encode_all}
use abduco_inline.Stream.{send_packet_blocking}
use abduco_inline.Server.Client.{Client}
use abduco_inline.Server.Packets.{Pty}
use abduco_inline.Server.Packets.Delivery.{TakesAll, inputs}
use abduco_inline.Server.Packets.Rounds.{Handled, IsTyped}
use abduco_inline.Server.Packets.Rounds.Reading.{IsIntact, data_of, pauses}
use abduco_inline.Server.Packets.Rounds.Pieces.{Awaits, nothing_left}
use abduco_inline.Server.Tick.{
  Os, Server, Accepted, Round, new_client, pid_packet, shutdown, accept_one, accept_all, tick,
  server_loop, start,
}
use abduco_inline.Server.Tick.Sound.{server_of}
use abduco_inline.Server.Tick.Alone.{IsUnwritten}
use abduco_inline.Server.Tick.Alone.Loop.{serve_round}
use abduco_inline.Server.Tick.Alone.Whole.{Delivered, clients-shutdown, round_then_loop}

shutdown-IsUnwritten :
    (requested : Bool) (s : Server) → IsUnwritten s.pty (shutdown requested s).pty
unfolding shutdown
shutdown-IsUnwritten requested s = record { written = ground arith; writes = ground arith }

tick-quiet :
    (os : Os) (r : Round) (s : Server)
    → r.accepted ≡ []
    → tick os r s ≡ serve_round os r (shutdown r.shutdown_requested s)
unfolding tick accept_all
tick-quiet os r s quiet =
    ap
      (λ (more : List Accepted).
        serve_round os r (accept_all os (shutdown r.shutdown_requested s) more))
      quiet

pub server_loop-Delivered :
    (os : Os) (rs : List Round) (ps : List Packet) (s : Server) (c : Client)
    → s.clients ≡ c ∷ []
    → Awaits (length rs) ps c
    → All TakesAll s.pty.writes
    → length (inputs ps) ≤ length s.pty.writes
    → All (λ r. r.accepted ≡ []) rs
    → (server_of (server_loop os rs s)).clients ≢ []
    → Delivered os rs s ps s.pty
unfolding server_loop
server_loop-Delivered os [] ps s c e w t le quiet stays = nothing_left ps c s.pty w t
server_loop-Delivered os (r ∷ rs) ps s c e w t le (q, quiet) stays =
    round_then_loop os r rs ps s (shutdown r.shutdown_requested s) c (tick-quiet os r s q)
      (clients-shutdown r.shutdown_requested s ∙ e) (shutdown-IsUnwritten r.shutdown_requested s) w
      t le quiet stays
      (λ u qs d e' w' t' le' stays'. server_loop-Delivered os rs qs u d e' w' t' le' quiet stays')

tick-accepted :
    (os : Os) (r : Round) (s : Server) (a : Accepted)
    → r.accepted ≡ a ∷ []
    → tick os r s ≡ serve_round os r (accept_one os (shutdown r.shutdown_requested s) a)
unfolding tick accept_all
tick-accepted os r s a one =
    ap
      (λ (more : List Accepted).
        serve_round os r (accept_all os (shutdown r.shutdown_requested s) more))
      one

accepted_alone :
    (os : Os) (requested read_pty : Bool) (pty : Pty) (a : Accepted)
    → a.nonblocking ≡ true
    → let u = accept_one os (shutdown requested (start read_pty pty)) a in
      (u.clients ≡ new_client (send_packet_blocking a.stream (pid_packet os)).1 ∷ [])
      × IsUnwritten pty u.pty
unfolding accept_one shutdown
accepted_alone os requested read_pty pty a nb =
    (ground (arith, nb), record { written = ground (arith, nb); writes = ground (arith, nb) })

reads-new_client :
    (os : Os) (a : Accepted)
    → (send_packet_blocking a.stream (pid_packet os)).1.reads ≡ a.stream.reads
unfolding send_packet_blocking
reads-new_client os a = refl

-- The loop from its start: a client that connects in the first round and is still served in the end has
-- its input on the pty, whole and in its order, where a round more comes than reads that would block.
pub start-Delivered :
    (os : Os) (r : Round) (rs : List Round) (ps : List Packet) (read_pty : Bool) (pty : Pty)
    (a : Accepted)
    → r.accepted ≡ a ∷ []
    → a.nonblocking ≡ true
    → data_of a.stream.reads ≡ encode_all ps
    → IsIntact a.stream.reads
    → pauses a.stream.reads < length (r ∷ rs)
    → All IsTyped ps
    → All IsPacket ps
    → All TakesAll pty.writes
    → length (inputs ps) ≤ length pty.writes
    → All (λ r. r.accepted ≡ []) rs
    → (server_of (server_loop os (r ∷ rs) (start read_pty pty))).clients ≢ []
    → Handled (inputs ps) pty (server_of (server_loop os (r ∷ rs) (start read_pty pty))).pty
start-Delivered os r rs ps read_pty pty a one nb bytes intact lt kinds valid t le quiet stays =
    let s = start read_pty pty in
    let c = new_client (send_packet_blocking a.stream (pid_packet os)).1 in
    let (alone, unwritten) = accepted_alone os r.shutdown_requested read_pty pty a nb in
    let same = reads-new_client os a in
    let awaits : Awaits (suc (length rs)) ps c = record {
      bytes = ap data_of same ∙ bytes;
      intact = ground (arith, same, intact);
      enough = inl (ground (arith, same, lt));
      writer = refl;
      kinds = kinds;
      valid = valid;
    } in
    round_then_loop os r rs ps s _ c (tick-accepted os r s a one) alone unwritten awaits t le quiet
      stays
      (λ u qs d e' w' t' le' stays'. server_loop-Delivered os rs qs u d e' w' t' le' quiet stays')
