-- ===== src/Server/Tick/Apart.antt =====
-- What a client that sends nothing does to the others in a round of `server_loop` in src/main.rs.
pub mod Loop
mod Tests
use abduco_inline.Prelude.{
  ℕ, ◌≡◌, refl, sym, ap, ◌∙◌, subst, List, [], ◌∷◌, ◌++◌, All, Bool, true, false, if◌then◌else◌,
  Option, none, some, arith, IoError, is_empty, Bool-cases, inl, inr, ok, err, Result, ◌||◌, not,
  is_none,
}
use abduco_inline.Prelude.Bytes.{Bytes}
use abduco_inline.Protocol.{while_packets, Packet}
use abduco_inline.Protocol.Loop.{nil-Waits, while_packets-none}
use abduco_inline.History
use abduco_inline.History.{History}
use abduco_inline.Stream.{
  ReadAnswer, read_ok, read_failed, read_loop, ReadSoFar, ReadEnd, blocked, saw_eof, broken,
}
use abduco_inline.Server.Client.{
  Client, send_packet_nonblocking, try_flush_client, broadcast_to, broadcast_content, content,
}
use abduco_inline.Server.Packets.Input.{handle_packets-whole}
use abduco_inline.Server.Packets.{Pty, handle_packet, handle_packets, read_client_packets}
use abduco_inline.Server.Tick.{
  Os, Server, Round, Accepted, new_client, shutdown, accept_one, accept_all, pump, read_output,
  reap, read_all, read_packets, queue_exit, queue_exits, flush_client, close_drained, for_clients,
  retain_connected, exit_packet, settle, tick,
}

-- A peer that never sends a byte: its connection would block, ends or breaks.
abbrev pub GivesNothing : ReadAnswer → Type 0
GivesNothing (read_ok []) = Unit
GivesNothing (read_ok (b ∷ bs)) = ⊥
GivesNothing (read_failed e) = Unit

abbrev pub IsSilent : Client → Type 0
IsSilent c = (c.buf ≡ []) × All GivesNothing c.stream.reads

-- The second list is the first without some silent clients.
pub data Without : List Client → List Client → Type 0 where
  none_left : Without [] []
  keep : {cs ds : List Client} (c : Client) → Without cs ds → Without (c ∷ cs) (c ∷ ds)
  skip : {cs ds : List Client} (c : Client) → IsSilent c → Without cs ds → Without (c ∷ cs) ds

-- What keeps a client silent can be done to all of them.
Without-for_clients :
    (f : Client → Client)
    → ((c : Client) → IsSilent c → IsSilent (f c))
    → {cs ds : List Client} → Without cs ds
    → Without (for_clients f cs) (for_clients f ds)
unfolding for_clients
Without-for_clients f quiet none_left = none_left
Without-for_clients f quiet (keep c w) = keep (f c) (Without-for_clients f quiet w)
Without-for_clients f quiet (skip c s w) = skip (f c) (quiet c s) (Without-for_clients f quiet w)

Without-retain_connected :
    {cs ds : List Client} → Without cs ds → Without (retain_connected cs) (retain_connected ds)
unfolding retain_connected
Without-retain_connected none_left = none_left
Without-retain_connected (keep c w) = elim (Bool-cases c.disconnected) [
  | inl e ↦ rw e (Without-retain_connected w)
  | inr e ↦ simp e (keep c (Without-retain_connected w))
]
Without-retain_connected (skip c s w) = elim (Bool-cases c.disconnected) [
  | inl e ↦ rw e (Without-retain_connected w)
  | inr e ↦ simp e (skip c s (Without-retain_connected w))
]

pub Without-append :
    (c : Client) → {cs ds : List Client} → Without cs ds → Without (cs ++ c ∷ []) (ds ++ c ∷ [])
Without-append c none_left = keep c none_left
Without-append c (keep d w) = keep d (Without-append c w)
Without-append c (skip d s w) = skip d s (Without-append c w)

quiet_if : (b : Bool) (c d : Client) → IsSilent c → IsSilent d → IsSilent (if b then c else d)
quiet_if true c d sc sd = sc
quiet_if false c d sc sd = sd

-- A send or a flush reads nothing, whatever comes of it.
sent-IsSilent :
    (c : Client) (pkt : Packet) → IsSilent c → IsSilent (send_packet_nonblocking c pkt).1
unfolding send_packet_nonblocking try_flush_client
sent-IsSilent c pkt s = ground (arith, s)

kept_or_gone-IsSilent :
    (out : Result (Unit {0}) × Client)
    → IsSilent out.1
    → let next : Client = elim out.0 [
      | ok _ ↦ out.1
      | err _ ↦ record (out.1) { disconnected = true }
    ] in
      IsSilent next
kept_or_gone-IsSilent (ok u, c) s = s
kept_or_gone-IsSilent (err e, c) s = s

broadcast_to-IsSilent : (d : Bytes) (c : Client) → IsSilent c → IsSilent (broadcast_to d c)
unfolding broadcast_to
broadcast_to-IsSilent d c s =
    quiet_if c.attached _ _
      (kept_or_gone-IsSilent (send_packet_nonblocking c (content d))
        (sent-IsSilent c (content d) s))
      s

flush_client-IsSilent : (c : Client) → IsSilent c → IsSilent (flush_client c)
unfolding flush_client try_flush_client
flush_client-IsSilent c s =
    quiet_if c.disconnected _ _ s (kept_or_gone-IsSilent (try_flush_client c) s)

queue_exit-IsSilent :
    (now status : ℕ) (c : Client) → IsSilent c → IsSilent (queue_exit now status c)
unfolding queue_exit
queue_exit-IsSilent now status c s =
    quiet_if (c.disconnected || not (is_none c.close_after_drain)) _ _ s
      (sent-IsSilent c (exit_packet status) s)

close_drained-IsSilent : (now : ℕ) (c : Client) → IsSilent c → IsSilent (close_drained now c)
unfolding close_drained
close_drained-IsSilent now c s = ground (arith, s)

pub Without-broadcast_content :
    (d : Bytes)
    → {cs ds : List Client} → Without cs ds
    → Without (broadcast_content cs d) (broadcast_content ds d)
unfolding broadcast_content
Without-broadcast_content d none_left = none_left
Without-broadcast_content d (keep c w) = keep (broadcast_to d c) (Without-broadcast_content d w)
Without-broadcast_content d (skip c s w) =
    skip (broadcast_to d c) (broadcast_to-IsSilent d c s) (Without-broadcast_content d w)

Without-queue_exits :
    (now : ℕ) (child_exit : Option ℕ)
    → {cs ds : List Client} → Without cs ds
    → Without (queue_exits now child_exit cs) (queue_exits now child_exit ds)
unfolding queue_exits
Without-queue_exits now none w = w
Without-queue_exits now (some status) w =
    Without-for_clients (queue_exit now status) (queue_exit-IsSilent now status) w

pub Without-settle :
    (r : Round) (s : Server) (ds : List Client)
    → Without s.clients ds
    → Without (settle r s).clients (settle r (record s { clients = ds })).clients
unfolding settle
Without-settle r s ds w = Without-retain_connected (
    Without-for_clients (close_drained r.drain_at) (close_drained-IsSilent r.drain_at) (
      Without-for_clients flush_client flush_client-IsSilent
        (Without-queue_exits r.exit_at s.child_exit w)))

-- Reading a silent client gives nothing.
read_loop-silent :
    (rs : List ReadAnswer)
    → All GivesNothing rs
    → ((read_loop rs []).buf ≡ []) × All GivesNothing (read_loop rs []).reads
unfolding read_loop
read_loop-silent [] s = (refl, tt)
read_loop-silent (read_ok [] ∷ rs) (g, s) = (refl, s)
read_loop-silent (read_ok (b ∷ bs) ∷ rs) (g, s) = absurd g
read_loop-silent (read_failed IoError.would_block ∷ rs) (g, s) = (refl, s)
read_loop-silent (read_failed IoError.interrupted ∷ rs) (g, s) = read_loop-silent rs s
read_loop-silent (read_failed e ∷ rs) (g, s) = (refl, s)

-- It is still silent, and the pty is as it was.
abbrev Idle : Pty → Client × Pty → Type 0
Idle pty s = IsSilent s.0 × (s.1 ≡ pty)

handle_packets-Idle :
    (now : ℕ) (h : History) (c : Client) (pty : Pty)
    → IsSilent c
    → Idle pty (handle_packets now h c pty)
handle_packets-Idle now h c pty (b, s) =
    subst (Idle pty) (sym (handle_packets-whole now h c pty [] tt b)) ((refl, s), refl)

end-Idle :
    (now : ℕ) (h : History) (c : Client) (pty : Pty) (end_ : ReadEnd)
    → IsSilent c
    → let out : Client × Pty = elim end_ [
      | broken ↦ (record c { disconnected = true }, pty)
      | blocked ↦ handle_packets now h c pty
      | saw_eof ↦
          (let (c', pty') = handle_packets now h c pty in (record c' { disconnected = true }, pty'))
    ] in
      Idle pty out
end-Idle now h c pty broken s = (s, refl)
end-Idle now h c pty blocked s = handle_packets-Idle now h c pty s
end-Idle now h c pty saw_eof s = handle_packets-Idle now h c pty s

read_client_packets-Idle :
    (now : ℕ) (h : History) (c : Client) (pty : Pty)
    → IsSilent c
    → Idle pty (read_client_packets now h c pty)
unfolding read_client_packets
read_client_packets-Idle now h c pty (b, s) =
    let r = read_loop c.stream.reads c.buf in
    let quiet : (r.buf ≡ []) × All GivesNothing r.reads =
      subst
        (λ (buf : Bytes).
          ((read_loop c.stream.reads buf).buf ≡ [])
          × All GivesNothing (read_loop c.stream.reads buf).reads)
        (sym b) (read_loop-silent c.stream.reads s) in
    end-Idle now h (record c { stream = record (c.stream) { reads = r.reads }; buf = r.buf }) pty
      r.end_ quiet

pub Without-read_all :
    (now : ℕ) (h : History) (pty : Pty)
    → {cs ds : List Client} → Without cs ds
    → Without (read_all now h cs pty).0 (read_all now h ds pty).0
      × ((read_all now h ds pty).1 ≡ (read_all now h cs pty).1)
unfolding read_all
Without-read_all now h pty none_left = (none_left, refl)
Without-read_all now h pty (keep c w) =
    let (c', pty') = read_client_packets now h c pty in
    let (v, same) = Without-read_all now h pty' w in (keep c' v, same)
Without-read_all now h pty (skip {cs} {ds} c s w) =
    let c' = (read_client_packets now h c pty).0 in
    let (silent, same_pty) = read_client_packets-Idle now h c pty s in
    let (v, same) = Without-read_all now h pty w in
    subst
      (λ (p : Pty).
        Without (c' ∷ (read_all now h cs p).0) (read_all now h ds pty).0
        × ((read_all now h ds pty).1 ≡ (read_all now h cs p).1))
      (sym same_pty) (skip c' silent v, same)
