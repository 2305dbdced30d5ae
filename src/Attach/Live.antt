-- ===== src/Attach/Live.antt =====
-- What the attach client of src/main.rs shows of a server that goes through its loop, with all its
-- clients, to the exit of the child.
use mathlib.Core.List.{map}
use abduco_inline.Prelude.{
  ℕ, zero, suc, ◌+◌, ◌*◌, ◌^◌, ◌≤◌, ◌<◌, ◌≡◌, sym, ap, ◌∙◌, List, [], ◌∷◌, ◌++◌, append_assoc,
  get_elem?, length, length-append, concat, Bool, true, false, none, some, Option, arith, All, ok,
}
use abduco_inline.Prelude.Bytes.{Bytes}
use abduco_inline.Protocol.{packet_bytes, max_payload}
use abduco_inline.Protocol.Framing.{length-packet_bytes}
use abduco_inline.Protocol.Loop.{encode_all}
use abduco_inline.History
use abduco_inline.History.Window.{snapshot-append_all-new}
use abduco_inline.Stream.{ReadAnswer, read_ok, read_failed, send_packet_blocking}
use abduco_inline.Server.Client.{Client, content, send_queue_cap}
use abduco_inline.Server.Client.Outbound.{committed}
use abduco_inline.Server.Packets.{Pty}
use abduco_inline.Server.Packets.Delivery.{TakesAll}
use abduco_inline.Server.Tick.{
  Os, Server, Round, pid_packet, exit_packet, queue_exit, queue_exits, for_clients, server_loop,
  start,
}
use abduco_inline.Server.Tick.Frames.{FitsPacket}
use abduco_inline.Server.Tick.Sound.{IsFresh, server_of}
use abduco_inline.Server.Tick.Follower.{Gives}
use abduco_inline.Server.Tick.Held.{Refines}
use abduco_inline.Server.Tick.Rounds.{
  read_round, round_output, loop_output, read_round-Refines, server_loop-Refines, All-get_elem?,
}
use abduco_inline.Server.Tick.Told.{EndsIn, Told, Tells, Tells-Follower}
use abduco_inline.Cli.Task.{AttachOpts}
use abduco_inline.Attach.{
  Winsize, Wake, Terminal, returned, exited, resize_packet, attach_request, attach_session,
}
use abduco_inline.Attach.Exit.{FromSocket}
use abduco_inline.Attach.Whole.{framed, committed-queue_exit, pieces_are_shown}

-- The state of the server in the round `r` behind the rounds `rs`, when it has read its clients' packets.
abbrev pub after_rounds : Os → List Round → Round → Bool → Pty → Server
after_rounds os rs r read_pty pty =
    read_round os r (server_of (server_loop os rs (start read_pty pty)))

-- All that the pty has given by then.
abbrev pub output_until : Os → List Round → Round → Bool → Pty → Bytes
output_until os rs r read_pty pty =
    loop_output os rs (start read_pty pty)
    ++ round_output os r (server_of (server_loop os rs (start read_pty pty)))

-- The clients when the exit has been queued.
abbrev pub told_exit : Round → Server → List Client
told_exit r t = queue_exits r.exit_at t.child_exit t.clients

reads-Gives :
    (rs : List ReadAnswer) → All FitsPacket rs → All (Gives (λ d. length d ≤ max_payload)) rs
reads-Gives [] f = tt
reads-Gives (read_ok d ∷ rs) (f, fs) = (f, reads-Gives rs fs)
reads-Gives (read_failed e ∷ rs) (f, fs) = (tt, reads-Gives rs fs)

client-Told :
    (os : Os) (rs : List Round) (r : Round) (read_pty : Bool) (pty : Pty) (i : ℕ) (c : Client)
    → All (λ r. All (IsFresh os) r.accepted) rs
    → All (IsFresh os) r.accepted
    → All FitsPacket pty.reads
    → get_elem? (after_rounds os rs r read_pty pty).clients i ≡ some c
    → c.disconnected ≡ false
    → c.close_after_drain ≡ none
    → Told os (output_until os rs r read_pty pty) c
unfolding History.new History.append_all
client-Told os rs r read_pty pty i c fresh fresh' fits at_ up open_ =
    let s = start read_pty pty in
    let begun : Refines (λ d. length d ≤ max_payload) (Tells os) [] s = record {
      history = snapshot-append_all-new [];
      clients = tt;
      reads = reads-Gives pty.reads fits;
    } in
    let f = Tells-Follower os in
    let held = read_round-Refines f r _ _ fresh' (server_loop-Refines f rs s [] fresh begun) in
    All-get_elem? (Tells os (output_until os rs r read_pty pty)) _ i c held.clients at_ up open_

get_elem?-for_clients :
    (f : Client → Client) (cs : List Client) (i : ℕ) (c d : Client)
    → get_elem? cs i ≡ some c
    → get_elem? (for_clients f cs) i ≡ some d
    → d ≡ f c
unfolding for_clients
get_elem?-for_clients f [] i c d e e' = absurd cc
get_elem?-for_clients f (b ∷ cs) zero c d e e' = cc
get_elem?-for_clients f (b ∷ cs) (suc i) c d e e' = get_elem?-for_clients f cs i c d e e'

told_exit-queue_exit :
    (r : Round) (t : Server) (status i : ℕ) (c d : Client)
    → t.child_exit ≡ some status
    → get_elem? t.clients i ≡ some c
    → get_elem? (told_exit r t) i ≡ some d
    → d ≡ queue_exit r.exit_at status c
unfolding queue_exits
told_exit-queue_exit r t status i c d known at_ at_' =
    get_elem?-for_clients (queue_exit r.exit_at status) t.clients i c d at_
      (sym (ap (λ (o : Option ℕ). get_elem? (queue_exits r.exit_at o t.clients) i) known) ∙ at_')

length-pieces : (ds : List Bytes) → 8 * length ds ≤ length (encode_all (map content ds))
length-pieces [] = omega arith
length-pieces (d ∷ ds) = omega (
  arith,
  length-pieces ds,
  length-append (packet_bytes (content d)) (encode_all (map content ds)),
  length-packet_bytes (content d),
)

-- From end to end, through the loop of the server: whatever the other clients send, however the packets
-- and the rounds interleave and the kernel cuts the writes, a client that is attached in the round in
-- which the child's exit is known prints the output that the pty has given up to then, and returns with
-- the exit status. All that wakes it is its socket.
pub loop_is_shown :
    (os : Os) (rs : List Round) (r : Round) (read_pty : Bool) (pty : Pty) (i : ℕ) (c d : Client)
    (status : ℕ) (rest : Bytes) (o : AttachOpts) (size : Winsize) (raw : Bool) (wakes : List Wake)
    (s : Terminal)
    → let t = after_rounds os rs r read_pty pty in
      All (λ r. All (IsFresh os) r.accepted) rs
      → All (IsFresh os) r.accepted
      → All FitsPacket pty.reads
      → t.child_exit ≡ some status
      → get_elem? t.clients i ≡ some c
      → c.attached ≡ true
      → c.disconnected ≡ false
      → c.close_after_drain ≡ none
      → length c.send_queue + length (packet_bytes (exit_packet status)) ≤ send_queue_cap
      → get_elem? (told_exit r t) i ≡ some d
      → s.incoming ≡ committed d ++ rest
      → status < 2 ^ 32
      → o.passthrough ≡ false
      → (send_packet_blocking s.stream (attach_request o.flags)).0 ≡ ok tt
      → (send_packet_blocking
          (send_packet_blocking s.stream (attach_request o.flags)).1
          (resize_packet size)).0
        ≡ ok tt
      → All TakesAll s.stdout.writes
      → length (committed c) ≤ 8 * length s.stdout.writes
      → All FromSocket wakes
      → length (committed c) ≤ 8 * length wakes
      → (shown : Bytes) × EndsIn (output_until os rs r read_pty pty) shown
        × ((s' : Terminal) × (attach_session o size raw wakes s ≡ returned (ok (exited status)) s')
            × (s'.stdout.wire ≡ s.stdout.wire ++ framed raw shown))
loop_is_shown os rs r read_pty pty i c d status rest o size raw wakes s fresh fresh' fits known at_
      on up open_ room at_' arrives lt show sent sent' takes enough from woken =
    let t = after_rounds os rs r read_pty pty in
    let told = client-Told os rs r read_pty pty i c fresh fresh' fits at_ up open_ in
    let pid = packet_bytes (pid_packet os) in
    let exit = packet_bytes (exit_packet status) in
    let texts = encode_all (map content told.pieces) in
    let whole =
      arrives
      ∙ ap (λ (c : Client). committed c ++ rest)
          (told_exit-queue_exit r t status i c d known at_ at_')
      ∙ ap (λ (b : Bytes). b ++ rest)
          (committed-queue_exit r.exit_at status c up open_ room
            ∙ ap (λ (b : Bytes). b ++ exit) told.bytes)
      ∙ append_assoc (pid ++ texts) exit rest
      ∙ append_assoc pid texts (exit ++ rest) in
    let bound : 8 + 8 * length told.pieces ≤ length (committed c) = omega (
      arith,
      length-pieces told.pieces,
      length-append pid texts,
      ap (length {A = ℕ}) told.bytes,
      length-packet_bytes (pid_packet os),
    ) in
    let (s', run, out) =
      pieces_are_shown os o size raw told.pieces status rest wakes s whole told.fits lt show sent
        sent' takes (omega (arith, bound, enough)) from (omega (arith, bound, woken)) in
    (concat told.pieces, told.shown on, (s', run, out))
