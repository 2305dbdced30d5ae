-- ===== src/Attach/Whole.antt =====
-- A whole session in src/main.rs: the server's side of one client, from the connection to the exit
-- packet, and `attach_session` on the other end.
use mathlib.Core.List.{map}
use abduco_inline.Prelude.{
  ℕ, ◌+◌, ◌^◌, ◌≤◌, ◌<◌, ◌≡◌, refl, sym, ap, ap₂, ◌∙◌, List, [], ◌∷◌, ◌++◌, append-nil,
  append_assoc, length, concat, concat-append, false, true, Bool, arith, All, All-append, none, ok,
  inl, inr,
}
use abduco_inline.Prelude.Bytes.{Bytes}
use abduco_inline.Protocol.{Packet, packet_bytes, max_payload, recv_packet_blocking}
use abduco_inline.Protocol.Framing.{recv_packet_blocking-packet_bytes}
use abduco_inline.Protocol.Loop.{encode_all}
use abduco_inline.History.{History, snapshot}
use abduco_inline.Stream.{ReadAnswer, send_packet_blocking}
use abduco_inline.Server.Client.{Client, content, chunks, send_queue_cap}
use abduco_inline.Server.Client.Outbound.{committed, send_packet_nonblocking_whole}
use abduco_inline.Server.Client.Outbound.Chunks.{concat-chunks, chunks-fits}
use abduco_inline.Server.Packets.{attach}
use abduco_inline.Server.Packets.Delivery.{TakesAll}
use abduco_inline.Server.Tick.{Os, Accepted, new_client, pid_packet, exit_packet, queue_exit}
use abduco_inline.Server.Tick.Sound.{IsFresh, pid_packet-IsPacket, new_client-committed}
use abduco_inline.Server.Tick.Output.{outputs, hear, attach-Sends}
use abduco_inline.Cli.Task.{AttachOpts}
use abduco_inline.Attach.{
  Winsize, Wake, Terminal, Progress, returned, exited, send_then, resize_packet, attach_request,
  client_loop, attach_session, clear_screen, show_cursor, shows, entered, left,
}
use abduco_inline.Attach.Exit.{FromSocket, output_and_exit_status_arrive}

-- The pieces in which the output comes: the history in chunks, then each read of the pty.
abbrev pub pieces : History → List ReadAnswer → List Bytes
pieces h rs = chunks max_payload (snapshot h) ++ outputs rs

-- A client on the server's side, from its connection to the last of its output.
abbrev pub served : Os → Accepted → AttachOpts → History → List ReadAnswer → Client
served os a o h rs = hear (outputs rs) (
    attach (new_client (send_packet_blocking a.stream (pid_packet os)).1) h
      (attach_request o.flags).payload)

map-append : (xss yss : List Bytes) → map content (xss ++ yss) ≡ map content xss ++ map content yss
map-append [] yss = refl
map-append (xs ∷ xss) yss = ap (◌∷◌ (content xs)) (map-append xss yss)

concat-pieces :
    (h : History) (rs : List ReadAnswer) → concat (pieces h rs) ≡ snapshot h ++ concat (outputs rs)
concat-pieces h rs =
    concat-append (chunks max_payload (snapshot h)) (outputs rs)
    ∙ ap (λ (b : Bytes). b ++ concat (outputs rs))
        (concat-chunks max_payload (snapshot h) (omega arith))

pub committed-queue_exit :
    (now status : ℕ) (c : Client)
    → c.disconnected ≡ false
    → c.close_after_drain ≡ none
    → length c.send_queue + length (packet_bytes (exit_packet status)) ≤ send_queue_cap
    → committed (queue_exit now status c) ≡ committed c ++ packet_bytes (exit_packet status)
unfolding queue_exit
committed-queue_exit now status c up open_ room =
    elim (send_packet_nonblocking_whole c (exit_packet status)) [
      | inl whole ↦ ground (arith, up, open_, whole)
      | inr (_, full) ↦ absurd (omega (arith, room, full))
    ]

-- The whole stream to the client.
committed-served :
    (os : Os) (a : Accepted) (o : AttachOpts) (h : History) (rs : List ReadAnswer) (now status : ℕ)
    → IsFresh os a
    → (served os a o h rs).disconnected ≡ false
    → length (served os a o h rs).send_queue + length (packet_bytes (exit_packet status))
      ≤ send_queue_cap
    → committed (queue_exit now status (served os a o h rs))
      ≡ packet_bytes (pid_packet os)
        ++ (encode_all (map content (pieces h rs)) ++ (packet_bytes (exit_packet status) ++ []))
committed-served os a o h rs now status fresh up room =
    let c = new_client (send_packet_blocking a.stream (pid_packet os)).1 in
    let sends = attach-Sends c h (attach_request o.flags).payload (outputs rs) up in
    let exit = packet_bytes (exit_packet status) in
    let packets = encode_all (map content (pieces h rs)) in
    committed-queue_exit now status (served os a o h rs) up sends.close_after_drain room
    ∙ ap (λ (b : Bytes). b ++ exit)
        (sends.bytes
          ∙ ap₂ ◌++◌ (new_client-committed os a fresh)
              (ap encode_all (sym (map-append (chunks max_payload (snapshot h)) (outputs rs)))))
    ∙ append_assoc (packet_bytes (pid_packet os)) packets exit
    ∙ ap (λ (b : Bytes). packet_bytes (pid_packet os) ++ (packets ++ b)) (sym (append-nil exit))

-- A packet that can be sent goes on to what follows.
send_then_lem :
    (s : Terminal) (pkt : Packet) (next : Terminal → Progress)
    → (send_packet_blocking s.stream pkt).0 ≡ ok tt
    → send_then s pkt next ≡ next (record s { stream = (send_packet_blocking s.stream pkt).1 })
unfolding send_then
send_then_lem s pkt next sent = rw (send_then, sent) refl

-- The requests of a session, up to its loop.
requests_lem :
    (o : AttachOpts) (size : Winsize) (raw : Bool) (wakes : List Wake) (s : Terminal) (pkt : Packet)
    (rest : Bytes)
    → let first = send_packet_blocking s.stream (attach_request o.flags) in
      let second = send_packet_blocking first.1 (resize_packet size) in
      recv_packet_blocking s.incoming ≡ ok (pkt, rest)
      → first.0 ≡ ok tt
      → second.0 ≡ ok tt
      → attach_session o size raw wakes s
        ≡ left raw
            (client_loop o wakes (entered raw (record s { incoming = rest; stream = second.1 })))
unfolding attach_session
requests_lem o size raw wakes s pkt rest received sent sent' =
    let s1 : Terminal = record s { incoming = rest } in
    let s2 : Terminal = record s1 {
      stream = (send_packet_blocking s.stream (attach_request o.flags)).1;
    } in
    rw (attach_session, received)
      (send_then_lem s1 (attach_request o.flags) _ sent
        ∙ send_then_lem s2 (resize_packet size) _ sent')

-- What stands on the terminal for some output: in raw mode between the clearing of the screen and the
-- showing of the cursor.
abbrev pub framed : Bool → Bytes → Bytes
framed false out = out
framed true out = clear_screen ++ (out ++ show_cursor)

-- The loop, with what is printed around it.
framed_loop :
    (o : AttachOpts) (raw : Bool) (ds : List Bytes) (status : ℕ) (rest : Bytes) (wakes : List Wake)
    (s : Terminal)
    → o.passthrough ≡ false
    → s.incoming ≡ encode_all (map content ds) ++ (packet_bytes (exit_packet status) ++ rest)
    → All (λ d. length d ≤ max_payload) ds
    → status < 2 ^ 32
    → All TakesAll s.stdout.writes
    → length ds ≤ length s.stdout.writes
    → All FromSocket wakes
    → length ds < length wakes
    → (s' : Terminal) × (left raw (client_loop o wakes (entered raw s))
        ≡ returned (ok (exited status)) s')
      × (s'.stdout.wire ≡ s.stdout.wire ++ framed raw (concat ds))
framed_loop o false ds status rest wakes s show comes fit lt takes enough from woken =
    output_and_exit_status_arrive o ds status rest wakes s show comes fit lt takes enough from woken
framed_loop o true ds status rest wakes s show comes fit lt takes enough from woken =
    let (s', loop, out) =
      output_and_exit_status_arrive o ds status rest wakes (shows clear_screen s) show comes fit lt
        takes enough from woken in
    (
      shows show_cursor s',
      ap (left true) loop,
      ap (λ (b : Bytes). b ++ show_cursor) out
          ∙ append_assoc (s.stdout.wire ++ clear_screen) (concat ds) show_cursor
          ∙ append_assoc s.stdout.wire clear_screen (concat ds ++ show_cursor),
    )

-- A stream of the pid packet, output and the exit packet, whatever comes behind it: the client prints the
-- output and returns with the exit status.
pub pieces_are_shown :
    (os : Os) (o : AttachOpts) (size : Winsize) (raw : Bool) (ds : List Bytes) (status : ℕ)
    (rest : Bytes) (wakes : List Wake) (s : Terminal)
    → s.incoming
      ≡ packet_bytes (pid_packet os)
        ++ (encode_all (map content ds) ++ (packet_bytes (exit_packet status) ++ rest))
    → All (λ d. length d ≤ max_payload) ds
    → status < 2 ^ 32
    → o.passthrough ≡ false
    → (send_packet_blocking s.stream (attach_request o.flags)).0 ≡ ok tt
    → (send_packet_blocking
        (send_packet_blocking s.stream (attach_request o.flags)).1
        (resize_packet size)).0
      ≡ ok tt
    → All TakesAll s.stdout.writes
    → length ds ≤ length s.stdout.writes
    → All FromSocket wakes
    → length ds < length wakes
    → (s' : Terminal) × (attach_session o size raw wakes s ≡ returned (ok (exited status)) s')
      × (s'.stdout.wire ≡ s.stdout.wire ++ framed raw (concat ds))
pieces_are_shown os o size raw ds status rest wakes s arrives fits lt show sent sent' takes enough
      from woken =
    let behind = encode_all (map content ds) ++ (packet_bytes (exit_packet status) ++ rest) in
    let stream =
      (send_packet_blocking (send_packet_blocking s.stream (attach_request o.flags)).1
        (resize_packet size)).1 in
    let received =
      ap recv_packet_blocking arrives
      ∙ recv_packet_blocking-packet_bytes (pid_packet os) behind (pid_packet-IsPacket os) in
    let (s', loop, out) =
      framed_loop o raw ds status rest wakes (record s { incoming = behind; stream = stream }) show
        refl fits lt takes enough from woken in
    (s', requests_lem o size raw wakes s (pid_packet os) behind received sent sent' ∙ loop, out)

-- From end to end: a client that attaches to a session prints the history at its attach followed by all
-- the output read from the pty since, nothing lost and nothing twice, in raw mode between the
-- clearing of the screen and the showing of the cursor, and returns with the exit status that the
-- server queues at the end. Its connection takes the pid packet and both requests; on
-- the server it is not given up and its queue has room for the exit packet; what the server has
-- committed arrives; the pty is read in pieces of MAX_PAYLOAD at most; and the client is not in
-- pass-through mode, its terminal takes each payload at once, and all that wakes it is its socket, as
-- often as packets come.
pub session_is_shown :
    (os : Os) (a : Accepted) (o : AttachOpts) (size : Winsize) (raw : Bool) (h : History)
    (rs : List ReadAnswer) (now status : ℕ) (wakes : List Wake) (s : Terminal)
    → IsFresh os a
    → (served os a o h rs).disconnected ≡ false
    → length (served os a o h rs).send_queue + length (packet_bytes (exit_packet status))
      ≤ send_queue_cap
    → s.incoming ≡ committed (queue_exit now status (served os a o h rs))
    → All (λ d. length d ≤ max_payload) (outputs rs)
    → status < 2 ^ 32
    → o.passthrough ≡ false
    → (send_packet_blocking s.stream (attach_request o.flags)).0 ≡ ok tt
    → (send_packet_blocking
        (send_packet_blocking s.stream (attach_request o.flags)).1
        (resize_packet size)).0
      ≡ ok tt
    → All TakesAll s.stdout.writes
    → length (pieces h rs) ≤ length s.stdout.writes
    → All FromSocket wakes
    → length (pieces h rs) < length wakes
    → (s' : Terminal) × (attach_session o size raw wakes s ≡ returned (ok (exited status)) s')
      × (s'.stdout.wire ≡ s.stdout.wire ++ framed raw (snapshot h ++ concat (outputs rs)))
session_is_shown os a o size raw h rs now status wakes s fresh up room arrives fits lt show sent
      sent' takes enough from woken =
    let all_fit =
      All-append (λ (d : Bytes). length d ≤ max_payload) (chunks max_payload (snapshot h))
        (outputs rs) (chunks-fits max_payload (snapshot h)) fits in
    let (s', run, out) =
      pieces_are_shown os o size raw (pieces h rs) status [] wakes s
        (arrives ∙ committed-served os a o h rs now status fresh up room) all_fit lt show sent sent'
        takes enough from woken in
    (s', run, out ∙ ap (λ (b : Bytes). s.stdout.wire ++ framed raw b) (concat-pieces h rs))
