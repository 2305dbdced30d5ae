-- ===== src/Attach/Readonly.antt =====
-- The read-only flag in the attach client of src/main.rs.
use mathlib.Core.Option
use abduco_inline.Prelude.{
  ◌≡◌, ◌≤◌, length, length-take, take, drop, refl, sym, List, [], ◌∷◌, append-nil, ◌==◌,
  if◌then◌else◌, Bool, Bool-cases, Result-cases, inl, inr, true, false, not, ◌&&◌, Option, none,
  some, bit_and, arith, ok, IoError,
}
use abduco_inline.Prelude.Bytes.{Bytes}
use abduco_inline.Protocol.{
  Packet, max_payload, read_exact, u32_at, msg_content, msg_resize, msg_exit, read_u32,
  recv_packet_blocking,
}
use abduco_inline.Protocol.Framing.{IsPacket}
use abduco_inline.Stream.{ReadAnswer, read_ok, read_failed, send_packet_blocking}
use abduco_inline.Stream.Writing.{write_loop-Wrote}
use abduco_inline.Server.Packets.{client_readonly, is_input}
use abduco_inline.Cli.Task.{AttachOpts}
use abduco_inline.Attach.{
  exited, Winsize, Event, Wake, Terminal, Progress, again, returned, resize_packet, detach_packet,
  handle_server_packet, read_socket, read_stdin, client_step, client_loop, select_interrupted,
  select_failed, ready,
}
use abduco_inline.Attach.Sends.{
  SendsNoInput, Whole, Goes, stops, adds, send_front, send_then-Goes, print-Goes,
}

branch :
    (base : Bytes) (b : Bool) (p q : Progress)
    → Goes base p
    → Goes base q
    → Goes base (if b then p else q)
branch base true p q hp hq = hp
branch base false p q hp hq = hq

resize_packet-IsPacket : (size : Winsize) → IsPacket (resize_packet size)
resize_packet-IsPacket size = omega arith

detach_packet-IsPacket : IsPacket detach_packet
detach_packet-IsPacket = omega arith

recv_packet_blocking-fits :
    (stream : Bytes) (p : Packet) (rest : Bytes)
    → recv_packet_blocking stream ≡ ok (p, rest)
    → length p.payload ≤ max_payload
unfolding recv_packet_blocking read_exact
recv_packet_blocking-fits stream p rest h =
    ground (arith, length-take (u32_at (take 8 stream) 4) (drop 8 stream), h)

-- The exit packet is sent back, and the result of that is not looked at.
exit_branch :
    (base : Bytes) (pkt : Packet) (s : Terminal)
    → length pkt.payload ≤ max_payload
    → Whole base s
    → Goes base (
        if pkt.typ == msg_exit
        then returned
            (ok (exited (Option.get_or (read_u32 pkt.payload) 0)))
            (record s { stream = (send_packet_blocking s.stream pkt).1 })
        else again s)
exit_branch base pkt s fit w = elim (Bool-cases (pkt.typ == msg_exit)) [
  | inl e ↦
      let (lost, front) =
        send_front s.stream pkt (write_loop-Wrote s.stream.writes _ s.stream.wire) in
      let typ : pkt.typ ≡ msg_exit = ground (arith, e) in
      let v : IsPacket pkt = record { typ_fits = omega (arith, typ); payload_fits = fit } in
      let ne : is_input pkt ≡ false = ground (arith, typ) in
      rw e (adds base s pkt (send_packet_blocking s.stream pkt).1 lost v ne w front)
  | inr e ↦ rw e w
]

handle_server_packet-Goes :
    (base : Bytes) (o : AttachOpts) (size : Winsize) (pkt : Packet) (s : Terminal)
    → length pkt.payload ≤ max_payload
    → Whole base s
    → Goes base (handle_server_packet o size pkt s)
unfolding handle_server_packet
handle_server_packet-Goes base o size pkt s fit w =
    branch base (pkt.typ == msg_content && not o.passthrough) _ _ (print-Goes base pkt.payload s w)
      (branch base (pkt.typ == msg_content) _ _ w (
        branch base (pkt.typ == msg_resize) _ _
          (send_then-Goes base s (resize_packet size) again (resize_packet-IsPacket size) refl w
            (λ s' w'. w'))
          (exit_branch base pkt s fit w)))

read_stdin-Goes :
    (base : Bytes) (o : AttachOpts) (a : ReadAnswer) (s : Terminal)
    → (bit_and o.flags client_readonly == 0) ≡ false
    → Whole base s
    → Goes base (read_stdin o a s)
unfolding read_stdin
read_stdin-Goes base o (read_ok []) s ro w = stops base s w
read_stdin-Goes base o (read_ok (b ∷ bs)) s ro w =
    branch base (b == o.detach_key) _ _
      (send_then-Goes base s detach_packet _ detach_packet-IsPacket refl w
        (λ s' w'. stops base s' w'))
      (rw ro w)
read_stdin-Goes base o (read_failed IoError.interrupted) s ro w = w
read_stdin-Goes base o (read_failed e) s ro w = stops base s w

read_socket-Goes :
    (base : Bytes) (o : AttachOpts) (size : Winsize) (s : Terminal)
    → Whole base s
    → Goes base (read_socket o size s)
unfolding read_socket
read_socket-Goes base o size s w = elim (Result-cases (recv_packet_blocking s.incoming)) [
  | inr (e, failed) ↦ rw (failed, Goes) (stops base s w)
  | inl ((pkt, rest), received) ↦
      rw (received, Goes)
        (handle_server_packet-Goes base o size pkt (record s { incoming = rest })
          (recv_packet_blocking-fits s.incoming pkt rest received)
          (record { packets = w.packets; wire = w.wire; valid = w.valid; no_input = w.no_input }))
]

then_stdin :
    (base : Bytes) (o : AttachOpts) (stdin : Option ReadAnswer) (p : Progress)
    → (bit_and o.flags client_readonly == 0) ≡ false
    → Goes base p
    → let next : Progress = elim p [
      | returned r s ↦ returned r s
      | again s ↦ elim stdin [ none ↦ again s | some a ↦ read_stdin o a s ]
    ] in
      Goes base next
then_stdin base o stdin (returned r s) ro g = g
then_stdin base o none (again s) ro g = g
then_stdin base o (some a) (again s) ro g = read_stdin-Goes base o a s ro g

client_step-Goes :
    (base : Bytes) (o : AttachOpts) (size : Winsize) (ev : Event) (s : Terminal)
    → (bit_and o.flags client_readonly == 0) ≡ false
    → Whole base s
    → Goes base (client_step o size ev s)
unfolding client_step
client_step-Goes base o size (select_interrupted winch) s ro w =
    branch base winch _ _
      (send_then-Goes base s (resize_packet size) again (resize_packet-IsPacket size) refl w
        (λ s' w'. w'))
      w
client_step-Goes base o size (select_failed e) s ro w = stops base s w
client_step-Goes base o size (ready socket stdin) s ro w =
    then_stdin base o stdin _ ro (branch base socket _ _ (read_socket-Goes base o size s w) w)

-- The terminal that the loop has come to.
abbrev pub terminal_of : Progress → Terminal
terminal_of (again s) = s
terminal_of (returned r s) = s

Goes-SendsNoInput : (base : Bytes) (p : Progress) → Goes base p → SendsNoInput base (terminal_of p)
Goes-SendsNoInput base (again s) w = stops base s w
Goes-SendsNoInput base (returned r s) w = w

loop_step :
    (base : Bytes) (o : AttachOpts) (ws : List Wake) (p : Progress)
    → Goes base p
    → ((s : Terminal) → Whole base s → Goes base (client_loop o ws s))
    → let next : Progress = elim p [ again s ↦ client_loop o ws s | returned r s ↦ returned r s ] in
      Goes base next
loop_step base o ws (again s) g later = later s g
loop_step base o ws (returned r s) g later = g

client_loop-Goes :
    (base : Bytes) (o : AttachOpts) (wakes : List Wake) (s : Terminal)
    → (bit_and o.flags client_readonly == 0) ≡ false
    → Whole base s
    → Goes base (client_loop o wakes s)
unfolding client_loop
client_loop-Goes base o [] s ro w = w
client_loop-Goes base o (k ∷ ks) s ro w =
    loop_step base o ks _ (client_step-Goes base o k.winsize k.event s ro w)
      (λ s' w'. client_loop-Goes base o ks s' ro w')

-- A client with the read-only flag sends no input, whatever is typed and whatever comes from the server:
-- all it writes to the server in its loop are well-formed packets, none of which is one that the server
-- takes as input, the last one perhaps cut off by an error.
pub readonly_client_sends_no_input :
    (o : AttachOpts) (wakes : List Wake) (s : Terminal)
    → (bit_and o.flags client_readonly == 0) ≡ false
    → SendsNoInput s.stream.wire (terminal_of (client_loop o wakes s))
readonly_client_sends_no_input o wakes s ro = Goes-SendsNoInput s.stream.wire _ (
    client_loop-Goes s.stream.wire o wakes s ro
      (record { packets = []; wire = sym (append-nil s.stream.wire); valid = tt; no_input = tt }))
