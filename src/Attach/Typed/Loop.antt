-- ===== src/Attach/Typed/Loop.antt =====
-- `client_loop` in src/main.rs, with what is typed: the packets that it sends.
use abduco_inline.Prelude.{
  ◌≤◌, ◌≡◌, refl, List, [], ◌∷◌, ◌++◌, append-nil, append_assoc, All, length, subst, ◌==◌,
  if◌then◌else◌, Bool, Bool-cases, Result-cases, inl, inr, true, false, not, ◌&&◌, Option, none,
  some, bit_and, arith, Result, ok, err, IoError,
}
use abduco_inline.Prelude.Bytes.{Bytes}
use abduco_inline.Protocol.{
  Packet, max_payload, msg_content, msg_resize, msg_exit, recv_packet_blocking,
}
use abduco_inline.Stream.{Stream, ReadAnswer, read_ok, read_failed, write_loop}
use abduco_inline.Server.Client.{content}
use abduco_inline.Server.Packets.{client_readonly}
use abduco_inline.Cli.Task.{AttachOpts}
use abduco_inline.Attach.{
  exited, detached, io_error, Winsize, Event, Wake, Terminal, Progress, again, returned,
  resize_packet, detach_packet, send_then, print, handle_server_packet, read_socket, read_stdin,
  client_step, client_loop, select_interrupted, select_failed, ready,
}
use abduco_inline.Server.Packets.Rounds.{IsTyped}
use abduco_inline.Attach.Typed.{
  input_of, typed, Sent, Sent-packet, Sent-none, Step, send_then-result,
}

-- What the socket's part of a round leads to.
abbrev Heard : Bytes → List Bytes → Progress → Type 0
Heard base texts (again s) = Sent IsTyped base s.stream.wire texts
Heard base texts (returned (ok detached) s) = ⊥
Heard base texts (returned r s) = Unit

branch : (P : Progress → Type 0) (b : Bool) (p q : Progress) → P p → P q → P (if b then p else q)
branch P true p q hp hq = hp
branch P false p q hp hq = hq

printed-Heard :
    (base : Bytes) (texts : List Bytes) (s : Terminal) (stdout : Stream)
    (result : Result (Unit {0}))
    → Sent IsTyped base s.stream.wire texts
    → let s' : Terminal = record s { stdout = stdout } in
      Heard base texts (elim result [ ok _ ↦ again s' | err e ↦ returned (err e) s' ])
printed-Heard base texts s stdout (ok u) v = v
printed-Heard base texts s stdout (err e) v = tt

print-Heard :
    (base : Bytes) (texts : List Bytes) (bytes : Bytes) (s : Terminal)
    → Sent IsTyped base s.stream.wire texts
    → Heard base texts (print bytes s)
unfolding print
print-Heard base texts bytes s v =
    printed-Heard base texts s _ (write_loop s.stdout.writes bytes s.stdout.wire).result v

resize-Heard :
    (base : Bytes) (texts : List Bytes) (size : Winsize) (s : Terminal)
    → Sent IsTyped base s.stream.wire texts
    → Heard base texts (send_then s (resize_packet size) again)
resize-Heard base texts size s v =
    send_then-result (Heard base texts) s (resize_packet size) again (λ e s'. tt)
      (λ stream wire.
        Sent-packet IsTyped base _ _ texts texts (resize_packet size) (omega arith) (inr (inl refl))
          (append-nil texts) wire v)

handle_server_packet-Heard :
    (base : Bytes) (texts : List Bytes) (o : AttachOpts) (size : Winsize) (pkt : Packet)
    (s : Terminal)
    → Sent IsTyped base s.stream.wire texts
    → Heard base texts (handle_server_packet o size pkt s)
unfolding handle_server_packet
handle_server_packet-Heard base texts o size pkt s v =
    let P = Heard base texts in
    branch P (pkt.typ == msg_content && not o.passthrough) _ _
      (print-Heard base texts pkt.payload s v)
      (branch P (pkt.typ == msg_content) _ _ v (
        branch P (pkt.typ == msg_resize) _ _ (resize-Heard base texts size s v)
          (branch P (pkt.typ == msg_exit) _ _ tt v)))

read_socket-Heard :
    (base : Bytes) (texts : List Bytes) (o : AttachOpts) (size : Winsize) (s : Terminal)
    → Sent IsTyped base s.stream.wire texts
    → Heard base texts (read_socket o size s)
unfolding read_socket
read_socket-Heard base texts o size s v = elim (Result-cases (recv_packet_blocking s.incoming)) [
  | inr (e, failed) ↦ rw (failed, Heard) tt
  | inl ((pkt, rest), received) ↦
      rw (received, Heard)
        (handle_server_packet-Heard base texts o size pkt (record s { incoming = rest }) v)
]

read_stdin-Step :
    (base : Bytes) (texts : List Bytes) (o : AttachOpts) (socket : Bool) (a : ReadAnswer)
    (s : Terminal)
    → bit_and o.flags client_readonly ≡ 0
    → All (λ d. length d ≤ max_payload) (input_of (ready socket (some a)))
    → Sent IsTyped base s.stream.wire texts
    → Step o (ready socket (some a)) base texts (read_stdin o a s)
unfolding read_stdin
read_stdin-Step base texts o socket (read_ok []) s w fits v = (refl, v)
read_stdin-Step base texts o socket (read_ok (b ∷ bs)) s w fits v =
    elim (Bool-cases (b == o.detach_key)) [
      | inl key ↦ rw key (
          send_then-result (Step o (ready socket (some (read_ok (b ∷ bs)))) base texts) s
            detach_packet _ (λ e s'. tt)
            (λ stream wire. (
              key,
              Sent-packet IsTyped base _ _ texts texts detach_packet (omega arith)
                  (inr (inr (inl refl))) (append-nil texts) wire v,
            )))
      | inr other ↦ rw other (
          rw w (
            send_then-result (Step o (ready socket (some (read_ok (b ∷ bs)))) base texts) s
              (content (b ∷ bs)) again (λ e s'. tt)
              (λ stream wire. (
                other,
                Sent-packet IsTyped base _ _ texts _ (content (b ∷ bs))
                    (record { typ_fits = omega arith; payload_fits = fits.0 }) (inl refl) refl wire
                    v,
              ))))
    ]
read_stdin-Step base texts o socket (read_failed IoError.interrupted) s w fits v =
    (refl, Sent-none IsTyped base s.stream.wire texts v)
read_stdin-Step base texts o socket (read_failed e) s w fits v = tt

then_stdin :
    (base : Bytes) (texts : List Bytes) (o : AttachOpts) (socket : Bool) (stdin : Option ReadAnswer)
    (p : Progress)
    → bit_and o.flags client_readonly ≡ 0
    → All (λ d. length d ≤ max_payload) (input_of (ready socket stdin))
    → Heard base texts p
    → let next : Progress = elim p [
      | returned r s ↦ returned r s
      | again s ↦ elim stdin [ none ↦ again s | some a ↦ read_stdin o a s ]
    ] in
      Step o (ready socket stdin) base texts next
then_stdin base texts o socket stdin (returned (ok detached) s) w fits v = absurd v
then_stdin base texts o socket stdin (returned (ok io_error) s) w fits v = tt
then_stdin base texts o socket stdin (returned (ok (exited n)) s) w fits v = tt
then_stdin base texts o socket stdin (returned (err e) s) w fits v = tt
then_stdin base texts o socket none (again s) w fits v =
    (refl, Sent-none IsTyped base s.stream.wire texts v)
then_stdin base texts o socket (some a) (again s) w fits v =
    read_stdin-Step base texts o socket a s w fits v

winch_step :
    (base : Bytes) (texts : List Bytes) (o : AttachOpts) (winch : Bool) (p : Progress)
    → Heard base texts p
    → Step o (select_interrupted winch) base texts p
winch_step base texts o winch (again s) v = (refl, Sent-none IsTyped base s.stream.wire texts v)
winch_step base texts o winch (returned (ok detached) s) v = absurd v
winch_step base texts o winch (returned (ok io_error) s) v = tt
winch_step base texts o winch (returned (ok (exited n)) s) v = tt
winch_step base texts o winch (returned (err e) s) v = tt

client_step-Step :
    (base : Bytes) (texts : List Bytes) (o : AttachOpts) (size : Winsize) (ev : Event)
    (s : Terminal)
    → bit_and o.flags client_readonly ≡ 0
    → All (λ d. length d ≤ max_payload) (input_of ev)
    → Sent IsTyped base s.stream.wire texts
    → Step o ev base texts (client_step o size ev s)
unfolding client_step
client_step-Step base texts o size (select_interrupted winch) s w fits v =
    winch_step base texts o winch _
      (branch (Heard base texts) winch _ _ (resize-Heard base texts size s v) v)
client_step-Step base texts o size (select_failed e) s w fits v = tt
client_step-Step base texts o size (ready socket stdin) s w fits v =
    then_stdin base texts o socket stdin _ w fits
      (branch (Heard base texts) socket _ _ (read_socket-Heard base texts o size s v) v)

-- Where a run of the client leads to: the connection is still there, or the user has left it.
abbrev pub Goes : Bytes → List Bytes → Progress → Type 0
Goes base texts (again s) = Sent IsTyped base s.stream.wire texts
Goes base texts (returned (ok detached) s) = Sent IsTyped base s.stream.wire texts
Goes base texts (returned r s) = Unit

loop_step :
    (base : Bytes) (texts : List Bytes) (o : AttachOpts) (w : Wake) (ws : List Wake) (p : Progress)
    → Step o w.event base texts p
    → ((s : Terminal)
        → Sent IsTyped base s.stream.wire (texts ++ input_of w.event)
        → Goes base ((texts ++ input_of w.event) ++ typed o ws) (client_loop o ws s))
    → let next : Progress = elim p [ again s ↦ client_loop o ws s | returned r s ↦ returned r s ] in
      Goes base (texts ++ typed o (w ∷ ws)) next
loop_step base texts o w ws (again s) (e, v) later = rw e (
    subst (λ (t : List Bytes). Goes base t (client_loop o ws s))
      (append_assoc texts (input_of w.event) (typed o ws)) (later s v))
loop_step base texts o w ws (returned (ok detached) s) (e, v) later =
    rw e (Sent-none IsTyped base s.stream.wire texts v)
loop_step base texts o w ws (returned (ok io_error) s) v later = tt
loop_step base texts o w ws (returned (ok (exited n)) s) v later = tt
loop_step base texts o w ws (returned (err e) s) v later = tt

pub client_loop-Goes :
    (base : Bytes) (texts : List Bytes) (o : AttachOpts) (wakes : List Wake) (s : Terminal)
    → bit_and o.flags client_readonly ≡ 0
    → All (λ w. All (λ d. length d ≤ max_payload) (input_of w.event)) wakes
    → Sent IsTyped base s.stream.wire texts
    → Goes base (texts ++ typed o wakes) (client_loop o wakes s)
unfolding client_loop
client_loop-Goes base texts o [] s w fits v = Sent-none IsTyped base s.stream.wire texts v
client_loop-Goes base texts o (k ∷ ks) s w (fit, fits) v =
    loop_step base texts o k ks _ (client_step-Step base texts o k.winsize k.event s w fit v)
      (λ s' v'. client_loop-Goes base _ o ks s' w fits v')
