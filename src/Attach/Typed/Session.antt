-- ===== src/Attach/Typed/Session.antt =====
-- What is typed at a whole session, `attach_session` in src/main.rs, and what the server puts on the pty.
use abduco_inline.Prelude.{
  ℕ, ◌^◌, ◌≤◌, ◌<◌, ◌≡◌, refl, sym, ap, ◌∙◌, subst, List, [], ◌∷◌, ◌++◌, append-nil, append_assoc,
  All, concat, length, arith, ok, err, Result-cases, inl, inr, ◌⊎◌, Bool, true, false, bit_and,
}
use abduco_inline.Prelude.Bytes.{Bytes}
use abduco_inline.Protocol.{packet_bytes, max_payload, recv_packet_blocking}
use abduco_inline.History.{History}
use abduco_inline.Server.Client.{Client}
use abduco_inline.Server.Packets.{Pty, client_readonly, may_write}
use abduco_inline.Server.Packets.Delivery.{TakesAll}
use abduco_inline.Server.Packets.Rounds.{IsTyped}
use abduco_inline.Server.Packets.Rounds.Reading.{IsIntact, data_of, pauses}
use abduco_inline.Server.Packets.Rounds.Pieces.{read_rounds, input_arrives_in_pieces}
use abduco_inline.Cli.Task.{AttachOpts}
use abduco_inline.Attach.{
  Winsize, Wake, Terminal, Progress, again, returned, detached, resize_packet, attach_request,
  client_loop, attach_session, exited, io_error, entered, left,
}
use abduco_inline.Attach.Typed.{input_of, typed, Sent, send_then-result}
use abduco_inline.Attach.Typed.Loop.{Goes, client_loop-Goes}

-- Each read of stdin has room in the buffer of MAX_PAYLOAD bytes.
abbrev pub FitsBuffer : Wake → Type 0
FitsBuffer w = All (λ d. length d ≤ max_payload) (input_of w.event)

-- What the wire holds behind both requests.
abbrev requests : AttachOpts → Winsize → Bytes → Bytes
requests o size wire =
    (wire ++ packet_bytes (attach_request o.flags)) ++ packet_bytes (resize_packet size)

second_sent :
    (o : AttachOpts) (size : Winsize) (wakes : List Wake) (s : Terminal) (base : Bytes)
    → bit_and o.flags client_readonly ≡ 0
    → All FitsBuffer wakes
    → s.stream.wire ≡ base
    → Goes base (typed o wakes) (client_loop o wakes s)
second_sent o size wakes s base w fits e = client_loop-Goes base [] o wakes s w fits (record {
  packets = [];
  bytes = e ∙ sym (append-nil base);
  valid = tt;
  kinds = tt;
  input = refl;
})

left-Goes :
    (base : Bytes) (texts : List Bytes) (raw : Bool) (p : Progress)
    → Goes base texts p
    → Goes base texts (left raw p)
left-Goes base texts false p g = g
left-Goes base texts true (again s) g = g
left-Goes base texts true (returned (ok detached) s) g = g
left-Goes base texts true (returned (ok io_error) s) g = g
left-Goes base texts true (returned (ok (exited n)) s) g = g
left-Goes base texts true (returned (err e) s) g = g

wire-entered : (raw : Bool) (s : Terminal) → (entered raw s).stream.wire ≡ s.stream.wire
wire-entered false s = refl
wire-entered true s = refl

attach_session-Goes :
    (o : AttachOpts) (size : Winsize) (raw : Bool) (wakes : List Wake) (s : Terminal)
    → bit_and o.flags client_readonly ≡ 0
    → All FitsBuffer wakes
    → Goes (requests o size s.stream.wire) (typed o wakes) (attach_session o size raw wakes s)
unfolding attach_session
attach_session-Goes o size raw wakes s w fits =
    elim (Result-cases (recv_packet_blocking s.incoming)) [
      | inr (e, failed) ↦ rw (failed, Goes) tt
      | inl ((pkt, rest), received) ↦
          let P = Goes (requests o size s.stream.wire) (typed o wakes) in
          rw (received, Goes)
            (send_then-result P (record s { incoming = rest }) (attach_request o.flags) _
              (λ e s'. tt)
              (λ stream wire.
                send_then-result P (record s { incoming = rest; stream = stream })
                  (resize_packet size) _ (λ e s'. tt)
                  (λ stream' wire'.
                    left-Goes (requests o size s.stream.wire) (typed o wakes) raw _ (
                      second_sent o size wakes _ _ w fits (
                        wire-entered raw _
                        ∙ wire'
                        ∙ ap (λ (b : Bytes). b ++ packet_bytes (resize_packet size)) wire)))))
    ]

-- The client still runs, or its user has left the session.
abbrev pub ComesTo : Progress → Terminal → Type 0
ComesTo p s = (p ≡ again s) ⊎ (p ≡ returned (ok detached) s)

ComesTo-Sent :
    (base : Bytes) (texts : List Bytes) (p : Progress) (s : Terminal)
    → Goes base texts p
    → ComesTo p s
    → Sent IsTyped base s.stream.wire texts
ComesTo-Sent base texts p s g (inl e) = subst (Goes base texts) e g
ComesTo-Sent base texts p s g (inr e) = subst (Goes base texts) e g

-- Both requests, and what follows.
requests-Sent :
    (o : AttachOpts) (size : Winsize) (texts : List Bytes) (wire : Bytes)
    → bit_and o.flags client_readonly ≡ 0
    → o.flags < 2 ^ 32
    → Sent IsTyped (requests o size []) wire texts
    → Sent IsTyped [] wire texts
requests-Sent o size texts wire w lt v = record {
  packets = attach_request o.flags ∷ resize_packet size ∷ v.packets;
  bytes =
      v.bytes
      ∙ append_assoc (packet_bytes (attach_request o.flags)) (packet_bytes (resize_packet size)) _;
  valid = (omega arith, (omega arith, v.valid));
  kinds = (inr (inr (inr (o.flags, refl, lt, w))), (inr (inl refl), v.kinds));
  input = v.input;
}

-- All that a session has written to a new connection.
pub attach_session-Sent :
    (o : AttachOpts) (size : Winsize) (raw : Bool) (wakes : List Wake) (s s' : Terminal)
    → bit_and o.flags client_readonly ≡ 0
    → o.flags < 2 ^ 32
    → All FitsBuffer wakes
    → s.stream.wire ≡ []
    → ComesTo (attach_session o size raw wakes s) s'
    → Sent IsTyped [] s'.stream.wire (typed o wakes)
attach_session-Sent o size raw wakes s s' w lt fits fresh comes =
    let goes =
      subst
        (λ (b : Bytes).
          Goes (requests o size b) (typed o wakes) (attach_session o size raw wakes s))
        fresh (attach_session-Goes o size raw wakes s w fits) in
    requests-Sent o size (typed o wakes) s'.stream.wire w lt (ComesTo-Sent _ _ _ s' goes comes)

-- From end to end: what the user types at a client that may write reaches the pty of the session, all of it
-- and in its order, up to the detach key or the end of the input, whatever else wakes the client in
-- between, however the connection cuts the client's stream into pieces, and in however many rounds of
-- the server they come, once there was a round more than reads that would block. The client still runs,
-- or its user has left the session; on the server its connection is new and the reads do not fail; and
-- the pty takes each payload at once.
pub typed_input_reaches_pty :
    (o : AttachOpts) (size : Winsize) (raw : Bool) (wakes : List Wake) (s s' : Terminal)
    (rounds : List (ℕ × History)) (c : Client) (pty : Pty)
    → bit_and o.flags client_readonly ≡ 0
    → o.flags < 2 ^ 32
    → All FitsBuffer wakes
    → s.stream.wire ≡ []
    → ComesTo (attach_session o size raw wakes s) s'
    → c.buf ++ data_of c.stream.reads ≡ s'.stream.wire
    → IsIntact c.stream.reads
    → pauses c.stream.reads < length rounds
    → may_write c ≡ true
    → All TakesAll pty.writes
    → length (typed o wakes) ≤ length pty.writes
    → (read_rounds rounds c pty).1.written ≡ pty.written ++ concat (typed o wakes)
typed_input_reaches_pty o size raw wakes s s' rounds c pty w lt fits fresh comes same arrives enough
      writer takes room =
    let v = attach_session-Sent o size raw wakes s s' w lt fits fresh comes in
    input_arrives_in_pieces rounds v.packets c pty (same ∙ v.bytes) arrives enough writer v.kinds
      v.valid takes (ground (arith, v.input, room))
    ∙ ap (λ (t : List Bytes). pty.written ++ concat t) v.input
