-- ===== src/Attach/Typed/Rounds.antt =====
-- What is typed at the attach client of src/main.rs, and what a server that reads it in pieces puts on
-- the pty.
use abduco_inline.Prelude.{
  ℕ, ◌≤◌, ◌<◌, ◌≡◌, refl, sym, ap, ◌∙◌, subst, List, [], ◌∷◌, ◌++◌, append-nil, All, concat, length,
  true, bit_and, arith,
}
use abduco_inline.Prelude.Bytes.{Bytes}
use abduco_inline.Protocol.Loop.{encode_all}
use abduco_inline.History.{History}
use abduco_inline.Server.Client.{Client}
use abduco_inline.Server.Packets.{Pty, client_readonly, may_write}
use abduco_inline.Server.Packets.Delivery.{TakesAll}
use abduco_inline.Server.Packets.Rounds.{IsTyped}
use abduco_inline.Server.Packets.Rounds.Reading.{IsIntact, data_of, pauses}
use abduco_inline.Server.Packets.Rounds.Pieces.{read_rounds, input_arrives_in_pieces}
use abduco_inline.Cli.Task.{AttachOpts}
use abduco_inline.Attach.{Wake, Terminal, again, client_loop}
use abduco_inline.Attach.Typed.{typed, Sent}
use abduco_inline.Attach.Typed.Loop.{Goes, client_loop-Goes}
use abduco_inline.Attach.Typed.Session.{FitsBuffer}

append_cancel : (xs ys zs : Bytes) → xs ++ ys ≡ xs ++ zs → ys ≡ zs
append_cancel [] ys zs e = e
append_cancel (x ∷ xs) ys zs e = append_cancel xs ys zs cc

-- Nothing was sent yet.
unused_wire : (wire : Bytes) → Sent IsTyped wire wire []
unused_wire wire = record {
  packets = [];
  bytes = sym (append-nil wire);
  valid = tt;
  kinds = tt;
  input = refl;
}

-- What the user types while the client runs reaches the pty, all of it and in its order, however the
-- connection cuts the client's stream into pieces and in however many rounds of the server they come,
-- once there was a round more than reads that would block. The client may write, on both sides, the
-- server's reads do not fail and it has handled what was sent before; and the pty takes each payload at
-- once.
pub typed_input_arrives_in_pieces :
    (o : AttachOpts) (wakes : List Wake) (s s' : Terminal) (rounds : List (ℕ × History))
    (c : Client) (pty : Pty)
    → bit_and o.flags client_readonly ≡ 0
    → All FitsBuffer wakes
    → client_loop o wakes s ≡ again s'
    → may_write c ≡ true
    → c.buf ≡ []
    → s'.stream.wire ≡ s.stream.wire ++ data_of c.stream.reads
    → IsIntact c.stream.reads
    → pauses c.stream.reads < length rounds
    → All TakesAll pty.writes
    → length (typed o wakes) ≤ length pty.writes
    → (read_rounds rounds c pty).1.written ≡ pty.written ++ concat (typed o wakes)
typed_input_arrives_in_pieces o wakes s s' rounds c pty w fits runs writer empty same arrives enough
      takes room =
    let base = s.stream.wire in
    let v : Sent IsTyped base s'.stream.wire (typed o wakes) =
      subst (Goes base (typed o wakes)) runs
        (client_loop-Goes base [] o wakes s w fits (unused_wire base)) in
    let stream =
      append_cancel base (data_of c.stream.reads) (encode_all v.packets) (sym same ∙ v.bytes) in
    input_arrives_in_pieces rounds v.packets c pty
      (ap (λ (b : Bytes). b ++ data_of c.stream.reads) empty ∙ stream) arrives enough writer v.kinds
      v.valid takes (omega (arith, room, ap (length {A = Bytes}) v.input))
    ∙ ap (λ (t : List Bytes). pty.written ++ concat t) v.input
