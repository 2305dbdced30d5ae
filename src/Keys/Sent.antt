-- ===== src/Keys/Sent.antt =====
-- `send_keys_session` in src/main.rs: what goes on the wire, and what reaches the pty.
use mathlib.Core.List.{map}
use mathlib.Core.Option
use abduco_inline.Prelude.{
  ℕ, suc, inl, ◌<◌, ◌≤◌, ◌≡◌, refl, sym, ap, ◌∙◌, List, [], ◌∷◌, ◌++◌, append-nil, append_assoc,
  length, concat, Bool, true, false, arith, All, ok, err, Result,
}
use abduco_inline.Prelude.Bytes.{Bytes}
use abduco_inline.Protocol.{packet_bytes, max_payload}
use abduco_inline.Protocol.Framing.{IsPacket}
use abduco_inline.Protocol.Loop.{encode_all}
use abduco_inline.History.{History}
use abduco_inline.Stream.{Stream, send_packet_blocking}
use abduco_inline.Stream.Writing.{wire-send_packet_blocking}
use abduco_inline.Server.Client.{Client, chunks}
use abduco_inline.Server.Client.Outbound.Chunks.{concat-chunks, chunks-fits}
use abduco_inline.Server.Packets.{Pty, may_write}
use abduco_inline.Server.Packets.Delivery.{TakesAll, inputs}
use abduco_inline.Server.Packets.Rounds.{IsTyped}
use abduco_inline.Server.Packets.Rounds.Reading.{IsIntact, data_of, pauses}
use abduco_inline.Server.Packets.Rounds.Pieces.{read_rounds, input_arrives_in_pieces}
use abduco_inline.Keys.{
  key_token_bytes, encode_key, encode_keys, keys_packet, send_all, send_keys_session,
}

-- The keys behind the first, each behind a space.
abbrev pub spaced : List Bytes → Bytes
spaced keys = concat (map (λ (key : Bytes). 32 ∷ key) keys)

encode_keys-literal :
    (keys : List Bytes) (idx : ℕ) (bytes : Bytes)
    → encode_keys true (suc idx) keys bytes ≡ bytes ++ spaced keys
unfolding encode_keys encode_key
encode_keys-literal [] idx bytes = sym (append-nil bytes)
encode_keys-literal (key ∷ keys) idx bytes = ground (
  arith,
  encode_keys-literal keys (suc idx) (bytes ++ 32 ∷ key),
  append_assoc bytes (32 ∷ key) (spaced keys),
)

encode_keys-named :
    (keys : List Bytes) (idx : ℕ) (bytes : Bytes)
    → encode_keys false idx keys bytes
      ≡ bytes ++ concat (map (λ (key : Bytes). Option.get_or (key_token_bytes key) key) keys)
unfolding encode_keys encode_key
encode_keys-named [] idx bytes = sym (append-nil bytes)
encode_keys-named (key ∷ keys) idx bytes =
    encode_keys-named keys (suc idx) (bytes ++ Option.get_or (key_token_bytes key) key)
    ∙ append_assoc bytes (Option.get_or (key_token_bytes key) key) _

-- The bytes that the keys stand for: in literal mode the keys joined by single spaces, and else each
-- key's encoding, or the key itself where it has none, one behind the other.
abbrev pub spelled : Bool → List Bytes → Bytes
spelled true [] = []
spelled true (key ∷ keys) = key ++ spaced keys
spelled false keys = concat (map (λ (k : Bytes). Option.get_or (key_token_bytes k) k) keys)

encode_keys-spelled :
    (literal : Bool) (keys : List Bytes) → encode_keys literal 0 keys [] ≡ spelled literal keys
unfolding encode_keys encode_key
encode_keys-spelled true [] = refl
encode_keys-spelled true (key ∷ keys) = encode_keys-literal keys 0 key
encode_keys-spelled false keys = encode_keys-named keys 0 []

send_step-wire :
    (chunk : Bytes) (more : List Bytes) (base : Bytes) (out : Result (Unit {0}) × Stream)
    → (out.0 ≡ ok tt → out.1.wire ≡ base ++ packet_bytes (keys_packet chunk))
    → ((s : Stream)
        → (send_all more s).0 ≡ ok tt
        → (send_all more s).1.wire ≡ s.wire ++ encode_all (map keys_packet more))
    → let next : Result (Unit {0}) × Stream = elim out.0 [
      | ok _ ↦ send_all more out.1
      | err e ↦ (err e, out.1)
    ] in
      next.0 ≡ ok tt → next.1.wire ≡ base ++ encode_all (map keys_packet (chunk ∷ more))
send_step-wire chunk more base (ok tt, s) sent later done =
    later s done
    ∙ ap (λ (b : Bytes). b ++ encode_all (map keys_packet more)) (sent refl)
    ∙ append_assoc base (packet_bytes (keys_packet chunk)) (encode_all (map keys_packet more))
send_step-wire chunk more base (err e, s) sent later done = cc

wire-send_all :
    (cs : List Bytes) (s : Stream)
    → (send_all cs s).0 ≡ ok tt
    → (send_all cs s).1.wire ≡ s.wire ++ encode_all (map keys_packet cs)
unfolding send_all
wire-send_all [] s done = sym (append-nil s.wire)
wire-send_all (c ∷ cs) s done =
    send_step-wire c cs s.wire (send_packet_blocking s (keys_packet c))
      (wire-send_packet_blocking s (keys_packet c)) (wire-send_all cs) done

wire-send_keys_session :
    (s : Stream) (incoming : Bytes) (keys : List Bytes) (literal : Bool)
    → (send_keys_session s incoming keys literal).0 ≡ ok tt
    → (send_keys_session s incoming keys literal).1.wire
      ≡ s.wire ++ encode_all (map keys_packet (chunks max_payload (encode_keys literal 0 keys [])))
unfolding send_keys_session
wire-send_keys_session s incoming keys literal done =
    ground (arith, wire-send_all (chunks max_payload (encode_keys literal 0 keys [])) s)

-- The packets of the keys are input, and their payloads are the chunks.
inputs-keys_packet : (cs : List Bytes) → inputs (map keys_packet cs) ≡ cs
inputs-keys_packet [] = refl
inputs-keys_packet (c ∷ cs) = ap (◌∷◌ c) (inputs-keys_packet cs)

keys_packet-IsTyped : (cs : List Bytes) → All IsTyped (map keys_packet cs)
keys_packet-IsTyped [] = tt
keys_packet-IsTyped (c ∷ cs) = (inl refl, keys_packet-IsTyped cs)

keys_packet-IsPacket :
    (cs : List Bytes) → All (λ c. length c ≤ max_payload) cs → All IsPacket (map keys_packet cs)
keys_packet-IsPacket [] h = tt
keys_packet-IsPacket (c ∷ cs) (h, hs) =
    (record { typ_fits = omega arith; payload_fits = h }, keys_packet-IsPacket cs hs)

-- The bytes that a successful `-K` command writes to a new connection put exactly what the keys stand for
-- on the pty, in their order, however the connection cuts them into pieces and in however many rounds of the
-- server they come, its end with the last of them or later, once there was a round more than reads that
-- would block. On the side of the server the client may write and its reads do not fail; and the pty
-- takes each payload at once.
pub keys_reach_pty :
    (s : Stream) (incoming : Bytes) (keys : List Bytes) (literal : Bool)
    (rounds : List (ℕ × History)) (c : Client) (pty : Pty)
    → s.wire ≡ []
    → (send_keys_session s incoming keys literal).0 ≡ ok tt
    → c.buf ≡ []
    → data_of c.stream.reads ≡ (send_keys_session s incoming keys literal).1.wire
    → IsIntact c.stream.reads
    → pauses c.stream.reads < length rounds
    → may_write c ≡ true
    → All TakesAll pty.writes
    → length (chunks max_payload (encode_keys literal 0 keys [])) ≤ length pty.writes
    → (read_rounds rounds c pty).1.written ≡ pty.written ++ spelled literal keys
keys_reach_pty s incoming keys literal rounds c pty fresh done empty same arrives enough writer
      takes room =
    let bytes = encode_keys literal 0 keys [] in
    let cs = chunks max_payload bytes in
    let received =
      ap (λ (b : Bytes). b ++ data_of c.stream.reads) empty
      ∙ same
      ∙ wire-send_keys_session s incoming keys literal done
      ∙ ap (λ (b : Bytes). b ++ encode_all (map keys_packet cs)) fresh in
    input_arrives_in_pieces rounds (map keys_packet cs) c pty received arrives enough writer
      (keys_packet-IsTyped cs) (keys_packet-IsPacket cs (chunks-fits max_payload bytes)) takes
      (omega (arith, room, ap (length {A = Bytes}) (inputs-keys_packet cs)))
    ∙ ap (λ (t : List Bytes). pty.written ++ concat t) (inputs-keys_packet cs)
    ∙ ap (◌++◌ (pty.written))
        (concat-chunks max_payload bytes (omega arith) ∙ encode_keys-spelled literal keys)
