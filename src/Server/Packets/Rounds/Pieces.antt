-- ===== src/Server/Packets/Rounds/Pieces.antt =====
-- The reads of a client over several rounds of `server_loop` in src/main.rs, however its connection cuts
-- the stream of its packets.
use mathlib.Core.List.{foldl}
use abduco_inline.Prelude.{
  ℕ, suc, ◌≤◌, ◌<◌, ◌≡◌, sym, ap, ◌∙◌, subst, List, [], ◌∷◌, ◌++◌, append-nil, length,
  length-append, concat, All, All-append_left, All-append_right, true, inl, inr, ◌⊎◌, arith,
}
use abduco_inline.Prelude.Bytes.{Bytes}
use abduco_inline.Protocol.{Packet}
use abduco_inline.Protocol.Framing.{IsPacket}
use abduco_inline.Protocol.Loop.{encode_all}
use abduco_inline.Protocol.Feed.{Divides, divide, Waits-encode_all}
use abduco_inline.History.{History}
use abduco_inline.Stream.{ReadSoFar, ReadAnswer, read_loop}
use abduco_inline.Server.Client.{Client}
use abduco_inline.Server.Packets.{Pty, may_write, handle_packet, read_client_packets}
use abduco_inline.Server.Packets.Delivery.{TakesAll, inputs, inputs-append}
use abduco_inline.Server.Packets.Rounds.{IsTyped, Handled, then_Handled, foldl-Passes}
use abduco_inline.Server.Packets.Rounds.Reading.{
  IsIntact, data_of, pauses, Takes, read_loop-Takes, taken, read_client_packets-Divides, later-nil,
}

-- One round after another, each with its time and its history.
unfoldable pub read_rounds : List (ℕ × History) → Client → Pty → Client × Pty
read_rounds [] c pty = (c, pty)
read_rounds ((now, h) ∷ rounds) c pty =
    let (c', pty') = read_client_packets now h c pty in read_rounds rounds c' pty'

-- What is still to come of some packets: `n` rounds are enough for it.
pub record Awaits (n : ℕ) (ps : List Packet) (c : Client) : Type 0 where
  pub bytes : c.buf ++ data_of c.stream.reads ≡ encode_all ps
  pub intact : IsIntact c.stream.reads
  pub enough : (pauses c.stream.reads < n) ⊎ (ps ≡ [])
  pub writer : may_write c ≡ true
  pub kinds : All IsTyped ps
  pub valid : All IsPacket ps

-- What a round leads to: front packets have been handled, and the rest is awaited.
pub record Advances (n : ℕ) (ps : List Packet) (pty : Pty) (out : Client × Pty) : Type 0 where
  pub whole : List Packet
  pub later : List Packet
  pub packets : ps ≡ whole ++ later
  pub awaits : Awaits n later out.0
  pub handled : Handled (inputs whole) pty out.1

less_to_come :
    (n : ℕ) (rs : List ReadAnswer) (buf : Bytes) (ps : List Packet) (r : ReadSoFar)
    (d : Divides ps r.buf (data_of r.reads))
    → Takes rs buf r
    → All IsPacket d.later
    → (pauses rs < suc n) ⊎ (ps ≡ [])
    → (pauses r.reads < n) ⊎ (d.later ≡ [])
less_to_come n rs buf ps r d t v (inr nil) = inr (later-nil d.whole d.later (sym nil ∙ d.packets))
less_to_come n rs buf ps r d t v (inl lt) = elim t.pause [
  | inl less ↦ inl (omega (arith, less, lt))
  | inr none_left ↦ inr (
      Waits-encode_all d.later d.tail v d.waits (
        sym (append-nil d.tail)
        ∙ ap (λ (rs : List ReadAnswer). d.tail ++ data_of rs) (sym none_left)
        ∙ d.behind))
]

-- What is known of the reads that are left.
record IsLeft (n : ℕ) (tail : Bytes) (ps : List Packet) (rs : List ReadAnswer) : Type 0 where
  bytes : tail ++ data_of rs ≡ encode_all ps
  intact : IsIntact rs
  enough : (pauses rs < n) ⊎ (ps ≡ [])

pub read_client_packets-Advances :
    (n now : ℕ) (h : History) (ps : List Packet) (c : Client) (pty : Pty)
    → Awaits (suc n) ps c
    → All TakesAll pty.writes
    → length (inputs ps) ≤ length pty.writes
    → Advances n ps pty (read_client_packets now h c pty)
read_client_packets-Advances n now h ps c pty a t le =
    let r = read_loop c.stream.reads c.buf in
    let tk = read_loop-Takes c.stream.reads c.buf a.intact in
    let d = divide ps r.buf (data_of r.reads) a.valid (tk.bytes ∙ a.bytes) in
    let kinds = subst (All IsTyped) d.packets a.kinds in
    let valid = subst (All IsPacket) d.packets a.valid in
    let later_valid = All-append_right IsPacket d.whole d.later valid in
    let room : length (inputs d.whole) ≤ length pty.writes = omega (
      arith,
      le,
      ap (λ (ps : List Packet). length (inputs ps)) d.packets,
      ap (length {A = Bytes}) (inputs-append d.whole d.later),
      length-append (inputs d.whole) (inputs d.later),
    ) in
    let passes =
      foldl-Passes now h d.whole (taken c r) pty a.writer
        (All-append_left IsTyped d.whole d.later kinds)
        (All-append_left IsPacket d.whole d.later valid) t room in
    let (c2, pty') : Client × Pty = foldl (handle_packet now h) (taken c r, pty) d.whole in
    let (lost, round) = read_client_packets-Divides now h c pty ps d tk a.valid in
    let left : IsLeft n d.tail d.later c2.stream.reads =
      subst (IsLeft n d.tail d.later) (sym passes.reads) (record {
        bytes = d.behind;
        intact = tk.later;
        enough = less_to_come n c.stream.reads c.buf ps r d tk later_valid a.enough;
      }) in
    subst (Advances n ps pty) (sym round) (record {
      whole = d.whole;
      later = d.later;
      packets = d.packets;
      awaits = record {
        bytes = left.bytes;
        intact = left.intact;
        enough = left.enough;
        writer = passes.writer;
        kinds = All-append_right IsTyped d.whole d.later kinds;
        valid = later_valid;
      };
      handled = passes.handled;
    })

-- Front packets that have been handled, and then the rest.
pub then_later :
    (ps whole later : List Packet) (pty pty' pty'' : Pty)
    → ps ≡ whole ++ later
    → Handled (inputs whole) pty pty'
    → Handled (inputs later) pty' pty''
    → Handled (inputs ps) pty pty''
then_later ps whole later pty pty' pty'' e first rest =
    subst (λ (texts : List Bytes). Handled texts pty pty'')
      (sym (ap inputs e ∙ inputs-append whole later))
      (then_Handled (inputs whole) (inputs later) pty pty' pty'' first rest)

-- The pty has room for the input that is left.
pub room_left :
    (ps whole later : List Packet) (pty pty' : Pty)
    → ps ≡ whole ++ later
    → Handled (inputs whole) pty pty'
    → length (inputs ps) ≤ length pty.writes
    → length (inputs later) ≤ length pty'.writes
room_left ps whole later pty pty' e first le = omega (
  arith,
  le,
  first.left,
  ap (λ (ps : List Packet). length (inputs ps)) e,
  ap (length {A = Bytes}) (inputs-append whole later),
  length-append (inputs whole) (inputs later),
)

-- When no round is left, nothing is to come.
pub nothing_left :
    (ps : List Packet) (c : Client) (pty : Pty)
    → Awaits 0 ps c
    → All TakesAll pty.writes
    → Handled (inputs ps) pty pty
nothing_left ps c pty a t = elim a.enough [
  | inl lt ↦ absurd (omega (arith, lt))
  | inr nil ↦
      subst (λ (ps : List Packet). Handled (inputs ps) pty pty) (sym nil)
        (record { written = sym (append-nil pty.written); answers = t; left = omega arith })
]

read_rounds-Handled :
    (rounds : List (ℕ × History)) (ps : List Packet) (c : Client) (pty : Pty)
    → Awaits (length rounds) ps c
    → All TakesAll pty.writes
    → length (inputs ps) ≤ length pty.writes
    → Handled (inputs ps) pty (read_rounds rounds c pty).1
unfolding read_rounds
read_rounds-Handled [] ps c pty a t le = nothing_left ps c pty a t
read_rounds-Handled ((now, h) ∷ rounds) ps c pty a t le =
    let next = read_client_packets-Advances (length rounds) now h ps c pty a t le in
    let (c', pty') = read_client_packets now h c pty in
    let left = room_left ps next.whole next.later pty pty' next.packets next.handled le in
    then_later ps next.whole next.later pty pty' _ next.packets next.handled
      (read_rounds-Handled rounds next.later c' pty' next.awaits next.handled.answers left)

-- However the connection cuts what a client has sent into pieces, and in however many rounds they come, the
-- input in it reaches the pty whole and in its order, once there was a round more than reads that would
-- block: the reads do not fail, the client may write, and has sent input, sizes of its terminal, that it
-- leaves, and that it attaches to write; and the pty takes each payload at once.
pub input_arrives_in_pieces :
    (rounds : List (ℕ × History)) (ps : List Packet) (c : Client) (pty : Pty)
    → c.buf ++ data_of c.stream.reads ≡ encode_all ps
    → IsIntact c.stream.reads
    → pauses c.stream.reads < length rounds
    → may_write c ≡ true
    → All IsTyped ps
    → All IsPacket ps
    → All TakesAll pty.writes
    → length (inputs ps) ≤ length pty.writes
    → (read_rounds rounds c pty).1.written ≡ pty.written ++ concat (inputs ps)
input_arrives_in_pieces rounds ps c pty e a lt w i v t le =
    (read_rounds-Handled rounds ps c pty
      (record { bytes = e; intact = a; enough = inl lt; writer = w; kinds = i; valid = v }) t
      le).written
