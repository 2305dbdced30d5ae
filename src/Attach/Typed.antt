-- ===== src/Attach/Typed.antt =====
-- What is typed at the attach client of src/main.rs, on its way to the pty.
pub mod Loop
pub mod Session
pub mod Live
pub mod Rounds
mod Tests
use mathlib.Core.List.{foldl}
use mathlib.Core.Option
use abduco_inline.Prelude.{
  ℕ, ◌^◌, ◌≤◌, ◌<◌, ◌≡◌, ◌≢◌, refl, sym, ap, ◌∙◌, List, [], ◌∷◌, ◌++◌, append-nil, append_assoc,
  All, All-append, concat, length, subst, ◌==◌, if◌then◌else◌, Bool, Bool-cases, Result-cases, inl,
  inr, true, false, not, ◌&&◌, Option, none, some, bit_and, arith, Result, ok, err, IoError,
}
use abduco_inline.Prelude.Bytes.{Bytes}
use abduco_inline.Protocol.{
  Packet, packet_bytes, max_payload, msg_content, msg_attach, msg_resize, msg_exit, read_u32,
  recv_packet_blocking,
}
use abduco_inline.Protocol.Framing.{IsPacket}
use abduco_inline.Protocol.Loop.{encode_all, encode_all-append}
use abduco_inline.Stream.{
  Stream, ReadAnswer, read_ok, read_failed, write_loop, send_packet_blocking,
}
use abduco_inline.Stream.Writing.{wire-send_packet_blocking}
use abduco_inline.Server.Client.{content}
use abduco_inline.Server.Packets.{client_readonly}
use abduco_inline.Server.Packets.Rounds.{IsTyped}
use abduco_inline.Server.Packets.Delivery.{inputs, inputs-append}
use abduco_inline.Cli.Task.{AttachOpts}
use abduco_inline.Attach.{
  exited, detached, io_error, Winsize, Event, Wake, Terminal, Progress, again, returned,
  resize_packet, detach_packet, send_then, print, handle_server_packet, read_socket, read_stdin,
  client_step, client_loop, select_interrupted, select_failed, ready,
}

-- A read of stdin that ends the input: the end of the file, or the detach key in front.
abbrev pub ends_input : AttachOpts → Event → Bool
ends_input o (ready socket (some (read_ok []))) = true
ends_input o (ready socket (some (read_ok (b ∷ bs)))) = b == o.detach_key
ends_input o ev = false

abbrev pub input_of : Event → List Bytes
input_of (ready socket (some (read_ok d))) = d ∷ []
input_of ev = []

-- What is typed: the reads of stdin in front of the one that ends the input.
abbrev pub typed : AttachOpts → List Wake → List Bytes
typed o [] = []
typed o (w ∷ ws) =
    let rest = typed o ws in if ends_input o w.event then [] else input_of w.event ++ rest

-- Behind `base` stand whole packets that satisfy `P`, among them as input the texts.
pub record Sent (P : Packet → Type 0) (base wire : Bytes) (texts : List Bytes) : Type 0 where
  pub packets : List Packet
  pub bytes : wire ≡ base ++ encode_all packets
  pub valid : All IsPacket packets
  pub kinds : All P packets
  pub input : inputs packets ≡ texts

pub Sent-packet :
    (P : Packet → Type 0) (base wire wire' : Bytes) (texts texts' : List Bytes) (pkt : Packet)
    → IsPacket pkt
    → P pkt
    → texts ++ inputs (pkt ∷ []) ≡ texts'
    → wire' ≡ wire ++ packet_bytes pkt
    → Sent P base wire texts
    → Sent P base wire' texts'
Sent-packet P base wire wire' texts texts' pkt v ne text e s = record {
  packets = s.packets ++ pkt ∷ [];
  bytes =
      e
      ∙ ap (λ (b : Bytes). b ++ packet_bytes pkt) s.bytes
      ∙ append_assoc base (encode_all s.packets) (packet_bytes pkt)
      ∙ ap (◌++◌ base) (
          ap (◌++◌ (encode_all s.packets)) (sym (append-nil (packet_bytes pkt)))
          ∙ sym (encode_all-append s.packets (pkt ∷ [])));
  valid = All-append IsPacket s.packets (pkt ∷ []) s.valid (v, tt);
  kinds = All-append P s.packets (pkt ∷ []) s.kinds (ne, tt);
  input =
      inputs-append s.packets (pkt ∷ [])
      ∙ ap (λ (t : List Bytes). t ++ inputs (pkt ∷ [])) s.input
      ∙ text;
}

pub Sent-none :
    (P : Packet → Type 0) (base wire : Bytes) (texts : List Bytes)
    → Sent P base wire texts
    → Sent P base wire (texts ++ [])
Sent-none P base wire texts = subst (Sent P base wire) (sym (append-nil texts))

-- Where one event leads to, with the texts sent before it.
abbrev pub Step : AttachOpts → Event → Bytes → List Bytes → Progress → Type 0
Step o ev base texts (again s) =
    (ends_input o ev ≡ false) × Sent IsTyped base s.stream.wire (texts ++ input_of ev)
Step o ev base texts (returned (ok detached) s) =
    (ends_input o ev ≡ true) × Sent IsTyped base s.stream.wire texts
Step o ev base texts (returned r s) = Unit

-- What holds of what follows a packet that is sent, and of every error, holds of the send.
then_result :
    (P : Progress → Type 0) (s : Terminal) (pkt : Packet) (next : Terminal → Progress)
    (out : Result (Unit {0}) × Stream)
    → ((e : IoError) (s' : Terminal) → P (returned (err e) s'))
    → (out.0 ≡ ok tt → out.1.wire ≡ s.stream.wire ++ packet_bytes pkt)
    → ((stream : Stream)
        → stream.wire ≡ s.stream.wire ++ packet_bytes pkt
        → P (next (record s { stream = stream })))
    → P (elim out.0 [
      | ok _ ↦ next (record s { stream = out.1 })
      | err e ↦ returned (err e) (record s { stream = out.1 })
    ])
then_result P s pkt next (ok tt, stream) failed sent later = later stream (sent refl)
then_result P s pkt next (err e, stream) failed sent later = failed e _

pub send_then-result :
    (P : Progress → Type 0) (s : Terminal) (pkt : Packet) (next : Terminal → Progress)
    → ((e : IoError) (s' : Terminal) → P (returned (err e) s'))
    → ((stream : Stream)
        → stream.wire ≡ s.stream.wire ++ packet_bytes pkt
        → P (next (record s { stream = stream })))
    → P (send_then s pkt next)
unfolding send_then
send_then-result P s pkt next failed later =
    then_result P s pkt next (send_packet_blocking s.stream pkt) failed
      (wire-send_packet_blocking s.stream pkt) later
