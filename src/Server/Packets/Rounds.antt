-- ===== src/Server/Packets/Rounds.antt =====
-- The input of a client over several rounds of `server_loop` in src/main.rs, however its connection cuts
-- the stream of its packets.
pub mod Reading
pub mod Pieces
use mathlib.Core.List.{foldl}
use abduco_inline.Protocol.{msg_detach, read_u32}
use abduco_inline.Server.Packets.{client_readonly, attach}
use abduco_inline.Prelude.{
  bit_and, ◌^◌, ℕ, zero, suc, ◌+◌, ◌-◌, ◌≤◌, ◌<◌, ◌≡◌, refl, sym, ap, ◌∙◌, subst, List, [], ◌∷◌,
  ◌++◌, append_assoc, append-nil, length, length-append, concat, concat-append, All,
  All-append_left, All-append_right, true, false, Bool-cases, inl, inr, ◌⊎◌, arith, IoError,
  if◌then◌else◌,
}
use abduco_inline.Prelude.Bytes.{Bytes}
use abduco_inline.Protocol.{Packet, msg_resize, while_packets}
use abduco_inline.Protocol.Framing.{IsPacket}
use abduco_inline.Protocol.Loop.{encode_all, Waits}
use abduco_inline.Protocol.Feed.{Divides, divide, while_packets-Divides, Waits-encode_all}
use abduco_inline.History.{History}
use abduco_inline.Stream.{
  ReadAnswer, read_ok, read_failed, read_loop, ReadEnd, blocked, saw_eof, broken,
}
use abduco_inline.Server.Client.{Client}
use abduco_inline.Server.Packets.{
  Pty, fd_write_all, may_write, is_input, resize, handle_packet, handle_packets,
  read_client_packets,
}
use mathlib.Core.Option
use abduco_inline.Server.Client.Outbound.Replay.{send_history-Replays}
use abduco_inline.Server.Packets.Readonly.{attach_packet, flags-attach}
use abduco_inline.Server.Packets.Delivery.{
  TakesAll, write_loop-Passed, inputs, inputs-append, handle_input,
}

-- A request to attach that leaves the client the right to write.
abbrev pub AsksToWrite : Packet → Type 0
AsksToWrite p =
    (flags : ℕ) × (p ≡ attach_packet flags) × (flags < 2 ^ 32) × (bit_and flags client_readonly ≡ 0)

-- What a client sends that writes: input, the size of its terminal, that it leaves, and that it attaches.
abbrev pub IsTyped : Packet → Type 0
IsTyped p = (is_input p ≡ true) ⊎ ((p.typ ≡ msg_resize) ⊎ ((p.typ ≡ msg_detach) ⊎ AsksToWrite p))

-- The pty has taken the texts, and at most one answer for each.
pub record Handled (texts : List Bytes) (pty pty' : Pty) : Type 0 where
  pub written : pty'.written ≡ pty.written ++ concat texts
  pub answers : All TakesAll pty'.writes
  pub left : length pty.writes ≤ length texts + length pty'.writes

-- The client goes on reading as before and may write, and the pty has taken the texts.
pub record Passes (texts : List Bytes) (c : Client) (pty : Pty) (s : Client × Pty) : Type 0 where
  pub reads : s.0.stream.reads ≡ c.stream.reads
  pub writer : may_write s.0 ≡ true
  pub handled : Handled texts pty s.1

-- A packet that is no input.
record IsQuiet (c : Client) (pty : Pty) (p : Packet) (s : Client × Pty) : Type 0 where
  reads : s.0.stream.reads ≡ c.stream.reads
  writer : may_write s.0 ≡ true
  written : s.1.written ≡ pty.written
  writes : s.1.writes ≡ pty.writes
  none_ : inputs (p ∷ []) ≡ []

reads-attach :
    (c : Client) (h : History) (payload : Bytes)
    → (attach c h payload).stream.reads ≡ c.stream.reads
unfolding attach
reads-attach c h payload =
    let asked : Client = record c { attached = true; flags = Option.get_or (read_u32 payload) 0 } in
    (send_history-Replays asked h).sends.reads

handle_request-IsQuiet :
    (now : ℕ) (h : History) (c : Client) (pty : Pty) (flags : ℕ)
    → flags < 2 ^ 32
    → bit_and flags client_readonly ≡ 0
    → IsQuiet c pty (attach_packet flags) (handle_packet now h (c, pty) (attach_packet flags))
unfolding handle_packet
handle_request-IsQuiet now h c pty flags lt w = record {
  reads = reads-attach c h (attach_packet flags).payload;
  writer = ground (arith, flags-attach c h flags lt, w);
  written = refl;
  writes = refl;
  none_ = refl;
}

handle_packet-IsQuiet :
    (now : ℕ) (h : History) (c : Client) (pty : Pty) (p : Packet)
    → may_write c ≡ true
    → (p.typ ≡ msg_resize) ⊎ ((p.typ ≡ msg_detach) ⊎ AsksToWrite p)
    → IsQuiet c pty p (handle_packet now h (c, pty) p)
unfolding handle_packet resize
handle_packet-IsQuiet now h c pty p w (inl e) = record {
  reads = ground (arith, e);
  writer = ground (arith, e, w);
  written = ground (arith, e);
  writes = ground (arith, e);
  none_ = ground (arith, e);
}
handle_packet-IsQuiet now h c pty p w (inr (inl e)) = record {
  reads = ground (arith, e);
  writer = ground (arith, e, w);
  written = ground (arith, e);
  writes = ground (arith, e);
  none_ = ground (arith, e);
}
handle_packet-IsQuiet now h c pty p w (inr (inr (flags, e, lt, may))) =
    subst (λ (q : Packet). IsQuiet c pty q (handle_packet now h (c, pty) q)) (sym e)
      (handle_request-IsQuiet now h c pty flags lt may)

handle_packet-Passes :
    (now : ℕ) (h : History) (p : Packet) (c : Client) (pty : Pty)
    → may_write c ≡ true
    → IsTyped p
    → IsPacket p
    → All TakesAll pty.writes
    → length (inputs (p ∷ [])) ≤ length pty.writes
    → Passes (inputs (p ∷ [])) c pty (handle_packet now h (c, pty) p)
unfolding fd_write_all
handle_packet-Passes now h p c pty w (inl i) v t le =
    let passed =
      write_loop-Passed pty.writes p.payload pty.written t (ground (arith, le, i)) v.payload_fits in
    rw i (
      subst (Passes (p.payload ∷ []) c pty) (sym (handle_input now h c pty p w i)) (record {
        reads = refl;
        writer = w;
        handled = record {
          written = passed.bytes ∙ ap (◌++◌ (pty.written)) (sym (append-nil p.payload));
          answers = passed.answers;
          left = omega (arith, passed.left);
        };
      }))
handle_packet-Passes now h p c pty w (inr r) v t le =
    let q = handle_packet-IsQuiet now h c pty p w r in
    record {
      reads = q.reads;
      writer = q.writer;
      handled = record {
        written =
            q.written
            ∙ sym (append-nil pty.written)
            ∙ ap (λ (x : List Bytes). pty.written ++ concat x) (sym q.none_);
        answers = subst (All TakesAll) (sym q.writes) t;
        left = ground (arith, q.writes);
      };
    }

pub then_Handled :
    (xs ys : List Bytes) (pty pty' pty'' : Pty)
    → Handled xs pty pty'
    → Handled ys pty' pty''
    → Handled (xs ++ ys) pty pty''
then_Handled xs ys pty pty' pty'' a b = record {
  written =
      b.written
      ∙ ap (λ (t : Bytes). t ++ concat ys) a.written
      ∙ append_assoc pty.written (concat xs) (concat ys)
      ∙ ap (◌++◌ (pty.written)) (sym (concat-append xs ys));
  answers = b.answers;
  left = omega (arith, a.left, b.left, length-append xs ys);
}

pub foldl-Passes :
    (now : ℕ) (h : History) (ps : List Packet) (c : Client) (pty : Pty)
    → may_write c ≡ true
    → All IsTyped ps
    → All IsPacket ps
    → All TakesAll pty.writes
    → length (inputs ps) ≤ length pty.writes
    → Passes (inputs ps) c pty (foldl (handle_packet now h) (c, pty) ps)
foldl-Passes now h [] c pty w ts v t le = record {
  reads = refl;
  writer = w;
  handled = record { written = sym (append-nil pty.written); answers = t; left = omega arith };
}
foldl-Passes now h (p ∷ ps) c pty w (i, is) (v, vs) t le =
    let more = inputs-append (p ∷ []) ps in
    let le' : length (inputs (p ∷ [])) + length (inputs ps) ≤ length pty.writes =
      omega
        (arith, le, ap (length {A = Bytes}) more, length-append (inputs (p ∷ [])) (inputs ps)) in
    let first = handle_packet-Passes now h p c pty w i v t (omega (arith, le')) in
    let s = handle_packet now h (c, pty) p in
    let later =
      foldl-Passes now h ps s.0 s.1 first.writer is vs first.handled.answers
        (omega (arith, le', first.handled.left)) in
    record {
      reads = later.reads ∙ first.reads;
      writer = later.writer;
      handled =
          subst (λ (texts : List Bytes). Handled texts pty (foldl (handle_packet now h) s ps).1)
            (sym more) (then_Handled _ _ pty s.1 _ first.handled later.handled);
    }
