-- ===== src/Stream/Writing.antt =====
-- The loop of `fd_write_all`, and `send_packet_blocking`, in src/main.rs.
use abduco_inline.Prelude.{
  ℕ, ◌≡◌, refl, sym, ap, ◌∙◌, List, [], ◌∷◌, ◌++◌, append_assoc, append-nil, take, drop,
  take-append-drop, ◌==◌, if◌then◌else◌, ok, err, write_zero, IoError, Bool-cases, inl, inr, ◌⊎◌,
  Result,
}
use abduco_inline.Prelude.Bytes.{Bytes}
use abduco_inline.Protocol.{Packet, packet_bytes}
use abduco_inline.Stream.{
  Stream, send_packet_blocking, WriteAnswer, wrote, write_failed, Written, write_loop,
}

-- The bytes taken are a front part of the buffer, and the whole buffer if the result is `Ok`.
pub record Wrote (buf wire : Bytes) (w : Written) : Type 0 where
  pub sent : Bytes
  pub lost : Bytes
  pub taken : w.wire ≡ wire ++ sent
  pub parts : sent ++ lost ≡ buf
  pub complete : w.result ≡ ok tt → lost ≡ []

Wrote-nothing :
    (buf wire : Bytes) (w : Written)
    → w.wire ≡ wire
    → (w.result ≡ ok tt → buf ≡ [])
    → Wrote buf wire w
Wrote-nothing buf wire w e c = record {
  sent = [];
  lost = buf;
  taken = e ∙ sym (append-nil wire);
  parts = refl;
  complete = c;
}

Wrote-first :
    (n : ℕ) (buf wire : Bytes) (w : Written)
    → Wrote (drop n buf) (wire ++ take n buf) w
    → Wrote buf wire w
Wrote-first n buf wire w r = record {
  sent = take n buf ++ r.sent;
  lost = r.lost;
  taken = r.taken ∙ append_assoc wire (take n buf) r.sent;
  parts =
      append_assoc (take n buf) r.sent r.lost
      ∙ ap (◌++◌ (take n buf)) r.parts
      ∙ take-append-drop n buf;
  complete = r.complete;
}

Wrote-step :
    (n : ℕ) (buf wire : Bytes) (ws : List WriteAnswer) (rest : Written)
    → Wrote buf wire rest
    → Wrote buf wire
        (if n == 0 then record { result = err write_zero; writes = ws; wire = wire } else rest)
Wrote-step n buf wire ws rest r = elim (Bool-cases (n == 0)) [
  | inl e ↦ rw e (Wrote-nothing buf wire _ refl (λ h. cc))
  | inr e ↦ rw e r
]

pub write_loop-Wrote :
    (ws : List WriteAnswer) (buf wire : Bytes) → Wrote buf wire (write_loop ws buf wire)
unfolding write_loop
write_loop-Wrote [] [] wire = Wrote-nothing [] wire _ refl (λ h. refl)
write_loop-Wrote [] (b ∷ bs) wire = Wrote-nothing (b ∷ bs) wire _ refl (λ h. cc)
write_loop-Wrote (a ∷ ws) [] wire = Wrote-nothing [] wire _ refl (λ h. refl)
write_loop-Wrote (wrote n ∷ ws) (b ∷ bs) wire = Wrote-step n (b ∷ bs) wire ws _ (
    Wrote-first n (b ∷ bs) wire _ (write_loop-Wrote ws (drop n (b ∷ bs)) (wire ++ take n (b ∷ bs))))
write_loop-Wrote (write_failed IoError.interrupted ∷ ws) (b ∷ bs) wire =
    write_loop-Wrote ws (b ∷ bs) wire
write_loop-Wrote (write_failed e ∷ ws) (b ∷ bs) wire = Wrote-nothing (b ∷ bs) wire _ refl (λ h. cc)

ok_or_err :
    (o : Result (Unit {0})) (lost : Bytes)
    → (o ≡ ok tt → lost ≡ [])
    → (lost ≡ []) ⊎ ((e : IoError) × (o ≡ err e))
ok_or_err (ok tt) lost h = inl (h refl)
ok_or_err (err e) lost h = inr (e, refl)

-- Whatever the kernel answers, a write of a buffer puts a front part of it on the wire, and either
-- reports an error or has put the whole buffer there.
pub write_loop_front :
    (ws : List WriteAnswer) (buf wire : Bytes)
    → let w = write_loop ws buf wire in
      (sent : Bytes) × (lost : Bytes) × (w.wire ≡ wire ++ sent)
      × (sent ++ lost ≡ buf)
      × ((lost ≡ []) ⊎ ((e : IoError) × (w.result ≡ err e)))
write_loop_front ws buf wire =
    let r = write_loop-Wrote ws buf wire in
    (r.sent, r.lost, r.taken, r.parts, ok_or_err _ r.lost r.complete)

-- A buffer that is written without an error is on the wire.
pub wire-whole :
    (buf wire : Bytes) (w : Written) → Wrote buf wire w → w.result ≡ ok tt → w.wire ≡ wire ++ buf
wire-whole buf wire w r done =
    r.taken
    ∙ ap (◌++◌ wire) (sym (append-nil r.sent) ∙ ap (◌++◌ r.sent) (sym (r.complete done)) ∙ r.parts)

-- A packet that is sent without an error is on the wire.
pub wire-send_packet_blocking :
    (s : Stream) (pkt : Packet)
    → (send_packet_blocking s pkt).0 ≡ ok tt
    → (send_packet_blocking s pkt).1.wire ≡ s.wire ++ packet_bytes pkt
unfolding send_packet_blocking
wire-send_packet_blocking s pkt done =
    wire-whole (packet_bytes pkt) s.wire _ (write_loop-Wrote s.writes (packet_bytes pkt) s.wire)
      done
