-- ===== src/Server/Packets/Delivery.antt =====
-- Keystrokes on their way to the pty: `MSG_CONTENT`, `MSG_SEND_KEYS` and `fd_write_all` in
-- src/main.rs.
use abduco_inline.Prelude.{
  ℕ, suc, ◌≤◌, ◌<◌, ◌≡◌, refl, sym, ap, ◌∙◌, List, [], ◌∷◌, ◌++◌, append-nil, length, take, drop,
  drop-all, take-append-drop, true, arith, All, ok, err, would_block, length-drop, if◌then◌else◌,
}
use abduco_inline.Prelude.Bytes.{Bytes}
use abduco_inline.Protocol.{Packet, max_payload}
use abduco_inline.History.{History}
use abduco_inline.Stream.{WriteAnswer, wrote, write_failed, write_loop, Written}
use abduco_inline.Server.Client.{Client}
use abduco_inline.Server.Packets.{Pty, fd_write_all, may_write, is_input, handle_packet}

-- An answer of a pty that takes a whole payload at once.
abbrev pub TakesAll : WriteAnswer → Type 0
TakesAll (wrote n) = max_payload ≤ n
TakesAll (write_failed e) = ⊥

-- A payload has been written: all its bytes, and at most one answer used up.
pub record Passed (ws : List WriteAnswer) (buf wire : Bytes) (w : Written) : Type 0 where
  pub complete : w.result ≡ ok tt
  pub bytes : w.wire ≡ wire ++ buf
  pub answers : All TakesAll w.writes
  pub left : length ws ≤ suc (length w.writes)

write_loop-nil :
    (ws : List WriteAnswer) (wire : Bytes)
    → write_loop ws [] wire ≡ record { result = ok tt; writes = ws; wire = wire }
unfolding write_loop
write_loop-nil [] wire = refl
write_loop-nil (a ∷ ws) wire = refl

take_all : (n : ℕ) (xs : Bytes) → length xs ≤ n → take n xs ≡ xs
take_all n xs h =
    sym (append-nil (take n xs))
    ∙ ap (◌++◌ (take n xs)) (sym (drop-all n xs h))
    ∙ take-append-drop n xs

pub write_loop-Passed :
    (ws : List WriteAnswer) (buf wire : Bytes)
    → All TakesAll ws
    → 0 < length ws
    → length buf ≤ max_payload
    → Passed ws buf wire (write_loop ws buf wire)
unfolding write_loop
write_loop-Passed [] buf wire t pos fits = absurd (omega arith)
write_loop-Passed (a ∷ ws) [] wire t pos fits = record {
  complete = refl;
  bytes = sym (append-nil wire);
  answers = t;
  left = omega arith;
}
write_loop-Passed (wrote n ∷ ws) (b ∷ bs) wire (t, ts) pos fits =
    ground (arith, take_all n (b ∷ bs), drop-all n (b ∷ bs), write_loop-nil ws (wire ++ b ∷ bs))
write_loop-Passed (write_failed e ∷ ws) (b ∷ bs) wire (t, ts) pos fits = absurd t

-- A packet of input from a client that may write.
pub handle_input :
    (now : ℕ) (h : History) (c : Client) (pty : Pty) (pkt : Packet)
    → may_write c ≡ true
    → is_input pkt ≡ true
    → handle_packet now h (c, pty) pkt ≡ (c, (fd_write_all pty pkt.payload).1)
unfolding handle_packet
handle_input now h c pty pkt w i = rw (i, w)

-- The payloads of the input among some packets.
abbrev pub inputs : List Packet → List Bytes
inputs [] = []
inputs (p ∷ ps) = let rest = inputs ps in if is_input p then p.payload ∷ rest else rest

pub inputs-append : (ps qs : List Packet) → inputs (ps ++ qs) ≡ inputs ps ++ inputs qs
inputs-append [] qs = refl
inputs-append (p ∷ ps) qs = ground (arith, inputs-append ps qs)

blocked_write :
    (ws : List WriteAnswer) (buf wire : Bytes)
    → 0 < length buf
    → write_loop (write_failed would_block ∷ ws) buf wire
      ≡ record { result = err would_block; writes = ws; wire = wire }
unfolding write_loop
blocked_write ws [] wire h = absurd (omega arith)
blocked_write ws (b ∷ bs) wire h = refl

cut_write :
    (n : ℕ) (ws : List WriteAnswer) (buf wire : Bytes)
    → 0 < n
    → n < length buf
    → write_loop (wrote n ∷ write_failed would_block ∷ ws) buf wire
      ≡ record { result = err would_block; writes = ws; wire = wire ++ take n buf }
unfolding write_loop
cut_write n ws [] wire pos cut = absurd (omega arith)
cut_write n ws (b ∷ bs) wire pos cut =
    ground
      (arith, blocked_write ws (drop n (b ∷ bs)) (wire ++ take n (b ∷ bs)), length-drop n (b ∷ bs))

-- When the pty, which is non-blocking, takes only the first `n` bytes of a payload and then would
-- block, the rest of the payload is dropped: it is neither written nor kept in the client.
pub input_is_cut_short :
    (now : ℕ) (h : History) (c : Client) (pty : Pty) (pkt : Packet) (n : ℕ) (ws : List WriteAnswer)
    → may_write c ≡ true
    → is_input pkt ≡ true
    → 0 < n
    → n < length pkt.payload
    → pty.writes ≡ wrote n ∷ write_failed would_block ∷ ws
    → handle_packet now h (c, pty) pkt
      ≡ (c, record pty { written = pty.written ++ take n pkt.payload; writes = ws })
unfolding fd_write_all
input_is_cut_short now h c pty pkt n ws w i pos cut e =
    let written =
      ap (λ (a : List WriteAnswer). write_loop a pkt.payload pty.written) e
      ∙ cut_write n ws pkt.payload pty.written pos cut in
    handle_input now h c pty pkt w i
    ∙ ap {B = Client × Pty}
        (λ (t : Written). (c, record pty { written = t.wire; writes = t.writes })) written
