-- ===== src/Protocol/Loop.antt =====
-- The loop over `pop_packet` of `read_client_packets` in src/main.rs.
use mathlib.Core.List.{foldl}
use abduco_inline.Prelude.{
  ℕ, zero, suc, ◌≤◌, ◌≡◌, refl, sym, ap, ◌∙◌, List, [], ◌∷◌, ◌++◌, append_assoc, Option, none, some,
  Option-cases, length, arith, All, length-append, inl, inr,
}
use abduco_inline.Prelude.Bytes.{Bytes}
use abduco_inline.Protocol.{Packet, packet_bytes, pop_packet, while_packets}
use abduco_inline.Protocol.Framing.{
  IsPacket, length-packet_bytes, pop_packet-packet_bytes, pop_packet_shrinks,
}

-- The bytes of a sequence of packets.
abbrev pub encode_all : List Packet → Bytes
encode_all [] = []
encode_all (p ∷ ps) = packet_bytes p ++ encode_all ps

pub encode_all-append :
    (ps qs : List Packet) → encode_all (ps ++ qs) ≡ encode_all ps ++ encode_all qs
encode_all-append [] qs = refl
encode_all-append (p ∷ ps) qs =
    ap (◌++◌ (packet_bytes p)) (encode_all-append ps qs)
    ∙ sym (append_assoc (packet_bytes p) (encode_all ps) (encode_all qs))

-- The front of a packet: nothing is popped, and nothing is thrown away.
abbrev pub Waits : Bytes → Type 0
Waits buf = pop_packet buf ≡ (none, buf)

pub nil-Waits : Waits []
unfolding pop_packet
nil-Waits = refl

module _ {ℓ} {S : Type ℓ} (f : S → Packet → S) where
  pub while_packets-none :
      (fuel : ℕ) (s : S) (buf rest : Bytes)
      → pop_packet buf ≡ (none, rest)
      → while_packets (suc fuel) f s buf ≡ (s, rest)
  unfolding while_packets
  while_packets-none fuel s buf rest e = ground (arith, e)

  pub while_packets-some :
      (fuel : ℕ) (s : S) (buf rest : Bytes) (p : Packet)
      → pop_packet buf ≡ (some p, rest)
      → while_packets (suc fuel) f s buf ≡ while_packets fuel f (f s p) rest
  unfolding while_packets
  while_packets-some fuel s buf rest p e = ground (arith, e)

  pub while_packets-encode_all :
      (ps : List Packet) (fuel : ℕ) (s : S) (tail : Bytes)
      → All IsPacket ps
      → Waits tail
      → length (encode_all ps ++ tail) ≤ fuel
      → while_packets fuel f s (encode_all ps ++ tail) ≡ (foldl f s ps, tail)
  while_packets-encode_all [] zero s tail h w le = unfold while_packets in refl
  while_packets-encode_all [] (suc fuel) s tail h w le = while_packets-none fuel s tail tail w
  while_packets-encode_all (p ∷ ps) zero s tail h w le = absurd (
      omega (
        arith,
        length-append (packet_bytes p ++ encode_all ps) tail,
        length-append (packet_bytes p) (encode_all ps),
        length-packet_bytes p,
      ))
  while_packets-encode_all (p ∷ ps) (suc fuel) s tail h w le =
      rw (append_assoc (packet_bytes p) (encode_all ps) tail) (
        while_packets-some fuel s _ _ p (pop_packet-packet_bytes p (encode_all ps ++ tail) h.0)
        ∙ while_packets-encode_all ps fuel (f s p) tail h.1 w (
            omega (
              arith,
              ap (length {A = ℕ}) (append_assoc (packet_bytes p) (encode_all ps) tail),
              length-append (packet_bytes p) (encode_all ps ++ tail),
              length-packet_bytes p,
            )))

-- Where no packet is popped, none is in what is left.
pop_packet_rest :
    (buf : Bytes) → (pop_packet buf).0 ≡ none → (pop_packet (pop_packet buf).1).0 ≡ none
unfolding pop_packet
pop_packet_rest buf e = ground arith

module _ {ℓ} {S : Type ℓ} (f : S → Packet → S) where
  -- What one packet keeps, the loop keeps.
  pub while_packets-keeps {κ} :
      (P : S → Type κ)
      → ((s : S) (p : Packet) → P s → P (f s p))
      → (fuel : ℕ) (s : S) (buf : Bytes) → P s
      → P (while_packets fuel f s buf).0
  unfolding while_packets
  while_packets-keeps P keep zero s buf h = h
  while_packets-keeps P keep (suc fuel) s buf h = elim (Option-cases (pop_packet buf).0) [
    | inl e ↦ rw (e, while_packets) h
    | inr (p, e) ↦
        rw (e, while_packets)
          (while_packets-keeps P keep fuel (f s p) (pop_packet buf).1 (keep s p h))
  ]

  -- With the buffer's length as fuel the loop ends because no whole packet is left.
  pub while_packets-exhausts :
      (fuel : ℕ) (s : S) (buf : Bytes)
      → length buf ≤ fuel
      → (pop_packet (while_packets fuel f s buf).1).0 ≡ none
  unfolding while_packets
  while_packets-exhausts zero s [] h = ap (λ (o : Option Packet × Bytes). o.0) nil-Waits
  while_packets-exhausts zero s (b ∷ bs) h = absurd (omega arith)
  while_packets-exhausts (suc fuel) s buf h = elim (Option-cases (pop_packet buf).0) [
    | inl e ↦ rw (e, while_packets) (pop_packet_rest buf e)
    | inr (p, e) ↦
        rw (e, while_packets)
          (while_packets-exhausts fuel (f s p) (pop_packet buf).1 (
            omega (
              arith,
              pop_packet_shrinks buf p (pop_packet buf).1
                  (ap (λ (o : Option Packet). (o, (pop_packet buf).1)) e),
            )))
  ]
