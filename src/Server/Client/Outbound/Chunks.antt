-- ===== src/Server/Client/Outbound/Chunks.antt =====
-- The chunks in which src/main.rs sends a history or keys.
use abduco_inline.Prelude.{
  ℕ, zero, suc, ◌≤◌, ◌<◌, ◌≡◌, refl, ap, ◌∙◌, List, [], ◌∷◌, ◌++◌, length, take, drop, concat,
  arith, take-append-drop, length-drop, length-take, All,
}
use mathlib.Core.List.{map}
use abduco_inline.Prelude.Bytes.{Bytes}
use abduco_inline.Protocol.{max_payload}
use abduco_inline.Protocol.Framing.{IsPacket}
use abduco_inline.Server.Client.{chunks_loop, chunks, content}

concat-chunks_loop :
    (fuel n : ℕ) (bs : Bytes) → length bs ≤ fuel → concat (chunks_loop fuel (suc n) bs) ≡ bs
unfolding chunks_loop
concat-chunks_loop zero n [] h = refl
concat-chunks_loop zero n (b ∷ bs) h = absurd (omega arith)
concat-chunks_loop (suc fuel) n [] h = refl
concat-chunks_loop (suc fuel) n (b ∷ bs) h =
    ap (◌++◌ (take (suc n) (b ∷ bs)))
      (concat-chunks_loop fuel n (drop (suc n) (b ∷ bs)) (omega (arith, length-drop n bs)))
    ∙ take-append-drop (suc n) (b ∷ bs)

-- The pieces of a list make up the list.
pub concat-chunks : (n : ℕ) (bs : Bytes) → 0 < n → concat (chunks n bs) ≡ bs
unfolding chunks
concat-chunks zero bs h = absurd (omega arith)
concat-chunks (suc n) bs h = concat-chunks_loop (length bs) n bs (omega arith)

chunks_loop-fits : (fuel n : ℕ) (bs : Bytes) → All (λ c. length c ≤ n) (chunks_loop fuel n bs)
unfolding chunks_loop
chunks_loop-fits zero n bs = tt
chunks_loop-fits (suc fuel) n [] = tt
chunks_loop-fits (suc fuel) n (b ∷ bs) =
    (omega (arith, length-take n (b ∷ bs)), chunks_loop-fits fuel n (drop n (b ∷ bs)))

-- None of them is longer than `n`.
pub chunks-fits : (n : ℕ) (bs : Bytes) → All (λ c. length c ≤ n) (chunks n bs)
unfolding chunks
chunks-fits n bs = chunks_loop-fits (length bs) n bs

pub map-content-IsPacket :
    (cs : List Bytes) → All (λ c. length c ≤ max_payload) cs → All IsPacket (map content cs)
map-content-IsPacket [] h = tt
map-content-IsPacket (c ∷ cs) h =
    (record { typ_fits = omega arith; payload_fits = h.0 }, map-content-IsPacket cs h.1)
