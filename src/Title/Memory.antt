-- ===== src/Title/Memory.antt =====
-- Bytes in memory behind the writes of `shorten_server_proctitle` in src/main.rs.
use abduco_inline.Prelude.{
  ℕ, zero, suc, ◌+◌, ◌≤◌, ◌<◌, ◌≡◌, ◌⊎◌, inr, refl, ap, ap₂, ◌∙◌, [], ◌∷◌, ◌++◌, length, replicate,
  arith,
}
use abduco_inline.Prelude.Bytes.{Bytes}
use abduco_inline.Title.{Memory, write_bytes}

-- `n` bytes from an address on.
abbrev pub read_bytes : Memory → ℕ → ℕ → Bytes
read_bytes m at_ zero = []
read_bytes m at_ (suc n) = m at_ ∷ read_bytes m (suc at_) n

pub read_bytes-append :
    (m : Memory) (at_ n k j total : ℕ)
    → j ≡ at_ + n
    → total ≡ n + k
    → read_bytes m at_ total ≡ read_bytes m at_ n ++ read_bytes m j k
read_bytes-append m at_ zero k j total e e' = ap₂ (read_bytes m) (omega arith) (omega arith)
read_bytes-append m at_ (suc n) k j zero e e' = absurd (omega arith)
read_bytes-append m at_ (suc n) k j (suc total) e e' =
    ap (◌∷◌ (m at_)) (read_bytes-append m (suc at_) n k j total (omega arith) (omega arith))

pub write_bytes-elsewhere :
    (m : Memory) (at_ : ℕ) (bs : Bytes) (a : ℕ)
    → (a < at_) ⊎ (at_ + length bs ≤ a)
    → write_bytes m at_ bs a ≡ m a
unfolding write_bytes
write_bytes-elsewhere m at_ [] a h = refl
write_bytes-elsewhere m at_ (b ∷ bs) a h = ground (arith, write_bytes-elsewhere m (suc at_) bs a)

-- Behind the head of what is written, the tail is as it is written without the head.
read_bytes-tail :
    (m : Memory) (at_ b : ℕ) (bs : Bytes) (j n : ℕ)
    → at_ < j
    → read_bytes (write_bytes m at_ (b ∷ bs)) j n ≡ read_bytes (write_bytes m (suc at_) bs) j n
unfolding write_bytes
read_bytes-tail m at_ b bs j zero lt = refl
read_bytes-tail m at_ b bs j (suc n) lt = ground (arith, read_bytes-tail m at_ b bs (suc j) n)

pub read_bytes-write_bytes :
    (m : Memory) (at_ : ℕ) (bs : Bytes) → read_bytes (write_bytes m at_ bs) at_ (length bs) ≡ bs
read_bytes-write_bytes m at_ [] = refl
read_bytes-write_bytes m at_ (b ∷ bs) =
    let same : write_bytes m at_ (b ∷ bs) at_ ≡ b = (unfold write_bytes in ground arith) in
    ap₂ ◌∷◌ same (
      read_bytes-tail m at_ b bs (suc at_) (length bs) (omega arith)
      ∙ read_bytes-write_bytes m (suc at_) bs)

pub write_bytes-replicate :
    (m : Memory) (at_ n c a : ℕ) → at_ ≤ a → a < at_ + n → write_bytes m at_ (replicate n c) a ≡ c
unfolding write_bytes
write_bytes-replicate m at_ zero c a le lt = absurd (omega arith)
write_bytes-replicate m at_ (suc n) c a le lt =
    ground (arith, write_bytes-replicate m (suc at_) n c a)

-- Behind the bytes that are written last, the region holds what filled it before.
pub read_bytes-filled :
    (m : Memory) (at_ total c : ℕ) (bs : Bytes) (j n : ℕ)
    → at_ + length bs ≤ j
    → j + n ≤ at_ + total
    → read_bytes (write_bytes (write_bytes m at_ (replicate total c)) at_ bs) j n ≡ replicate n c
read_bytes-filled m at_ total c bs j zero le fits = refl
read_bytes-filled m at_ total c bs j (suc n) le fits =
    ap₂ ◌∷◌
      (write_bytes-elsewhere (write_bytes m at_ (replicate total c)) at_ bs j (inr le)
        ∙ write_bytes-replicate m at_ total c j (omega arith) (omega arith))
      (read_bytes-filled m at_ total c bs (suc j) n (omega arith) (omega arith))
