-- ===== src/History/Window.antt =====
-- `History` in src/main.rs against its specification: the last HISTORY_CAP bytes of the output.
use abduco_inline.Prelude.{
  ℕ, ◌+◌, ◌-◌, ◌≤◌, ◌<◌, ◌≡◌, sym, ap, ◌∙◌, List, [], ◌∷◌, ◌++◌, length, drop, take_last, concat,
  arith, length-append, drop-append-le, drop-append-ge, drop-nil, drop-cons, drop_zero, suc,
  take_last-append, length-take_last, append_assoc, append-nil,
}
use abduco_inline.Prelude.Bytes.{Bytes}
use abduco_inline.History.{History, history_cap, new, evict, append, snapshot, append_all}

-- Evicting for `n` bytes drops from the front what does not fit beside them.
evict-drop :
    (n : ℕ) (bs : Bytes) → n < history_cap → evict n bs ≡ drop (length bs + n - history_cap) bs
unfolding evict
evict-drop n [] h = sym (drop-nil (0 + n - history_cap))
evict-drop n (b ∷ bs) h =
    let k = suc (length bs) + n - history_cap in
    ground (
      arith,
      evict-drop n bs h,
      drop-cons k (length bs + n - history_cap) b bs,
      drop_zero k (b ∷ bs),
    )

take_last_long :
    (bs d : Bytes)
    → history_cap ≤ length d
    → drop (length d - history_cap) d ≡ take_last history_cap (bs ++ d)
take_last_long bs d h = sym (
    drop-append-ge (length (bs ++ d) - history_cap) bs d (omega (arith, length-append bs d))
    ∙ ap (λ (k : ℕ). drop k d) (omega (arith, length-append bs d)))

take_last_short :
    (bs d : Bytes)
    → length d < history_cap
    → evict (length d) bs ++ d ≡ take_last history_cap (bs ++ d)
take_last_short bs d h =
    ap (λ (xs : Bytes). xs ++ d)
      (evict-drop (length d) bs h ∙ ap (λ (k : ℕ). drop k bs) (omega (arith, length-append bs d)))
    ∙ sym (drop-append-le (length (bs ++ d) - history_cap) bs d (omega (arith, length-append bs d)))

-- One append keeps the last HISTORY_CAP bytes of what was there followed by what came.
pub snapshot-append :
    (h : History) (d : Bytes) → snapshot (append h d) ≡ take_last history_cap (snapshot h ++ d)
unfolding snapshot append
snapshot-append h d = ground (arith, take_last_long h.bytes d, take_last_short h.bytes d)

-- The history never holds more than HISTORY_CAP bytes after an append.
pub length-append-le : (h : History) (d : Bytes) → length (snapshot (append h d)) ≤ history_cap
length-append-le h d = omega (
  arith,
  ap (length {A = ℕ}) (snapshot-append h d),
  length-take_last history_cap (snapshot h ++ d),
)

pub snapshot-append_all :
    (h : History) (ds : List Bytes)
    → length (snapshot h) ≤ history_cap
    → snapshot (append_all h ds) ≡ take_last history_cap (snapshot h ++ concat ds)
unfolding append_all
snapshot-append_all h [] le = sym (
    drop_zero (length (snapshot h ++ []) - history_cap) (snapshot h ++ [])
      (omega (arith, length-append (snapshot h) []))
    ∙ append-nil (snapshot h))
snapshot-append_all h (d ∷ ds) le =
    snapshot-append_all (append h d) ds (length-append-le h d)
    ∙ ap (λ (xs : Bytes). take_last history_cap (xs ++ concat ds)) (snapshot-append h d)
    ∙ take_last-append history_cap (snapshot h ++ d) (concat ds)
    ∙ ap (take_last history_cap) (append_assoc (snapshot h) d (concat ds))

-- After any sequence of reads from the pty the snapshot is exactly the last HISTORY_CAP bytes of
-- all the output, in its order.
pub snapshot-append_all-new :
    (ds : List Bytes) → snapshot (append_all new ds) ≡ take_last history_cap (concat ds)
unfolding new snapshot
snapshot-append_all-new ds = snapshot-append_all new ds (omega arith)
