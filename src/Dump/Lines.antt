-- ===== src/Dump/Lines.antt =====
-- `tail_line_start` in src/main.rs: where the last lines of a buffer begin.
use abduco_inline.Prelude.{
  ℕ, zero, suc, ◌+◌, ◌-◌, ◌≤◌, ◌<◌, ◌≡◌, ◌≢◌, refl, sym, subst, ap, ◌∙◌, [], ◌∷◌, length, get_or,
  ◌==◌, if◌then◌else◌, false, arith, inl, inr, is_empty, Bool-cases,
}
use abduco_inline.Prelude.Bytes.{Bytes}
use abduco_inline.Dump.{newline, scan_back, scan_from, tail_line_start}

-- The number of newlines among the `n` bytes from index `k` on.
pub newlines : Bytes → ℕ → ℕ → ℕ
newlines buf k zero = 0
newlines buf k (suc n) =
    if get_or buf k 0 == newline then suc (newlines buf (suc k) n) else newlines buf (suc k) n

-- `k` is where the last `lines` lines before index `end_` begin: the start of the buffer if there
-- are no more lines, and else right behind a newline with `lines - 1` newlines behind it.
pub data LastLines (buf : Bytes) (lines end_ k : ℕ) : Type 0 where
  all_lines : k ≡ 0 → newlines buf 0 end_ < lines → LastLines buf lines end_ k
  last_lines :
      (before : ℕ)
      → k ≡ suc before
      → k ≤ end_
      → get_or buf before 0 ≡ newline
      → suc (newlines buf k (end_ - k)) ≡ lines
      → LastLines buf lines end_ k

-- Where the last line of a buffer ends: in front of the newline that closes it, or, where the last byte
-- is no newline, at the end of the buffer.
pub data LastEnds (buf : Bytes) (end_ : ℕ) : Type 0 where
  closed : suc end_ ≡ length buf → get_or buf end_ 0 ≡ newline → LastEnds buf end_
  unclosed : end_ ≡ length buf → get_or buf (end_ - 1) 0 ≢ newline → LastEnds buf end_

newlines-step :
    (buf : Bytes) (k n m : ℕ)
    → n ≡ suc m
    → newlines buf k n
      ≡ (if get_or buf k 0 == newline then suc (newlines buf (suc k) m) else newlines buf (suc k) m)
unfolding newlines
newlines-step buf k n m e = ap (newlines buf k) e

scan_back-LastLines :
    (buf : Bytes) (lines pos end_ found : ℕ)
    → pos ≤ end_
    → newlines buf pos (end_ - pos) ≡ found
    → found < lines
    → LastLines buf lines end_ (scan_back buf lines pos found)
unfolding scan_back
scan_back-LastLines buf lines zero end_ found le e lt =
    let all : end_ - 0 ≡ end_ = omega arith in
    all_lines refl (omega (arith, ap (newlines buf 0) all))
scan_back-LastLines buf lines (suc pos) end_ found le e lt =
    let step = newlines-step buf pos (end_ - pos) (end_ - suc pos) (omega arith) in
    elim (Bool-cases (get_or buf pos 0 == newline)) [
      | inl nl ↦ elim (Bool-cases ((found + 1) == lines)) [
        | inl hit ↦ rw (nl, hit) (last_lines pos refl le (ground arith) (ground (arith, e)))
        | inr on ↦
            rw (nl, on)
              (scan_back-LastLines buf lines pos end_ (found + 1) (omega arith)
                (ground (arith, step, e)) (ground arith))
      ]
      | inr other ↦
          rw other (
            scan_back-LastLines buf lines pos end_ found (omega arith) (ground (arith, step, e)) lt)
    ]

is_empty-cons : (buf : Bytes) → buf ≢ [] → is_empty buf ≡ false
is_empty-cons [] ne = absurd (ne refl)
is_empty-cons (b ∷ bs) ne = refl

scan_from-LastEnds : (buf : Bytes) → buf ≢ [] → LastEnds buf (scan_from buf)
unfolding scan_from
scan_from-LastEnds [] ne = absurd (ne refl)
scan_from-LastEnds (b ∷ bs) ne = elim (Bool-cases (get_or (b ∷ bs) (length bs) 0 == newline)) [
  | inl nl ↦
      let here : scan_from (b ∷ bs) ≡ length bs = ground (arith, nl) in
      subst (LastEnds (b ∷ bs)) (sym here) (closed refl (ground (arith, nl)))
  | inr other ↦
      let here : scan_from (b ∷ bs) ≡ suc (length bs) = ground (arith, other) in
      subst (LastEnds (b ∷ bs)) (sym here) (unclosed refl (ground (arith, other)))
]

-- A buffer that is not empty, and a number of lines that is not 0: the last lines begin where
-- `tail_line_start` says, and a newline at the very end of the buffer closes the last of them.
pub tail_line_start-LastLines :
    (buf : Bytes) (lines : ℕ)
    → buf ≢ []
    → 0 < lines
    → (end_ : ℕ) × LastEnds buf end_ × LastLines buf lines end_ (tail_line_start buf lines)
unfolding tail_line_start
tail_line_start-LastLines buf lines ne pos =
    let wanted : (lines == 0) ≡ false = ground arith in
    let some_bytes : is_empty buf ≡ false = is_empty-cons buf ne in
    let nothing : scan_from buf - scan_from buf ≡ 0 = omega arith in
    (
      scan_from buf,
      scan_from-LastEnds buf ne,
      rw (wanted, some_bytes)
          (scan_back-LastLines buf lines (scan_from buf) (scan_from buf) 0 (omega arith)
            (ap (newlines buf (scan_from buf)) nothing ∙ (unfold newlines in refl)) pos),
    )
