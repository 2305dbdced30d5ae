-- ===== src/Dump/Chosen.antt =====
-- What the limits of `dump_session` in src/main.rs choose of the output.
use abduco_inline.Prelude.{
  ℕ, ◌+◌, ◌-◌, ◌<◌, ◌≡◌, refl, sym, ap, ◌∙◌, [], ◌∷◌, length, drop, drop-drop, drop-nil, take_last,
  ltb, ◌==◌, if◌then◌else◌, ◌&&◌, not, Bool-cases, inl, inr, arith,
}
use abduco_inline.Prelude.Bytes.{Bytes}
use abduco_inline.Dump.{tail_line_start, dump_start}
use abduco_inline.Dump.Lines.{LastEnds, LastLines, tail_line_start-LastLines}

-- The last `max_bytes` bytes, where there is a limit on them.
abbrev pub last_bytes : Bytes → ℕ → Bytes
last_bytes out max_bytes = if max_bytes == 0 then out else take_last max_bytes out

-- What the limit on lines leaves of `window`: all, where there is none, nothing of nothing, and else the
-- last lines.
pub data LinesOf (window : Bytes) (max_lines : ℕ) (out : Bytes) : Type 0 where
  unlimited : max_lines ≡ 0 → out ≡ window → LinesOf window max_lines out
  nothing : window ≡ [] → out ≡ [] → LinesOf window max_lines out
  last :
      (end_ k : ℕ)
      → 0 < max_lines
      → LastEnds window end_
      → LastLines window max_lines end_ k
      → out ≡ drop k window
      → LinesOf window max_lines out

-- What is printed of `all`: the last lines of its last bytes.
abbrev pub Chosen : Bytes → ℕ → ℕ → Bytes → Type 0
Chosen all max_bytes max_lines out = LinesOf (last_bytes all max_bytes) max_lines out

-- Where the last bytes begin.
abbrev byte_start : Bytes → ℕ → ℕ
byte_start out max_bytes =
    if not (max_bytes == 0) && ltb max_bytes (length out) then length out - max_bytes else 0

drop-byte_start :
    (out : Bytes) (max_bytes : ℕ) → drop (byte_start out max_bytes) out ≡ last_bytes out max_bytes
drop-byte_start out max_bytes = elim (Bool-cases (max_bytes == 0)) [
  | inl none ↦ rw none refl
  | inr some ↦ elim (Bool-cases (ltb max_bytes (length out))) [
    | inl more ↦ rw (some, more) refl
    | inr fewer ↦
        let all : length out - max_bytes ≡ 0 = ground (arith, fewer) in
        rw (some, fewer) (ap (λ (n : ℕ). drop n out) (sym all))
  ]
]

lines_of :
    (out window : Bytes) (start max_lines : ℕ)
    → drop start out ≡ window
    → 0 < max_lines
    → LinesOf window max_lines (drop (start + tail_line_start (drop start out) max_lines) out)
unfolding tail_line_start
lines_of out [] start max_lines e pos = nothing refl (
    sym (drop-drop start _ _ out refl)
    ∙ ap (λ (w : Bytes). drop (tail_line_start w max_lines) w) e
    ∙ drop-nil _)
lines_of out (b ∷ bs) start max_lines e pos =
    let (end_, ends, lines) = tail_line_start-LastLines (b ∷ bs) max_lines (λ e. cc) pos in
    last end_ (tail_line_start (b ∷ bs) max_lines) pos ends lines (
      sym (drop-drop start _ _ out refl)
      ∙ ap (λ (w : Bytes). drop (tail_line_start w max_lines) w) e)

-- What is printed begins where `dump_start` says.
pub dump_start-Chosen :
    (out : Bytes) (max_bytes max_lines : ℕ)
    → Chosen out max_bytes max_lines (drop (dump_start out max_bytes max_lines) out)
unfolding dump_start
dump_start-Chosen out max_bytes max_lines = elim (Bool-cases (max_lines == 0)) [
  | inl none ↦ rw none (unlimited (ground (arith, none)) (drop-byte_start out max_bytes))
  | inr some ↦ rw some (
      lines_of out (last_bytes out max_bytes) (byte_start out max_bytes) max_lines
        (drop-byte_start out max_bytes) (ground (arith, some)))
]
