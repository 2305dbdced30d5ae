-- ===== src/Dump/Tests.antt =====
-- Runs of `dump_session` and `tail_line_start` of src/main.rs.
use abduco_inline.Prelude.{ℕ, ◌≡◌, refl, [], ◌∷◌, arith}
use abduco_inline.History.{History}
use abduco_inline.Dump.{scan_back, scan_from, tail_line_start}
use abduco_inline.Dump.Lines.{LastEnds, LastLines, tail_line_start-LastLines}

last_line : tail_line_start (97 ∷ 10 ∷ 98 ∷ 10 ∷ []) 1 ≡ 2
unfolding tail_line_start scan_from scan_back
last_line = refl

more_lines_than_there_are : tail_line_start (97 ∷ 10 ∷ 98 ∷ []) 7 ≡ 0
unfolding tail_line_start scan_from scan_back
more_lines_than_there_are = refl

abbrev two_lines : History
two_lines = record { bytes = 97 ∷ 10 ∷ 98 ∷ 10 ∷ [] }

tail_line_start-LastLines_example :
    (end_ : ℕ) × LastEnds two_lines.bytes end_
    × LastLines two_lines.bytes 1 end_ (tail_line_start two_lines.bytes 1)
tail_line_start-LastLines_example =
    tail_line_start-LastLines two_lines.bytes 1 (λ e. cc) (omega arith)
