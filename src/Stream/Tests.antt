-- ===== src/Stream/Tests.antt =====
-- Runs of the writes and reads of src/main.rs.
use abduco_inline.Prelude.{◌≡◌, refl, [], ◌∷◌, ok, interrupted}
use abduco_inline.Stream.{wrote, write_failed, write_loop, read_loop, read_ok, read_failed, saw_eof}

write_in_pieces :
    write_loop (wrote 1 ∷ write_failed interrupted ∷ wrote 9 ∷ []) (1 ∷ 2 ∷ 3 ∷ []) []
    ≡ record { result = ok tt; writes = []; wire = 1 ∷ 2 ∷ 3 ∷ [] }
unfolding write_loop
write_in_pieces = refl

read_to_the_end :
    read_loop (read_ok (1 ∷ []) ∷ read_failed interrupted ∷ read_ok (2 ∷ []) ∷ read_ok [] ∷ []) []
    ≡ record { end_ = saw_eof; reads = []; buf = 1 ∷ 2 ∷ [] }
unfolding read_loop
read_to_the_end = refl
