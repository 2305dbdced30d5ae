-- ===== src/History/Tests.antt =====
-- Runs of `History` of src/main.rs.
use abduco_inline.Prelude.{◌≡◌, refl, [], ◌∷◌, take_last, concat}
use abduco_inline.History.{evict, history_cap, new, append, append_all, snapshot}
use abduco_inline.History.Window.{snapshot-append_all-new}

two_appends : snapshot (append (append new (1 ∷ 2 ∷ [])) (3 ∷ [])) ≡ 1 ∷ 2 ∷ 3 ∷ []
unfolding new append snapshot evict
two_appends = refl

snapshot-append_all-new_example :
    snapshot (append_all new ((1 ∷ 2 ∷ []) ∷ (3 ∷ []) ∷ []))
    ≡ take_last history_cap (concat ((1 ∷ 2 ∷ []) ∷ (3 ∷ []) ∷ []))
snapshot-append_all-new_example = snapshot-append_all-new ((1 ∷ 2 ∷ []) ∷ (3 ∷ []) ∷ [])
