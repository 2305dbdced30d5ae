-- ===== src/Keys/Tests.antt =====
-- Runs of `key_token_bytes` and `send_keys_session` of src/main.rs.
use abduco_inline.Prelude.{◌≡◌, refl, [], ◌∷◌, some, none}
use abduco_inline.Prelude.Text.{codes}
use abduco_inline.Keys.{key_token_bytes}

up_arrow : key_token_bytes (codes "Up") ≡ some (27 ∷ 91 ∷ 65 ∷ [])
unfolding key_token_bytes
up_arrow = refl

unknown_token : key_token_bytes (codes "hello") ≡ none
unfolding key_token_bytes
unknown_token = refl
