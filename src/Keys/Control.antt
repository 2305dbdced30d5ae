-- ===== src/Keys/Control.antt =====
-- The control tokens `C-x` and `^x` of `key_token_bytes` in src/main.rs.
use abduco_inline.Prelude.{
  ℕ, ◌%◌, ◌≡◌, refl, ap, [], ◌∷◌, Bool, true, false, ◌&&◌, Option, none, some, arith, all_below,
  all_below_sound,
}
use abduco_inline.Prelude.Bytes.{Bytes, IsByte}
use abduco_inline.Prelude.Text.{eq_bytes, eq_bytes-eq}
use abduco_inline.Keys.{key_token_bytes}

abbrev yields : Option Bytes → Bytes → Bool
yields none expected = false
yields (some bytes) expected = eq_bytes bytes expected

yields-eq : (o : Option Bytes) (expected : Bytes) → yields o expected ≡ true → o ≡ some expected
yields-eq none expected h = cc
yields-eq (some bytes) expected h = ap some (eq_bytes-eq bytes expected h)

abbrev pub control_token : ℕ → Bytes
control_token x = b'C' ∷ b'-' ∷ x ∷ []

abbrev pub caret_token : ℕ → Bytes
caret_token x = b'^' ∷ x ∷ []

abbrev control_test : ℕ → Bool
control_test x =
    yields (key_token_bytes (control_token x)) ((x % 32) ∷ [])
    && yields (key_token_bytes (caret_token x)) ((x % 32) ∷ [])

control_table : all_below 256 control_test ≡ true
unfolding key_token_bytes
control_table = refl

-- For every byte x the tokens `C-x` and `^x` give the one byte x mod 32, the tokens `C-m` and `C-i`
-- with arms of their own included.
pub key_token_bytes-control :
    (x : ℕ)
    → IsByte x
    → (key_token_bytes (control_token x) ≡ some ((x % 32) ∷ []))
      × (key_token_bytes (caret_token x) ≡ some ((x % 32) ∷ []))
key_token_bytes-control x h =
    let both = all_below_sound 256 control_test x control_table h in
    (yields-eq _ _ (ground (arith, both)), yields-eq _ _ (ground (arith, both)))
