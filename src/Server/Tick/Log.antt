-- ===== src/Server/Tick/Log.antt =====
-- What a client of `server_loop` in src/main.rs that attaches is shown of the output of the pty.
use abduco_inline.Prelude.{
  ℕ, zero, suc, ◌≤◌, ◌≡◌, refl, sym, ap, ap₂, ◌∙◌, [], ◌∷◌, ◌++◌, append-nil, append_assoc, length,
  take, drop, take_last, drop-append-le, drop-all, arith,
}
use abduco_inline.Prelude.Bytes.{Bytes}
use abduco_inline.History.{history_cap}

-- The last HISTORY_CAP bytes of the first `seen` bytes of the output, and all that came behind these.
abbrev pub from_seen : ℕ → Bytes → Bytes
from_seen seen out = take_last history_cap (take seen out) ++ drop seen out

take-append-le : (n : ℕ) (xs ys : Bytes) → n ≤ length xs → take n (xs ++ ys) ≡ take n xs
take-append-le zero xs ys le = refl
take-append-le (suc n) [] ys le = absurd (omega arith)
take-append-le (suc n) (x ∷ xs) ys le = ap (◌∷◌ x) (take-append-le n xs ys (omega arith))

take-length : (xs : Bytes) → take (length xs) xs ≡ xs
take-length [] = refl
take-length (x ∷ xs) = ap (◌∷◌ x) (take-length xs)

pub from_seen-append :
    (seen : ℕ) (out d : Bytes)
    → seen ≤ length out
    → from_seen seen out ++ d ≡ from_seen seen (out ++ d)
from_seen-append seen out d le =
    append_assoc _ (drop seen out) d
    ∙ ap₂ ◌++◌ (ap (take_last history_cap) (sym (take-append-le seen out d le)))
        (sym (drop-append-le seen out d le))

pub from_seen-length : (out : Bytes) → take_last history_cap out ≡ from_seen (length out) out
from_seen-length out =
    ap (take_last history_cap) (sym (take-length out))
    ∙ sym (append-nil _)
    ∙ ap (◌++◌ (take_last history_cap (take (length out) out)))
        (sym (drop-all (length out) out (omega arith)))
