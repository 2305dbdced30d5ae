-- ===== src/Prelude/Text.antt =====
-- Texts of the program as their bytes: literals, equality and prefixes.
use Prim.Native.Char.{code}
use Prim.Native.String.{String}
use abduco_inline.Prelude.{
  ℕ, ◌-◌, ◌≤◌, ◌≡◌, ◌≢◌, refl, sym, ap, ◌∙◌, [], ◌∷◌, ◌++◌, length, take, drop, leb, ◌==◌,
  if◌then◌else◌, Bool, true, false, ◌&&◌, Option, none, some, arith, All, length-append,
  drop-append, take-append-drop,
}
use abduco_inline.Prelude.Bytes.{Bytes}

-- The code points of a literal, which are its bytes where it is ASCII.
abbrev pub codes : String → Bytes
codes String.[] = []
codes (String.◌∷◌ c s) = code c ∷ codes s

abbrev pub eq_bytes : Bytes → Bytes → Bool
eq_bytes [] [] = true
eq_bytes [] (y ∷ ys) = false
eq_bytes (x ∷ xs) [] = false
eq_bytes (x ∷ xs) (y ∷ ys) = x == y && eq_bytes xs ys

-- `str::starts_with`: the prefix stands second.
abbrev pub starts_with : Bytes → Bytes → Bool
starts_with xs [] = true
starts_with [] (y ∷ ys) = false
starts_with (x ∷ xs) (y ∷ ys) = x == y && starts_with xs ys

pub eq_bytes-eq : (xs ys : Bytes) → eq_bytes xs ys ≡ true → xs ≡ ys
eq_bytes-eq [] [] h = refl
eq_bytes-eq [] (y ∷ ys) h = cc
eq_bytes-eq (x ∷ xs) [] h = cc
eq_bytes-eq (x ∷ xs) (y ∷ ys) h = ground (arith, eq_bytes-eq xs ys)

pub eq_bytes_refl : (xs : Bytes) → eq_bytes xs xs ≡ true
eq_bytes_refl [] = refl
eq_bytes_refl (x ∷ xs) = ground (arith, eq_bytes_refl xs)

-- `str::ends_with`: the suffix stands second.
abbrev pub ends_with : Bytes → Bytes → Bool
ends_with xs ys = leb (length ys) (length xs) && eq_bytes (drop (length xs - length ys) xs) ys

pub ends_with-append : (xs ys : Bytes) → ends_with (xs ++ ys) ys ≡ true
ends_with-append xs ys = ground (
  arith,
  length-append xs ys,
  drop-append (length (xs ++ ys) - length ys) xs ys,
  eq_bytes_refl ys,
)

pub ends_with_sound :
    (xs ys : Bytes)
    → ends_with xs ys ≡ true
    → (take (length xs - length ys) xs ++ ys ≡ xs) × (length ys ≤ length xs)
ends_with_sound xs ys h =
    let same : drop (length xs - length ys) xs ≡ ys = eq_bytes-eq _ ys (ground (arith, h)) in
    (
      ap (◌++◌ (take (length xs - length ys) xs)) (sym same)
          ∙ take-append-drop (length xs - length ys) xs,
      ground (arith, h),
    )

-- No byte of the text is `c`.
abbrev pub Free : ℕ → Bytes → Type 0
Free c xs = All (λ x. x ≢ c) xs

-- What stands before and behind the last `c` (`str::rfind`).
unfoldable pub split_last : ℕ → Bytes → Option (Bytes × Bytes)
split_last c [] = none
split_last c (x ∷ xs) = elim (split_last c xs) [
  | some (before, behind) ↦ some (x ∷ before, behind)
  | none ↦ if x == c then some ([], xs) else none
]

pub split_last-none : (c : ℕ) (xs : Bytes) → Free c xs → split_last c xs ≡ none
unfolding split_last
split_last-none c [] h = refl
split_last-none c (x ∷ xs) (ne, h) = ground (arith, split_last-none c xs h)

pub split_last-some :
    (c : ℕ) (before behind : Bytes)
    → Free c behind
    → split_last c (before ++ c ∷ behind) ≡ some (before, behind)
unfolding split_last
split_last-some c [] behind h = ground (arith, split_last-none c behind h)
split_last-some c (x ∷ before) behind h = ground (arith, split_last-some c before behind h)
