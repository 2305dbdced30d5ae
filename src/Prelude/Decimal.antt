-- ===== src/Prelude/Decimal.antt =====
-- Unsigned numbers in decimal: `str::parse` of usize, u64 and u16, and how `format!` writes them.
use abduco_inline.Prelude.{
  ℕ, zero, suc, ◌+◌, ◌-◌, ◌*◌, ◌/◌, ◌%◌, ◌≤◌, ◌<◌, ◌≡◌, ◌≢◌, refl, ap, ◌∙◌, [], ◌∷◌, ltb, leb, ◌==◌,
  if◌then◌else◌, Bool-cases, inl, inr, ◌&&◌, Option, none, some, arith, All,
}
use abduco_inline.Prelude.Bytes.{Bytes}

-- Decimal digits behind the number `acc`, with an error at a number that is not below `limit`.
unfoldable pub parse_digits : ℕ → ℕ → Bytes → Option ℕ
parse_digits limit acc [] = some acc
parse_digits limit acc (c ∷ cs) =
    let value = acc * 10 + (c - b'0') in
    let more = parse_digits limit value cs in
    if leb b'0' c && leb c b'9' && ltb value limit then more else none

-- The text must hold a digit, and may begin with a plus.
unfoldable pub parse_uint : ℕ → Bytes → Option ℕ
parse_uint limit [] = none
parse_uint limit (c ∷ []) = parse_digits limit 0 (c ∷ [])
parse_uint limit (c ∷ d ∷ cs) =
    if c == b'+' then parse_digits limit 0 (d ∷ cs) else parse_digits limit 0 (c ∷ d ∷ cs)

parse_digits-lt :
    (limit acc : ℕ) (cs : Bytes) (n : ℕ)
    → acc < limit
    → parse_digits limit acc cs ≡ some n
    → n < limit
unfolding parse_digits
parse_digits-lt limit acc [] n lt h = ground arith
parse_digits-lt limit acc (c ∷ cs) n lt h =
    ground (arith, parse_digits-lt limit (acc * 10 + (c - b'0')) cs n)

pub parse_uint-lt :
    (limit : ℕ) (cs : Bytes) (n : ℕ) → 0 < limit → parse_uint limit cs ≡ some n → n < limit
unfolding parse_uint
parse_uint-lt limit [] n pos h = cc
parse_uint-lt limit (c ∷ []) n pos h = parse_digits-lt limit 0 (c ∷ []) n pos h
parse_uint-lt limit (c ∷ d ∷ cs) n pos h =
    ground (arith, parse_digits-lt limit 0 (d ∷ cs) n, parse_digits-lt limit 0 (c ∷ d ∷ cs) n)

-- The digits of `n` in front of `out`, with fuel: each round takes one digit off.
unfoldable pub digits_loop : ℕ → ℕ → Bytes → Bytes
digits_loop zero n out = out
digits_loop (suc fuel) n out =
    let rest = digits_loop fuel (n / 10) ((b'0' + n % 10) ∷ out) in
    if ltb n 10 then (b'0' + n) ∷ out else rest

unfoldable pub decimal : ℕ → Bytes
decimal n = digits_loop (suc n) n []

-- A byte that `decimal` writes.
abbrev pub IsDigit : ℕ → Type 0
IsDigit c = (b'0' ≤ c) × (c ≤ b'9')

parse_digit :
    (limit acc d : ℕ) (out : Bytes)
    → d < 10
    → acc * 10 + d < limit
    → parse_digits limit acc ((b'0' + d) ∷ out) ≡ parse_digits limit (acc * 10 + d) out
unfolding parse_digits
parse_digit limit acc d out small lt = ground arith

parse_digits-digits_loop :
    (limit fuel n : ℕ) (out : Bytes)
    → n < fuel
    → n < limit
    → parse_digits limit 0 (digits_loop fuel n out) ≡ parse_digits limit n out
unfolding digits_loop
parse_digits-digits_loop limit zero n out f lt = absurd (omega arith)
parse_digits-digits_loop limit (suc fuel) n out f lt = elim (Bool-cases (ltb n 10)) [
  | inl small ↦ rw small (ground (arith, parse_digit limit 0 n out))
  | inr large ↦ rw large (
      parse_digits-digits_loop limit fuel (n / 10) ((b'0' + n % 10) ∷ out) (ground arith)
        (ground arith)
      ∙ parse_digit limit (n / 10) (n % 10) out (omega arith) (omega arith)
      ∙ ap (λ (m : ℕ). parse_digits limit m out) (omega arith))
]

pub digits_loop-IsDigit :
    (fuel n : ℕ) (out : Bytes) → All IsDigit out → All IsDigit (digits_loop fuel n out)
unfolding digits_loop
digits_loop-IsDigit zero n out h = h
digits_loop-IsDigit (suc fuel) n out h =
    ground (arith, digits_loop-IsDigit fuel (n / 10) ((b'0' + n % 10) ∷ out))

pub decimal-IsDigit : (n : ℕ) → All IsDigit (decimal n)
unfolding decimal
decimal-IsDigit n = digits_loop-IsDigit (suc n) n [] tt

-- A text of digits, not empty, is read from its first digit on.
parse_uint-digits :
    (limit : ℕ) (cs : Bytes)
    → All IsDigit cs
    → 0 < limit
    → cs ≢ []
    → parse_uint limit cs ≡ parse_digits limit 0 cs
unfolding parse_uint
parse_uint-digits limit [] h pos ne = absurd (ne refl)
parse_uint-digits limit (c ∷ []) h pos ne = refl
parse_uint-digits limit (c ∷ d ∷ cs) h pos ne = ground arith

digits_loop-ne-nil : (fuel n c : ℕ) (out : Bytes) → digits_loop fuel n (c ∷ out) ≢ []
unfolding digits_loop
digits_loop-ne-nil zero n c out = λ e. cc
digits_loop-ne-nil (suc fuel) n c out =
    λ e. ground (arith, e, digits_loop-ne-nil fuel (n / 10) (b'0' + n % 10) (c ∷ out))

decimal-ne-nil : (n : ℕ) → decimal n ≢ []
unfolding decimal digits_loop
decimal-ne-nil n e = ground (arith, digits_loop-ne-nil n (n / 10) (b'0' + n % 10) [])

-- A number below the limit is read back from its digits.
pub parse_uint-decimal : (limit n : ℕ) → n < limit → parse_uint limit (decimal n) ≡ some n
unfolding decimal
parse_uint-decimal limit n lt =
    parse_uint-digits limit (decimal n) (decimal-IsDigit n) (omega arith) (decimal-ne-nil n)
    ∙ parse_digits-digits_loop limit (suc n) n [] (omega arith) lt
    ∙ (unfold parse_digits in refl)
