-- ===== src/Prelude/Bytes.antt =====
-- `to_ne_bytes` and `from_ne_bytes` of u16, u32 and u64, on the little-endian machines that the
-- release is built for. A byte is a number below 256.
use abduco_inline.Prelude.{ℕ, ◌+◌, ◌*◌, ◌/◌, ◌%◌, ◌^◌, ◌<◌, ◌≡◌, List, [], ◌∷◌, ◌++◌, arith, All}

abbrev pub Bytes : Type 0
Bytes = List ℕ

abbrev pub IsByte : ℕ → Type 0
IsByte b = b < 256

abbrev pub u16_to_ne_bytes : ℕ → Bytes
u16_to_ne_bytes n = (n % 256) ∷ (n / 256 % 256) ∷ []

abbrev pub u16_from_ne_bytes : ℕ → ℕ → ℕ
u16_from_ne_bytes a b = a + 256 * b

abbrev pub u32_to_ne_bytes : ℕ → Bytes
u32_to_ne_bytes n = (n % 256) ∷ (n / 256 % 256) ∷ (n / 65536 % 256) ∷ (n / 16777216 % 256) ∷ []

abbrev pub u32_from_ne_bytes : ℕ → ℕ → ℕ → ℕ → ℕ
u32_from_ne_bytes a b c d = a + 256 * b + 65536 * c + 16777216 * d

-- The low half first.
abbrev pub u64_to_ne_bytes : ℕ → Bytes
u64_to_ne_bytes n = u32_to_ne_bytes (n % 2 ^ 32) ++ u32_to_ne_bytes (n / 2 ^ 32)

pub from-to_ne_bytes :
    (n : ℕ)
    → n < 2 ^ 32
    → u32_from_ne_bytes (n % 256) (n / 256 % 256) (n / 65536 % 256) (n / 16777216 % 256) ≡ n
from-to_ne_bytes n h = omega arith

pub from_ne_bytes-lt :
    (a b c d : ℕ) → IsByte a → IsByte b → IsByte c → IsByte d → u32_from_ne_bytes a b c d < 2 ^ 32
from_ne_bytes-lt a b c d ha hb hc hd = omega arith

pub to_ne_bytes-IsByte : (n : ℕ) → All IsByte (u32_to_ne_bytes n)
to_ne_bytes-IsByte n = omega arith
