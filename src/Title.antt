-- ===== src/Title.antt =====
-- src/main.rs: `proc_self_argv_region` and `shorten_server_proctitle` on Linux: the server overwrites
-- its own arguments with a short title.
pub mod Stat
pub mod Memory
pub mod Hidden
mod Tests
use abduco_inline.Prelude.{
  ℕ, suc, ◌+◌, ◌-◌, ◌^◌, min, List, [], ◌∷◌, ◌++◌, length, take, replicate, get_elem?, ltb, ◌==◌,
  if◌then◌else◌, is_empty, Bool, ◌&&◌, ◌||◌, Option, none, some,
}
use abduco_inline.Prelude.Bytes.{Bytes}
use abduco_inline.Prelude.Text.{codes, split_last}
use abduco_inline.Prelude.Decimal.{parse_uint}

-- `u8::is_ascii_whitespace`
abbrev pub is_ascii_whitespace : ℕ → Bool
is_ascii_whitespace c = c == 9 || c == 10 || c == 12 || c == 13 || c == b' '

-- The words of a text behind the letters `word`.
unfoldable pub words : Bytes → Bytes → List Bytes
words word [] = if is_empty word then [] else word ∷ []
words word (c ∷ cs) =
    let rest = words [] cs in
    let longer = words (word ++ c ∷ []) cs in
    if is_ascii_whitespace c then (if is_empty word then rest else word ∷ rest) else longer

-- `str::split_ascii_whitespace`
abbrev pub split_ascii_whitespace : Bytes → List Bytes
split_ascii_whitespace cs = words [] cs

infixl 5 ◌>>=◌
abbrev pub ◌>>=◌ : {A B : Type 0} → Option A → (A → Option B) → Option B
none >>= next = none
some x >>= next = next x

abbrev pub usize_at : List Bytes → ℕ → Option ℕ
usize_at fields i = get_elem? fields i >>= parse_uint (2 ^ 64)

-- From the text of /proc/self/stat, if it can be read.
unfoldable pub proc_self_argv_region : Option Bytes → Option (ℕ × ℕ)
proc_self_argv_region stat = do
  text ← stat
  (_, rest) ← split_last b')' text
  arg_start ← usize_at (split_ascii_whitespace rest) 45
  arg_end ← usize_at (split_ascii_whitespace rest) 46
  if ltb arg_start arg_end then some (arg_start, arg_end) else none

abbrev pub Memory : Type 0
Memory = ℕ → ℕ

-- The bytes that are written from an address on.
unfoldable pub write_bytes : Memory → ℕ → Bytes → Memory
write_bytes m at_ [] = m
write_bytes m at_ (b ∷ bs) = λ a. if a == at_ then b else write_bytes m (suc at_) bs a

-- A process: its memory, where the kernel takes its arguments to end, its short name, the text of its
-- stat file, and whether PR_SET_MM is allowed.
pub record Process : Type 0 where
  pub memory : Memory
  pub arg_end : ℕ
  pub comm : Bytes
  pub stat : Option Bytes
  pub may_set_mm : Bool

abbrev pub title_of : Bytes → Bytes
title_of session_name = codes "lich-server[" ++ (session_name ++ b']' ∷ [])

-- What is done to a region of at least two bytes.
unfoldable pub retitle : Bytes → ℕ → ℕ → Process → Process
retitle title arg_start total_len p =
    let write_len = min (length title) (total_len - 1) in
    let zeroed = write_bytes p.memory arg_start (replicate total_len 0) in
    record p {
      memory = write_bytes zeroed arg_start (take write_len title);
      arg_end = if p.may_set_mm then arg_start + write_len + 1 else p.arg_end;
      comm = codes "lich-server";
    }

unfoldable pub shorten_server_proctitle : Bytes → Process → Process
shorten_server_proctitle session_name p = elim (proc_self_argv_region p.stat) [
  | none ↦ p
  | some (arg_start, arg_end) ↦
      if ltb (arg_end - arg_start) 2
      then p
      else retitle (title_of session_name) arg_start (arg_end - arg_start) p
]
