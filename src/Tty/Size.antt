-- ===== src/Tty/Size.antt =====
-- The size of the client's terminal on its way to the pty: `current_winsize` and `send_resize` on the
-- client's side, `read_client_packets` on the server's, all in src/main.rs.
use mathlib.Core.Option
use abduco_inline.Prelude.{
  ℕ, ◌/◌, ◌%◌, ◌^◌, ◌<◌, ◌≡◌, refl, ap, ap₂, [], ◌∷◌, ◌++◌, ◌==◌, if◌then◌else◌, Option, none, some,
  arith,
}
use abduco_inline.Prelude.Bytes.{Bytes, u16_from_ne_bytes}
use abduco_inline.Prelude.Decimal.{parse_uint, parse_uint-lt}
use abduco_inline.History.{History}
use abduco_inline.Server.Client.{Client}
use abduco_inline.Server.Packets.{Pty, set_winsize, winch_group, resize, handle_packet}
use abduco_inline.Attach.{Winsize, resize_packet}
use abduco_inline.Tty.{env_u16, current_winsize, size_of_env}

-- A size that a terminal can have.
pub record IsSize (ws : Winsize) : Type 0 where
  pub rows : (0 < ws.rows) × (ws.rows < 2 ^ 16)
  pub cols : (0 < ws.cols) × (ws.cols < 2 ^ 16)

-- What an ioctl can answer: numbers that are u16.
abbrev pub IsAnswer : Option Winsize → Type 0
IsAnswer none = Unit
IsAnswer (some ws) = (ws.rows < 2 ^ 16) × (ws.cols < 2 ^ 16)

parsed_step :
    (parsed : Option ℕ) (d : ℕ)
    → ((v : ℕ) → parsed ≡ some v → v < 2 ^ 16)
    → 0 < d
    → d < 2 ^ 16
    → let v : Option ℕ = elim parsed [ none ↦ none | some v ↦ if v == 0 then none else some v ] in
      (0 < Option.get_or v d) × (Option.get_or v d < 2 ^ 16)
parsed_step none d small pos lt = (pos, lt)
parsed_step (some v) d small pos lt = ground (arith, small v refl)

get_or-env_u16 :
    (text : Option Bytes) (d : ℕ)
    → 0 < d
    → d < 2 ^ 16
    → (0 < Option.get_or (env_u16 text) d) × (Option.get_or (env_u16 text) d < 2 ^ 16)
unfolding env_u16
get_or-env_u16 none d pos lt = (pos, lt)
get_or-env_u16 (some text) d pos lt =
    parsed_step (parse_uint (2 ^ 16) text) d (λ v. parse_uint-lt (2 ^ 16) text v (omega arith)) pos
      lt

size_of_env-IsSize : (rows cols : Option Bytes) → IsSize (size_of_env rows cols)
size_of_env-IsSize rows cols = record {
  rows = get_or-env_u16 rows 25 (omega arith) (omega arith);
  cols = get_or-env_u16 cols 80 (omega arith) (omega arith);
}

-- Whatever the terminal and the environment answer, both numbers of the size are positive, and are u16.
pub current_winsize_bounds :
    (answer : Option Winsize) (rows cols : Option Bytes)
    → IsAnswer answer
    → IsSize (current_winsize answer rows cols)
unfolding current_winsize
current_winsize_bounds none rows cols h = size_of_env-IsSize rows cols
current_winsize_bounds (some ws) rows cols h = ground (arith, h, size_of_env-IsSize rows cols)

from-to_u16 : (n : ℕ) → n < 2 ^ 16 → u16_from_ne_bytes (n % 256) (n / 256 % 256) ≡ n
from-to_u16 n lt = omega arith

resize-resize_packet :
    (pty : Pty) (ws : Winsize)
    → IsSize ws
    → resize pty (resize_packet ws).payload
      ≡ record pty { calls = pty.calls ++ set_winsize ws.rows ws.cols ∷ winch_group ∷ [] }
unfolding resize
resize-resize_packet pty ws h =
    ap₂ (λ (r c : ℕ). record pty { calls = pty.calls ++ set_winsize r c ∷ winch_group ∷ [] })
      (from-to_u16 ws.rows h.rows.1) (from-to_u16 ws.cols h.cols.1)

-- The size that the client sends for whatever its terminal and environment answer is the size that the
-- server gives to the pty, followed by the signal to the processes on it; both numbers are positive.
pub size_reaches_pty :
    (answer : Option Winsize) (rows cols : Option Bytes) (now : ℕ) (h : History) (c : Client)
    (pty : Pty)
    → IsAnswer answer
    → let ws = current_winsize answer rows cols in
      (handle_packet now h (c, pty) (resize_packet ws)
        ≡ (c, record pty { calls = pty.calls ++ set_winsize ws.rows ws.cols ∷ winch_group ∷ [] }))
      × (0 < ws.rows)
      × (0 < ws.cols)
unfolding handle_packet
size_reaches_pty answer rows cols now h c pty fits =
    let ws = current_winsize answer rows cols in
    let size = current_winsize_bounds answer rows cols fits in
    (ap (λ (p : Pty). (c, p)) (resize-resize_packet pty ws size), size.rows.0, size.cols.0)
