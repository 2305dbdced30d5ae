-- ===== src/History.antt =====
-- src/main.rs: `History`, the server's bounded record of the session's output.
pub mod Window
mod Tests
use abduco_inline.Prelude.{
  ℕ, ◌+◌, ◌-◌, ◌*◌, List, [], ◌∷◌, ◌++◌, length, drop, ltb, leb, if◌then◌else◌,
}
use abduco_inline.Prelude.Bytes.{Bytes}

abbrev pub history_cap : ℕ
history_cap = 1024 * 1024

-- The front of the deque is the head of the list.
pub record History : Type 0 where
  pub bytes : Bytes

unfoldable pub new : History
new = record { bytes = [] }

-- `while self.bytes.len() + data.len() > HISTORY_CAP { self.bytes.pop_front(); }`, on the number
-- of bytes to come. On an empty deque the test fails, since they fit.
unfoldable pub evict : ℕ → Bytes → Bytes
evict n [] = []
evict n (b ∷ bs) =
    let rest = evict n bs in if ltb history_cap (length (b ∷ bs) + n) then rest else b ∷ bs

unfoldable pub append : History → Bytes → History
append h new_bytes =
    if leb history_cap (length new_bytes)
    then record h { bytes = drop (length new_bytes - history_cap) new_bytes }
    else record h { bytes = evict (length new_bytes) h.bytes ++ new_bytes }

unfoldable pub snapshot : History → Bytes
snapshot h = h.bytes

-- The reads of one session, in their order.
unfoldable pub append_all : History → List Bytes → History
append_all h [] = h
append_all h (d ∷ ds) = append_all (append h d) ds
