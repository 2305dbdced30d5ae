-- ===== src/Keys.antt =====
-- src/main.rs: `key_token_bytes` and `send_keys_session`. A token is the list of its bytes.
pub mod Control
pub mod Sent
mod Tests
use abduco_inline.Prelude.{
  ℕ, suc, ◌+◌, List, [], ◌∷◌, ◌++◌, length, get_or, ltb, ◌==◌, if◌then◌else◌, Bool, true, false,
  ◌&&◌, ◌||◌, Option, none, some, bit_and, Result, ok, err, ◌>>=◌,
}
use mathlib.Core.Option
use abduco_inline.Prelude.Bytes.{Bytes}
use abduco_inline.Prelude.Text.{codes, eq_bytes, starts_with}
use abduco_inline.Protocol.{Packet, recv_packet_blocking, msg_send_keys, max_payload}
use abduco_inline.Stream.{Stream, send_packet_blocking}
use abduco_inline.Server.Client.{chunks}

abbrev pub esc : ℕ
esc = 0x1b

-- The arms of the match in their order.
unfoldable pub key_token_bytes : Bytes → Option Bytes
key_token_bytes t =
    if eq_bytes t (codes "Enter") || eq_bytes t (codes "Return") || eq_bytes t (codes "C-m")
    then some (13 ∷ [])
    else if eq_bytes t (codes "Tab") || eq_bytes t (codes "C-i")
    then some (9 ∷ [])
    else if eq_bytes t (codes "Esc") || eq_bytes t (codes "Escape")
    then some (esc ∷ [])
    else if eq_bytes t (codes "Space")
    then some (32 ∷ [])
    else if eq_bytes t (codes "Backspace") || eq_bytes t (codes "BSpace")
    then some (0x7f ∷ [])
    else if eq_bytes t (codes "Delete")
    then some (esc ∷ codes "[3~")
    else if eq_bytes t (codes "Insert")
    then some (esc ∷ codes "[2~")
    else if eq_bytes t (codes "Up")
    then some (esc ∷ codes "[A")
    else if eq_bytes t (codes "Down")
    then some (esc ∷ codes "[B")
    else if eq_bytes t (codes "Right")
    then some (esc ∷ codes "[C")
    else if eq_bytes t (codes "Left")
    then some (esc ∷ codes "[D")
    else if eq_bytes t (codes "Home")
    then some (esc ∷ codes "[H")
    else if eq_bytes t (codes "End")
    then some (esc ∷ codes "[F")
    else if eq_bytes t (codes "PageUp")
    then some (esc ∷ codes "[5~")
    else if eq_bytes t (codes "PageDown")
    then some (esc ∷ codes "[6~")
    else if starts_with t (codes "C-") && length t == 3
    then some (bit_and (get_or t 2 0) 0x1f ∷ [])
    else if starts_with t (codes "^") && length t == 2
    then some (bit_and (get_or t 1 0) 0x1f ∷ [])
    else none

-- What one key of the command line adds, the `idx`-th.
unfoldable pub encode_key : Bool → ℕ → Bytes → Bytes
encode_key literal idx key =
    if literal
    then (if ltb 0 idx then 32 ∷ [] else []) ++ key
    else Option.get_or (key_token_bytes key) key

-- The loop of `send_keys_session` over the keys.
unfoldable pub encode_keys : Bool → ℕ → List Bytes → Bytes → Bytes
encode_keys literal idx [] bytes = bytes
encode_keys literal idx (key ∷ keys) bytes =
    encode_keys literal (suc idx) keys (bytes ++ encode_key literal idx key)

abbrev pub keys_packet : Bytes → Packet
keys_packet chunk = record { typ = msg_send_keys; payload = chunk }

-- The loop of `send_keys_session` over the chunks: it ends at the first error.
unfoldable pub send_all : List Bytes → Stream → Result (Unit {0}) × Stream
send_all [] stream = (ok tt, stream)
send_all (chunk ∷ more) stream =
    let (sent, stream') = send_packet_blocking stream (keys_packet chunk) in
    elim sent [ ok _ ↦ send_all more stream' | err e ↦ (err e, stream') ]

-- `stream` is the connection that `connect_session` gives, and `incoming` what comes on it.
unfoldable pub send_keys_session : Stream → Bytes → List Bytes → Bool → Result (Unit {0}) × Stream
send_keys_session stream incoming keys literal = elim (recv_packet_blocking incoming) [
  | err e ↦ (err e, stream)
  | ok _ ↦ send_all (chunks max_payload (encode_keys literal 0 keys [])) stream
]
