-- ===== src/Dump.antt =====
-- src/main.rs: `dump_session` and `tail_line_start`. The request is sent without waiting; what the
-- server sends is the list of bytes of the stream, and the result is what goes to stdout.
pub mod Lines
pub mod Chosen
pub mod Whole
mod Tests
use abduco_inline.Prelude.{
  ℕ, zero, suc, ◌+◌, ◌-◌, List, [], ◌∷◌, ◌++◌, length, get_or, drop, is_empty, ltb, ◌==◌,
  if◌then◌else◌, Bool, true, false, ◌&&◌, ◌||◌, not, Result, ok, err, ◌>>=◌, other,
}
use abduco_inline.Prelude.Bytes.{Bytes}
use abduco_inline.Protocol.{Packet, recv_packet_blocking, msg_content, msg_dump, msg_dump_end}
use abduco_inline.Stream.{Stream, send_packet_blocking}

abbrev pub newline : ℕ
newline = 10

-- The `while pos > 0` loop of `tail_line_start`.
unfoldable pub scan_back : Bytes → ℕ → ℕ → ℕ → ℕ
scan_back buf lines zero found = 0
scan_back buf lines (suc pos) found =
    let at_newline = get_or buf pos 0 == newline in
    let found' = if at_newline then found + 1 else found in
    let rest = scan_back buf lines pos found' in
    if at_newline && found' == lines then suc pos else rest

-- The end of the scan: a newline at the very end closes the last line.
unfoldable pub scan_from : Bytes → ℕ
scan_from buf =
    let pos = length buf in if ltb 0 pos && get_or buf (pos - 1) 0 == newline then pos - 1 else pos

unfoldable pub tail_line_start : Bytes → ℕ → ℕ
tail_line_start buf lines =
    if lines == 0 || is_empty buf then 0 else scan_back buf lines (scan_from buf) 0

-- Where the output begins.
unfoldable pub dump_start : Bytes → ℕ → ℕ → ℕ
dump_start out max_bytes max_lines =
    let start =
      if not (max_bytes == 0) && ltb max_bytes (length out) then length out - max_bytes else 0 in
    if not (max_lines == 0) then start + tail_line_start (drop start out) max_lines else start

-- The loop of `dump_session`, with fuel: what the packets up to MSG_DUMP_END hold. Every packet takes
-- at least its header off the stream, so the length of the stream and one more are enough.
unfoldable pub recv_dump : ℕ → Bytes → Bytes → Result Bytes
recv_dump zero stream out = err other
recv_dump (suc fuel) stream out = elim (recv_packet_blocking stream) [
  | err e ↦ err e
  | ok (pkt, rest) ↦
      (let on = recv_dump fuel rest (if pkt.typ == msg_content then out ++ pkt.payload else out) in
        if pkt.typ == msg_dump_end then ok out else on)
]

abbrev pub dump_request : Packet
dump_request = record { typ = msg_dump; payload = [] }

-- `stream` is the connection that `connect_session` gives, and `incoming` what comes on it.
unfoldable pub dump_session : Stream → Bytes → ℕ → ℕ → Result Bytes
dump_session stream incoming max_bytes max_lines = do
  pid ← recv_packet_blocking incoming
  sent ← (send_packet_blocking stream dump_request).0
  out ← recv_dump (suc (length pid.1)) pid.1 []
  ok (drop (dump_start out max_bytes max_lines) out)
