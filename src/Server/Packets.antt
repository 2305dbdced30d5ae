-- ===== src/Server/Packets.antt =====
-- src/main.rs: `read_client_packets` and `fd_write_all` on the pty. The pty is what the server sees
-- of the session's process: the bytes written to the master, and the calls made on it.
pub mod Input
pub mod Readonly
pub mod Delivery
pub mod Rounds
pub mod Frames
use abduco_inline.Prelude.{
  ℕ, ◌+◌, ◌*◌, List, [], ◌∷◌, ◌++◌, length, get_or, leb, ◌==◌, if◌then◌else◌, Bool, true, false,
  ◌&&◌, ◌||◌, Option, none, some, is_none, bit_and, Result,
}
use mathlib.Core.Option
use abduco_inline.Prelude.Bytes.{Bytes, u16_from_ne_bytes}
use abduco_inline.Protocol.{
  Packet, while_packets, read_u32, msg_content, msg_attach, msg_detach, msg_resize, msg_exit,
  msg_dump, msg_send_keys,
}
use abduco_inline.Stream.{
  WriteAnswer, ReadAnswer, write_loop, ReadEnd, blocked, saw_eof, broken, read_loop,
}
use abduco_inline.History.{History}
use abduco_inline.Server.Client.{Client, send_history}

abbrev pub client_readonly : ℕ
client_readonly = 1

-- `ioctl(master, TIOCSWINSZ)` with rows and columns, and `kill(-child_pid, signal)`.
pub data PtyCall : Type 0 where
  set_winsize : ℕ → ℕ → PtyCall
  winch_group term_group : PtyCall

pub record Pty : Type 0 where
  pub written : Bytes
  pub writes : List WriteAnswer
  pub reads : List ReadAnswer
  pub calls : List PtyCall

unfoldable pub fd_write_all : Pty → Bytes → Result (Unit {0}) × Pty
fd_write_all pty buf =
    let w = write_loop pty.writes buf pty.written in
    (w.result, record pty { written = w.wire; writes = w.writes })

abbrev pub may_write : Client → Bool
may_write c = bit_and c.flags client_readonly == 0

abbrev pub is_input : Packet → Bool
is_input pkt = pkt.typ == msg_content || pkt.typ == msg_send_keys

unfoldable pub resize : Pty → Bytes → Pty
resize pty payload =
    let rows = u16_from_ne_bytes (get_or payload 0 0) (get_or payload 1 0) in
    let cols = u16_from_ne_bytes (get_or payload 2 0) (get_or payload 3 0) in
    record pty { calls = pty.calls ++ set_winsize rows cols ∷ winch_group ∷ [] }

unfoldable pub attach : Client → History → Bytes → Client
attach c h payload =
    send_history (record c { attached = true; flags = Option.get_or (read_u32 payload) 0 }) h false

-- `now` is what `Instant::now()` gives.
unfoldable pub dump : ℕ → Client → History → Client
dump now c h =
    let c' = send_history c h true in
    if is_none c'.close_after_drain then record c' { close_after_drain = some now } else c'

-- The body of the packet loop: the arms of the match in their order.
unfoldable pub handle_packet : ℕ → History → Client × Pty → Packet → Client × Pty
handle_packet now h (c, pty) pkt =
    if is_input pkt && may_write c
    then (c, (fd_write_all pty pkt.payload).1)
    else if is_input pkt
    then (c, pty)
    else if pkt.typ == msg_attach
    then (attach c h pkt.payload, pty)
    else if pkt.typ == msg_dump
    then (dump now c h, pty)
    else if pkt.typ == msg_resize && leb 4 (length pkt.payload)
    then (c, resize pty pkt.payload)
    else if pkt.typ == msg_resize
    then (c, pty)
    else if pkt.typ == msg_detach || pkt.typ == msg_exit
    then (record c { disconnected = true }, pty)
    else (c, pty)

-- The packet loop, over what is in the receive buffer.
unfoldable pub handle_packets : ℕ → History → Client → Pty → Client × Pty
handle_packets now h c pty =
    let ((c', pty'), rest) = while_packets (length c.buf) (handle_packet now h) (c, pty) c.buf in
    (record c' { buf = rest }, pty')

unfoldable pub read_client_packets : ℕ → History → Client → Pty → Client × Pty
read_client_packets now h c pty =
    let r = read_loop c.stream.reads c.buf in
    let c' = record c { stream = record (c.stream) { reads = r.reads }; buf = r.buf } in
    elim r.end_ [
      | broken ↦ (record c' { disconnected = true }, pty)
      | blocked ↦ handle_packets now h c' pty
      | saw_eof ↦
          (let (c'', pty') = handle_packets now h c' pty in
            (record c'' { disconnected = true }, pty'))
    ]
