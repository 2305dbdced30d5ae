-- ===== src/Attach.antt =====
-- src/main.rs: the attach client, `attach_session` and `client_loop`. What wakes the loop is data: what
-- `select` gives, what a read of stdin gives, and the size of the terminal at that time.
pub mod Exit
pub mod Detach
pub mod Sends
pub mod Readonly
pub mod Whole
pub mod Live
pub mod Typed
mod Tests
use mathlib.Core.Option
use abduco_inline.Prelude.{
  ℕ, ◌%◌, ◌/◌, List, [], ◌∷◌, ◌++◌, ◌==◌, if◌then◌else◌, Bool, true, false, ◌&&◌, not, Option, none,
  some, bit_and, Result, ok, err, IoError, interrupted,
}
use abduco_inline.Prelude.Text.{codes}
use abduco_inline.Prelude.Bytes.{Bytes, u16_to_ne_bytes, u32_to_ne_bytes}
use abduco_inline.Protocol.{
  Packet, recv_packet_blocking, read_u32, msg_content, msg_attach, msg_detach, msg_resize, msg_exit,
}
use abduco_inline.Stream.{
  Stream, ReadAnswer, read_ok, read_failed, write_loop, send_packet_blocking,
}
use abduco_inline.Server.Client.{content}
use abduco_inline.Server.Packets.{client_readonly}
use abduco_inline.Cli.Task.{AttachOpts}

pub record Winsize : Type 0 where
  pub rows : ℕ
  pub cols : ℕ

-- `select` is interrupted, with the flag that the SIGWINCH handler sets, or fails; or the socket may
-- be ready, and stdin, with the answer to its read.
pub data Event : Type 0 where
  select_interrupted : Bool → Event
  select_failed : IoError → Event
  ready : Bool → Option ReadAnswer → Event

pub record Wake : Type 0 where
  pub event : Event
  pub winsize : Winsize

pub data ClientStatus : Type 0 where
  detached io_error : ClientStatus
  exited : ℕ → ClientStatus

-- `stream` is what the client writes to its connection, `incoming` what comes on it, and `stdout` the
-- terminal.
pub record Terminal : Type 0 where
  pub stream : Stream
  pub incoming : Bytes
  pub stdout : Stream

-- The loop goes on, or returns.
pub data Progress : Type 0 where
  again : Terminal → Progress
  returned : Result ClientStatus → Terminal → Progress

-- `send_packet_blocking(stream, pkt)?`
unfoldable pub send_then : Terminal → Packet → (Terminal → Progress) → Progress
send_then s pkt next =
    let (sent, stream) = send_packet_blocking s.stream pkt in
    elim sent [
      | ok _ ↦ next (record s { stream = stream })
      | err e ↦ returned (err e) (record s { stream = stream })
    ]

abbrev pub resize_packet : Winsize → Packet
resize_packet w = record {
  typ = msg_resize;
  payload = u16_to_ne_bytes w.rows ++ u16_to_ne_bytes w.cols;
}

abbrev pub detach_packet : Packet
detach_packet = record { typ = msg_detach; payload = [] }

-- `io::stdout().write_all(&pkt.payload)?` and the flush.
unfoldable pub print : Bytes → Terminal → Progress
print bytes s =
    let w = write_loop s.stdout.writes bytes s.stdout.wire in
    let s' = record s { stdout = record (s.stdout) { wire = w.wire; writes = w.writes } } in
    elim w.result [ ok _ ↦ again s' | err e ↦ returned (err e) s' ]

-- The arms of the match in their order.
unfoldable pub handle_server_packet : AttachOpts → Winsize → Packet → Terminal → Progress
handle_server_packet o size pkt s =
    if pkt.typ == msg_content && not o.passthrough
    then print pkt.payload s
    else if pkt.typ == msg_content
    then again s
    else if pkt.typ == msg_resize
    then send_then s (resize_packet size) again
    else if pkt.typ == msg_exit
    then returned (ok (exited (Option.get_or (read_u32 pkt.payload) 0)))
        (record s { stream = (send_packet_blocking s.stream pkt).1 })
    else again s

unfoldable pub read_socket : AttachOpts → Winsize → Terminal → Progress
read_socket o size s = elim (recv_packet_blocking s.incoming) [
  | err _ ↦ returned (ok io_error) s
  | ok (pkt, rest) ↦ handle_server_packet o size pkt (record s { incoming = rest })
]

unfoldable pub read_stdin : AttachOpts → ReadAnswer → Terminal → Progress
read_stdin o (read_ok []) s = returned (ok detached) s
read_stdin o (read_ok (b ∷ bs)) s =
    if b == o.detach_key
    then send_then s detach_packet (λ s'. returned (ok detached) s')
    else if bit_and o.flags client_readonly == 0
    then send_then s (content (b ∷ bs)) again
    else again s
read_stdin o (read_failed interrupted) s = again s
read_stdin o (read_failed e) s = returned (err e) s

-- One round of the loop.
unfoldable pub client_step : AttachOpts → Winsize → Event → Terminal → Progress
client_step o size (select_interrupted winch) s =
    if winch then send_then s (resize_packet size) again else again s
client_step o size (select_failed e) s = returned (err e) s
client_step o size (ready socket stdin) s =
    let first : Progress = if socket then read_socket o size s else again s in
    elim first [
      | returned r s' ↦ returned r s'
      | again s' ↦ elim stdin [ none ↦ again s' | some a ↦ read_stdin o a s' ]
    ]

unfoldable pub client_loop : AttachOpts → List Wake → Terminal → Progress
client_loop o [] s = again s
client_loop o (w ∷ ws) s = elim (client_step o w.winsize w.event s) [
  | again s' ↦ client_loop o ws s'
  | returned r s' ↦ returned r s'
]

abbrev pub attach_request : ℕ → Packet
attach_request flags = record { typ = msg_attach; payload = u32_to_ne_bytes flags }

-- What `RawMode` prints: it clears the screen and moves the cursor to its corner; it shows the cursor.
abbrev pub clear_screen : Bytes
clear_screen = 27 ∷ codes "[2J" ++ 27 ∷ codes "[H"

abbrev pub show_cursor : Bytes
show_cursor = 27 ∷ codes "[?25h"

abbrev pub shows : Bytes → Terminal → Terminal
shows text s = record s { stdout = record (s.stdout) { wire = s.stdout.wire ++ text } }

-- The terminal behind `RawMode::enter`, where it has saved the modes or not. What `print!` prints, which
-- panics otherwise, stdout takes.
abbrev pub entered : Bool → Terminal → Terminal
entered false s = s
entered true s = shows clear_screen s

-- The drop of the `RawMode` when the loop has returned, with an error or without.
abbrev pub left : Bool → Progress → Progress
left false p = p
left true (again s) = again s
left true (returned r s) = returned r (shows show_cursor s)

-- `attach_session` up to the drop of its `RawMode`, with the connection of `connect_session`, the size
-- of the terminal, and whether `RawMode::enter`, which does not fail, saves the modes.
unfoldable pub attach_session : AttachOpts → Winsize → Bool → List Wake → Terminal → Progress
attach_session o size raw wakes s = elim (recv_packet_blocking s.incoming) [
  | err e ↦ returned (err e) s
  | ok (_, rest) ↦
      send_then (record s { incoming = rest }) (attach_request o.flags)
        (λ s1.
          send_then s1 (resize_packet size) (λ s2. left raw (client_loop o wakes (entered raw s2))))
]

-- The exit code of the process, behind `attach_session` with `terminate` in `real_main`, and `main`.
abbrev pub process_exit : Result ClientStatus → ℕ
process_exit (ok (exited code)) = code
process_exit (ok _) = 0
process_exit (err _) = 1
