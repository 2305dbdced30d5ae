-- ===== src/Main/Live.antt =====
-- A run of the program of src/main.rs that attaches to a session whose server goes through its loop,
-- with all its clients, to the exit of the child.
use abduco_inline.Prelude.{
  ℕ, ◌+◌, ◌*◌, ◌^◌, ◌≤◌, ◌<◌, ◌≡◌, refl, ap, ◌∙◌, List, [], ◌∷◌, ◌++◌, get_elem?, length, Bool,
  true, false, none, some, All, ok,
}
use abduco_inline.Prelude.Bytes.{Bytes}
use abduco_inline.Prelude.Text.{codes}
use abduco_inline.Protocol.{packet_bytes}
use abduco_inline.Stream.{send_packet_blocking}
use abduco_inline.Server.Client.{Client, send_queue_cap}
use abduco_inline.Server.Client.Outbound.{committed}
use abduco_inline.Server.Packets.{Pty}
use abduco_inline.Server.Packets.Delivery.{TakesAll}
use abduco_inline.Server.Tick.{Os, Round, exit_packet}
use abduco_inline.Server.Tick.Frames.{FitsPacket}
use abduco_inline.Server.Tick.Sound.{IsFresh}
use abduco_inline.Server.Tick.Told.{EndsIn}
use abduco_inline.Log.{i32_text}
use abduco_inline.Files.{World, socket, is_absolute}
use abduco_inline.Attach.{Progress, resize_packet, attach_request}
use abduco_inline.Attach.Exit.{FromSocket}
use abduco_inline.Attach.Whole.{framed}
use abduco_inline.Attach.Live.{after_rounds, output_until, told_exit, loop_is_shown}
use abduco_inline.Main.{saves_modes}
use abduco_inline.Main.Program.{Machine, info, ended, finish_attach, main}
use abduco_inline.Main.Shown.{plain, main-attach}

-- From the server's loop to the exit code: in any state that the loop comes to from its start, whatever its
-- clients send, however their packets and the rounds interleave and however the kernel cuts the writes,
-- take the round in which the child's exit is known, and one of the clients that are then attached,
-- connected and not about to be closed. When this client is a run of `lich -a`, on a terminal, with the
-- absolute path of the session's socket, then the run prints what ends in the last HISTORY_CAP bytes of
-- some front part of the output and exactly the rest of the output that the pty has given up to then,
-- where the modes of the terminal can be read between the clearing of the screen and the showing of the
-- cursor, says on stderr with which status the session has terminated, and exits with that status. What
-- comes on the connection begins with all that the server has committed to the client when the exit has
-- been queued, which its queue has room for. The connections to the server take the pid packet, and the
-- pty is read in pieces of MAX_PAYLOAD at most; the client's connection takes both requests, and its
-- terminal takes each payload at once. While it runs nothing is typed and no signal comes, such as that the size
-- of its terminal has changed: what wakes it is its socket alone, often enough for packets of eight bytes.
pub main_shows_loop :
    (os : Os) (rs : List Round) (r : Round) (read_pty : Bool) (pty : Pty) (i : ℕ) (c d : Client)
    (status : ℕ) (rest : Bytes) (m : Machine) (w : World) (p : Bytes)
    → let t = after_rounds os rs r read_pty pty in
      All (λ r. All (IsFresh os) r.accepted) rs
      → All (IsFresh os) r.accepted
      → All FitsPacket pty.reads
      → t.child_exit ≡ some status
      → get_elem? t.clients i ≡ some c
      → c.attached ≡ true
      → c.disconnected ≡ false
      → c.close_after_drain ≡ none
      → length c.send_queue + length (packet_bytes (exit_packet status)) ≤ send_queue_cap
      → get_elem? (told_exit r t) i ≡ some d
      → status < 2 ^ 32
      → is_absolute p ≡ true
      → m.setting.tty.isatty ≡ true
      → w.kind p ≡ some (socket (some (committed d ++ rest)))
      → (send_packet_blocking m.terminal.stream (attach_request 0)).0 ≡ ok tt
      → (send_packet_blocking
          (send_packet_blocking m.terminal.stream (attach_request 0)).1
          (resize_packet m.setting.size)).0
        ≡ ok tt
      → All TakesAll m.terminal.stdout.writes
      → length (committed c) ≤ 8 * length m.terminal.stdout.writes
      → All FromSocket m.setting.wakes
      → length (committed c) ≤ 8 * length m.setting.wakes
      → (shown : Bytes) × EndsIn (output_until os rs r read_pty pty) shown
        × (main m (codes "-a" ∷ p ∷ []) w
            ≡ ended status
                (info p (codes "session terminated with exit status " ++ i32_text status) ∷ [])
                (m.terminal.stdout.wire ++ framed (saves_modes m.setting plain) shown)
                w)
unfolding finish_attach
main_shows_loop os rs r read_pty pty i c d status rest m w p fresh fresh' fits known at_ on up open_
      room at_' lt ab tty there sent sent' takes enough from woken =
    let said = info p (codes "session terminated with exit status " ++ i32_text status) ∷ [] in
    let (shown, ends, (s', run, out)) =
      loop_is_shown os rs r read_pty pty i c d status rest plain m.setting.size
        (saves_modes m.setting plain) m.setting.wakes
        (record (m.terminal) { incoming = committed d ++ rest }) fresh fresh' fits known at_ on up
        open_ room at_' refl lt refl sent sent' takes enough from woken in
    (
      shown,
      ends,
      main-attach m w p (committed d ++ rest) ab tty there
          ∙ ap (λ (r : Progress). finish_attach plain p r w) run
          ∙ ap (λ (out : Bytes). ended status said out w) out,
    )
