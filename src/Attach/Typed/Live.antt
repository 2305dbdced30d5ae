-- ===== src/Attach/Typed/Live.antt =====
-- What is typed at a whole session of the attach client of src/main.rs, and what a server that goes
-- through its loop puts on the pty.
use abduco_inline.Prelude.{
  ◌^◌, ◌≤◌, ◌<◌, ◌≡◌, ◌≢◌, ap, ◌∙◌, List, [], ◌∷◌, ◌++◌, All, concat, length, arith, Bool, true,
  bit_and,
}
use abduco_inline.Prelude.Bytes.{Bytes}
use abduco_inline.Server.Packets.{Pty, client_readonly}
use abduco_inline.Server.Packets.Delivery.{TakesAll}
use abduco_inline.Server.Packets.Rounds.Reading.{IsIntact, data_of, pauses}
use abduco_inline.Server.Tick.{Os, Accepted, Round, server_loop, start}
use abduco_inline.Server.Tick.Sound.{server_of}
use abduco_inline.Server.Tick.Alone.Start.{start-Delivered}
use abduco_inline.Cli.Task.{AttachOpts}
use abduco_inline.Attach.{Winsize, Wake, Terminal, attach_session}
use abduco_inline.Attach.Typed.{typed}
use abduco_inline.Attach.Typed.Session.{FitsBuffer, ComesTo, attach_session-Sent}

-- From end to end, through the loop of the server: what the user types at a client that may write is all
-- that is written to the pty, whole and in its order, up to the detach key or the end of the input,
-- whatever else wakes the client in between, whatever the pty gives in the meantime, and however the
-- connection cuts the client's stream into pieces. The client connects in the first round, and no other
-- does; it still runs, or its user has left the session; on the server its reads do not fail, the loop
-- has come to a round more than reads that would block, and it still serves the client; and the pty takes
-- each payload at once.
pub typed_input_reaches_pty_in_loop :
    (o : AttachOpts) (size : Winsize) (raw : Bool) (wakes : List Wake) (s s' : Terminal) (os : Os)
    (r : Round) (rs : List Round) (read_pty : Bool) (pty : Pty) (a : Accepted)
    → bit_and o.flags client_readonly ≡ 0
    → o.flags < 2 ^ 32
    → All FitsBuffer wakes
    → s.stream.wire ≡ []
    → ComesTo (attach_session o size raw wakes s) s'
    → r.accepted ≡ a ∷ []
    → a.nonblocking ≡ true
    → data_of a.stream.reads ≡ s'.stream.wire
    → IsIntact a.stream.reads
    → pauses a.stream.reads < length (r ∷ rs)
    → All TakesAll pty.writes
    → length (typed o wakes) ≤ length pty.writes
    → All (λ r. r.accepted ≡ []) rs
    → let t = server_of (server_loop os (r ∷ rs) (start read_pty pty)) in
      t.clients ≢ [] → t.pty.written ≡ pty.written ++ concat (typed o wakes)
typed_input_reaches_pty_in_loop o size raw wakes s s' os r rs read_pty pty a w lt fits fresh comes
      one nb same intact enough takes room quiet stays =
    let v = attach_session-Sent o size raw wakes s s' w lt fits fresh comes in
    (start-Delivered os r rs v.packets read_pty pty a one nb (same ∙ v.bytes) intact enough v.kinds
      v.valid takes (ground (arith, v.input, room)) quiet stays).written
    ∙ ap (λ (t : List Bytes). pty.written ++ concat t) v.input
